-- ===== src/Socket/Services.antt =====
-- The services that LIST_SERVICES shows.
use disco.Base.{
  Str, Str_eq, str_eq_iff, ℕ, pos, false, List, [], ◌∷◌, ◌++◌, Option, none, some, ◌≡◌, refl, arith,
  ◌<◌, ◌^◌, In, here, there, Option-cases, Bool-cases, inl, inr, ◌≟◌, subst, sym, ap, ◌∙◌, beq_refl,
  if◌then◌else◌,
}
use disco.Dict.{Dict, lookup}
use disco.Dict.Laws.{lookup-insert}
use disco.Net.{colon, open_bracket, close_bracket, contains, host_port}
use disco.Net.Laws.{atoi-format_int, split_host_port-host_port}
use disco.Nss.{Record}
use disco.Protocol.{ServiceHost}
use disco.Socket.Views.{service_host, append_host, add_services, service_hosts}

-- The service lists the host.
abbrev pub Lists : Str → ServiceHost → Dict Str (List ServiceHost) → Type 0
Lists name host m = (hosts : List ServiceHost) × (lookup name m ≡ some hosts) × In host hosts

In-append : (h x : ServiceHost) (xs : List ServiceHost) → In h xs → In h (xs ++ x ∷ [])
In-append h x [] i = elim i [ ]
In-append h x (y ∷ ys) (here e) = here e
In-append h x (y ∷ ys) (there i) = there (In-append h x ys i)

In-append_last : (x : ServiceHost) (xs : List ServiceHost) → In x (xs ++ x ∷ [])
In-append_last x [] = here refl
In-append_last x (y ∷ ys) = there (In-append_last x ys)

-- The hosts of a service with one more.
abbrev extended : Option (List ServiceHost) → ServiceHost → List ServiceHost
extended none x = x ∷ []
extended (some hosts) x = hosts ++ x ∷ []

lookup-append_host :
    (k name : Str) (x : ServiceHost) (m : Dict Str (List ServiceHost))
    → lookup k (append_host name x m)
      ≡ (if name ≟ k then some (extended (lookup name m) x) else lookup k m)
unfolding append_host
lookup-append_host k name x m = elim (Option-cases (lookup name m)) [
  | inl e ↦ rw (e, append_host) (lookup-insert name k (x ∷ []) m)
  | inr (hosts, e) ↦ rw (e, append_host) (lookup-insert name k (hosts ++ x ∷ []) m)
]

In-extended : (o : Option (List ServiceHost)) (x : ServiceHost) → In x (extended o x)
In-extended none x = here refl
In-extended (some hosts) x = In-append_last x hosts

append_host-Lists :
    (name : Str) (host : ServiceHost) (m : Dict Str (List ServiceHost))
    → Lists name host (append_host name host m)
append_host-Lists name host m = (
  extended (lookup name m) host,
  rw (lookup-append_host name name host m, beq_refl name) refl,
  In-extended _ host,
)

append_host-keeps :
    (name other : Str) (host x : ServiceHost) (m : Dict Str (List ServiceHost))
    → Lists name host m
    → Lists name host (append_host other x m)
append_host-keeps name other host x m (hosts, e, i) = elim (Bool-cases (other ≟ name)) [
  | inl same ↦
      let found : lookup other m ≡ some hosts =
        ap (λ k. lookup k m) ((str_eq_iff other name).0 same) ∙ e in
      (
        hosts ++ x ∷ [],
        rw (lookup-append_host name other x m, same, found) refl,
        In-append host x hosts i,
      )
  | inr different ↦ (hosts, rw (lookup-append_host name other x m, different, e) refl, i)
]

-- The services of one record.
abbrev step_services : Str → Str → Str → Dict Str (List ServiceHost) → Dict Str (List ServiceHost)
step_services hostname name text m = elim (service_host hostname text) [
  | none ↦ m
  | some host ↦ append_host name host m
]

step_services-keeps :
    (name : Str) (host : ServiceHost) (hostname other text : Str) (m : Dict Str (List ServiceHost))
    → Lists name host m
    → Lists name host (step_services hostname other text m)
step_services-keeps name host hostname other text m h =
    elim (Option-cases (service_host hostname text)) [
      | inl e ↦ rw (e, step_services) h
      | inr (x, e) ↦ rw (e, step_services) (append_host-keeps name other host x m h)
    ]

add_services-keeps :
    (name : Str) (host : ServiceHost) (hostname : Str) (svcs : Dict Str Str)
    (m : Dict Str (List ServiceHost))
    → Lists name host m
    → Lists name host (add_services hostname svcs m)
unfolding add_services
add_services-keeps name host hostname [] m h = h
add_services-keeps name host hostname ((other, text) ∷ rest) m h =
    add_services-keeps name host hostname rest (step_services hostname other text m)
      (step_services-keeps name host hostname other text m h)

service_hosts-keeps :
    (name : Str) (host : ServiceHost) (rs : List Record) (m : Dict Str (List ServiceHost))
    → Lists name host m
    → Lists name host (service_hosts rs m)
unfolding service_hosts
service_hosts-keeps name host [] m h = h
service_hosts-keeps name host (r ∷ rest) m h =
    service_hosts-keeps name host rest (add_services r.hostname r.services m)
      (add_services-keeps name host r.hostname r.services m h)

step_services-Lists :
    (name text hostname : Str) (host : ServiceHost) (m : Dict Str (List ServiceHost))
    → service_host hostname text ≡ some host
    → Lists name host (step_services hostname name text m)
step_services-Lists name text hostname host m k =
    rw (k, step_services) (append_host-Lists name host m)

add_services-Lists :
    (name text hostname : Str) (host : ServiceHost) (svcs : Dict Str Str)
    (m : Dict Str (List ServiceHost))
    → lookup name svcs ≡ some text
    → service_host hostname text ≡ some host
    → Lists name host (add_services hostname svcs m)
unfolding add_services lookup
add_services-Lists name text hostname host [] m h k = absurd (ground arith)
add_services-Lists name text hostname host ((other, t) ∷ rest) m h k =
    elim (Bool-cases (other ≟ name)) [
      | inl same ↦
          let eq : other ≡ name = (str_eq_iff other name).0 same in
          let held : t ≡ text = ground arith in
          add_services-keeps name host hostname rest (step_services hostname other t m) (
            subst (λ n. Lists name host (step_services hostname n t m)) (sym eq)
              (subst (λ u. Lists name host (step_services hostname name u m)) (sym held)
                (step_services-Lists name text hostname host m k)))
      | inr different ↦ add_services-Lists name text hostname host rest _ (ground arith) k
    ]

service_hosts-Lists :
    (name text : Str) (r : Record) (host : ServiceHost) (rs : List Record)
    (m : Dict Str (List ServiceHost))
    → In r rs
    → lookup name r.services ≡ some text
    → service_host r.hostname text ≡ some host
    → Lists name host (service_hosts rs m)
unfolding service_hosts
service_hosts-Lists name text r host [] m i h k = elim i [ ]
service_hosts-Lists name text r host (x ∷ rs) m (here e) h k =
    service_hosts-keeps name host rs (add_services x.hostname x.services m) (
      subst (λ y. Lists name host (add_services y.hostname y.services m)) e
        (add_services-Lists name text r.hostname host r.services m h k))
service_hosts-Lists name text r host (x ∷ rs) m (there i) h k =
    service_hosts-Lists name text r host rs (add_services x.hostname x.services m) i h k

-- LIST_SERVICES shows every listed record that has a service under an address and a port, with the
-- record's host and that address and port, if the address has no colon and no bracket and the port
-- is a number that an int holds.
pub service_hosts-host_port :
    (name addr : Str) (n : ℕ) (r : Record) (rs : List Record)
    → In r rs
    → lookup name r.services ≡ some (host_port addr (pos n))
    → contains colon addr ≡ false
    → contains open_bracket addr ≡ false
    → contains close_bracket addr ≡ false
    → n < 2 ^ 63
    → Lists name
        (record { hostname = r.hostname; address = addr; port = pos n })
        (service_hosts rs [])
unfolding service_host
service_hosts-host_port name addr n r rs i h p q c b =
    service_hosts-Lists name _ r _ rs [] i h
      (rw (split_host_port-host_port addr n p q c, service_host) (rw (atoi-format_int n b) refl))
