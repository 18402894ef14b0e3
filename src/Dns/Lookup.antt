-- ===== src/Dns/Lookup.antt =====
-- Whose addresses an A question is answered with, and whose name a PTR question.
use disco.Base.{
  Str, Str_eq, beq_refl, str_eq_iff, ℕ, true, false, List, [], ◌∷◌, ◌++◌, Option, none, some, ◌≡◌,
  refl, arith, In, here, there, find, find-In, any, Option-cases, Bool-cases, inl, inr, ◌≟◌,
  is_empty, length, length-append, ap, subst,
}
use disco.Clock.{Time}
use disco.Store.{RecordStore}
use disco.Dns.{DnsRecord, get_all_records}
use disco.Dns.Text.{strip_suffix, parse_ip4}
use disco.Dns.Handlers.{
  Settings, Answer, a, ptr, record_ttl, domain_suffix, is_called, add_answer, address_answers,
  a_answers, ptr_answers, handle_a_query,
}

longer : (c : ℕ) (s t : Str) → ((c ∷ (s ++ t)) ≟ t) ≡ false
longer c s t = elim (Bool-cases ((c ∷ (s ++ t)) ≟ t)) [
  | inr e ↦ e
  | inl e ↦
      let same : c ∷ (s ++ t) ≡ t = (str_eq_iff (c ∷ (s ++ t)) t).0 e in
      let sizes : length (c ∷ (s ++ t)) ≡ length t = ap length same in
      absurd (omega (arith, sizes, length-append s t))
]

strip_suffix-append : (suffix s : Str) → strip_suffix suffix (s ++ suffix) ≡ some s
unfolding strip_suffix
strip_suffix-append [] [] = refl
strip_suffix-append (b ∷ t) [] = rw (beq_refl (b ∷ t)) refl
strip_suffix-append suffix (c ∷ s) =
    rw (longer c s suffix, strip_suffix-append suffix s, strip_suffix) refl

-- A question for a name in the domain is answered for that name, from the records of the instant.
a_query_named :
    (cfg : Settings) (now : Time) (name : Str) (s : RecordStore)
    → is_empty name ≡ false
    → (handle_a_query cfg now (name ++ domain_suffix cfg) s).1
      ≡ a_answers cfg (name ++ domain_suffix cfg) name (get_all_records now s).1
unfolding handle_a_query
a_query_named cfg now name s h =
    rw (strip_suffix-append (domain_suffix cfg) name, handle_a_query) (rw h refl)

no_In : (x : Answer) → In x [] → ⊥
no_In x i = elim i [ ]

only_In : (x y : Answer) → In x (y ∷ []) → x ≡ y
only_In x y (here e) = e
only_In x y (there i) = absurd (no_In x i)

-- An answer with one of the IPv4 addresses, and the lifetime.
abbrev pub AnswersFor : List Str → ℕ → Answer → Type 0
AnswersFor addrs ttl x =
    (addr : Str) × (ip : List ℕ) × In addr addrs
    × (parse_ip4 addr ≡ some ip)
    × (x.resource ≡ a ip)
    × (x.ttl ≡ ttl)

AnswersFor-cons :
    (question addr : Str) (ttl : ℕ) (rest : List Str) (x : Answer) (others : List Answer)
    → (In x others → AnswersFor rest ttl x)
    → (o : Option (List ℕ)) → parse_ip4 addr ≡ o
    → In x (add_answer question ttl o others)
    → AnswersFor (addr ∷ rest) ttl x
AnswersFor-cons question addr ttl rest x others f none e i =
    let (other, ip, j, p, q, t) = f i in (other, ip, there j, p, q, t)
AnswersFor-cons question addr ttl rest x others f (some ip) e (here same) =
    (addr, ip, here refl, e, ap (λ y. y.resource) same, ap (λ y. y.ttl) same)
AnswersFor-cons question addr ttl rest x others f (some ip) e (there i) =
    let (other, ip', j, p, q, t) = f i in (other, ip', there j, p, q, t)

address_answers-AnswersFor :
    (question : Str) (ttl : ℕ) (addrs : List Str) (x : Answer)
    → In x (address_answers question ttl addrs)
    → AnswersFor addrs ttl x
unfolding address_answers
address_answers-AnswersFor question ttl [] x i = elim i [ ]
address_answers-AnswersFor question ttl (addr ∷ rest) x i =
    AnswersFor-cons question addr ttl rest x (address_answers question ttl rest)
      (address_answers-AnswersFor question ttl rest x) (parse_ip4 addr) refl i

-- An A question for a name in the domain is answered only with IPv4 addresses of a host that the
-- DNS server sees at the instant and that has the name as its hostname or as an alias, with the
-- lifetime of the host's status.
pub a_query-called :
    (cfg : Settings) (now : Time) (name : Str) (s : RecordStore) (x : Answer)
    → is_empty name ≡ false
    → In x (handle_a_query cfg now (name ++ domain_suffix cfg) s).1
    → (r : DnsRecord) × In r (get_all_records now s).1
      × (is_called name r ≡ true)
      × AnswersFor r.addresses (record_ttl cfg r) x
unfolding a_answers
a_query-called cfg now name s x h i =
    let question = name ++ domain_suffix cfg in
    let records = (get_all_records now s).1 in
    let answered : In x (a_answers cfg question name records) =
      subst (In x) (a_query_named cfg now name s h) i in
    elim (Option-cases (find (is_called name) records)) [
      | inl e ↦
          let no_answer : a_answers cfg question name records ≡ [] = rw (e, a_answers) refl in
          absurd (no_In x (subst (In x) no_answer answered))
      | inr (r, e) ↦
          let (place, called) = find-In (is_called name) records e in
          let all_answers : a_answers cfg question name records
              ≡ address_answers question (record_ttl cfg r) r.addresses =
            rw (e, a_answers) refl in
          (
            r,
            place,
            called,
            address_answers-AnswersFor question (record_ttl cfg r) r.addresses x
                (subst (In x) all_answers answered),
          )
    ]

-- A PTR answer names a host that the records have with the address.
pub ptr_answers-address :
    (cfg : Settings) (question ip : Str) (records : List DnsRecord) (x : Answer)
    → In x (ptr_answers cfg question ip records)
    → (r : DnsRecord) × In r records
      × (any (λ addr. addr ≟ ip) r.addresses ≡ true)
      × (x.resource ≡ ptr (r.hostname ++ domain_suffix cfg))
unfolding ptr_answers
ptr_answers-address cfg question ip records x i =
    elim (Option-cases (find (λ r. any (λ addr. addr ≟ ip) r.addresses) records)) [
      | inl e ↦
          let no_answer : ptr_answers cfg question ip records ≡ [] = rw (e, ptr_answers) refl in
          absurd (no_In x (subst (In x) no_answer i))
      | inr (r, e) ↦
          let (place, held) = find-In _ records e in
          let answer : Answer = record {
            name = question;
            ttl = record_ttl cfg r;
            resource = ptr (r.hostname ++ domain_suffix cfg);
          } in
          let one : ptr_answers cfg question ip records ≡ answer ∷ [] = rw (e, ptr_answers) refl in
          (r, place, held, ap (λ y. y.resource) (only_In x answer (subst (In x) one i)))
    ]
