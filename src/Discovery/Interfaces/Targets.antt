-- ===== src/Discovery/Interfaces/Targets.antt =====
-- Which addresses a packet is sent to, of the interfaces of the machine.
use disco.Base.{
  Str, ℕ, false, true, List, [], ◌∷◌, some, ◌≡◌, refl, sym, subst, ◌∙◌, ◌↔◌, In, here, there, inl,
  inr, ◌⊎◌, any, ◌≟◌, length, ◌==◌, Bool-cases, Option-cases, beq_refl, arith, Str_eq,
}
use disco.Base.Options.{some_eq}
use disco.Discovery.Interfaces.{
  Address, Interface, address_target, is_skipped, is_filtered, broadcast_bytes, targets,
}
use disco.Discovery.Interfaces.Covered.{Covers-of_targets, targets-of_Covers}

-- The target is the broadcast address of an IPv4 address, with a mask of four bytes, of an interface
-- that is up, is no loopback, and is named by the filter unless the filter is empty.
abbrev pub Reaches : List Str → List Interface → List ℕ → Type 0
Reaches filter ifaces t =
    (iface : Interface) × (addrs : List Address) × (a : Address) × (ip : List ℕ) × In iface ifaces
    × (iface.is_up ≡ true)
    × (iface.is_loopback ≡ false)
    × ((filter ≡ []) ⊎ In iface.name filter)
    × (iface.addresses ≡ some addrs)
    × In a addrs
    × (a.ip4 ≡ some ip)
    × (length a.mask ≡ 4)
    × (t ≡ broadcast_bytes ip a.mask)

In-any : (name : Str) (filter : List Str) → any (λ n. n ≟ name) filter ≡ true → In name filter
In-any name [] h = absurd (ground arith)
In-any name (n ∷ rest) h = elim (Bool-cases (n ≟ name)) [
  | inl e ↦ here (sym ((Str_eq.beq_iff n name).0 e))
  | inr e ↦ there (In-any name rest (rw e at h))
]

any-In : (name : Str) (filter : List Str) → In name filter → any (λ n. n ≟ name) filter ≡ true
any-In name [] i = elim i [ ]
any-In name (n ∷ rest) (here e) = rw (subst (λ m. (m ≟ name) ≡ true) e (beq_refl name)) refl
any-In name (n ∷ rest) (there i) = rw (any-In name rest i) (ground arith)

named-of_is_filtered :
    (filter : List Str) (name : Str)
    → is_filtered filter name ≡ false
    → (filter ≡ []) ⊎ In name filter
named-of_is_filtered [] name h = inl refl
named-of_is_filtered (n ∷ rest) name h = inr (In-any name (n ∷ rest) (ground arith))

is_filtered-of_named :
    (filter : List Str) (name : Str)
    → (filter ≡ []) ⊎ In name filter
    → is_filtered filter name ≡ false
is_filtered-of_named filter name (inl e) = rw e refl
is_filtered-of_named [] name (inr i) = refl
is_filtered-of_named (n ∷ rest) name (inr i) = rw (any-In name (n ∷ rest) i) refl

network-of_address_target :
    (a : Address) (t : List ℕ)
    → address_target a ≡ some t
    → (ip : List ℕ) × (a.ip4 ≡ some ip) × (length a.mask ≡ 4) × (t ≡ broadcast_bytes ip a.mask)
unfolding address_target
network-of_address_target a t h = elim (Option-cases a.ip4) [
  | inl e ↦ absurd (ground arith)
  | inr (ip, e) ↦ elim (Bool-cases (length a.mask == 4)) [
    | inl four ↦ (ip, e, ground arith, some_eq (sym h ∙ rw (e, four) refl))
    | inr other ↦ absurd (ground arith)
  ]
]

address_target-of_network :
    (a : Address) (ip t : List ℕ)
    → a.ip4 ≡ some ip
    → length a.mask ≡ 4
    → t ≡ broadcast_bytes ip a.mask
    → address_target a ≡ some t
unfolding address_target
address_target-of_network a ip t e four same = rw (e, four, same) refl

-- The addresses that a packet is sent to, besides the configured one, are exactly the broadcast
-- addresses of the IPv4 addresses, with masks of four bytes, of the interfaces that are up, are no
-- loopback, and are named by the filter unless the filter is empty.
pub targets_iff :
    (filter : List Str) (ifaces : List Interface) (t : List ℕ)
    → In t (targets filter ifaces) ↔ Reaches filter ifaces t
unfolding is_skipped
targets_iff filter ifaces t = (
  λ i.
      (let (iface, addrs, a, place, used, known, j, e) = Covers-of_targets filter ifaces t i in
        let (ip, e4, four, same) = network-of_address_target a t e in
        (
          iface,
          addrs,
          a,
          ip,
          place,
          ground arith,
          ground arith,
          named-of_is_filtered filter iface.name (ground arith),
          known,
          j,
          e4,
          four,
          same,
        )),
  λ r.
      (let (iface, addrs, a, ip, place, up, away, named, known, j, e4, four, same) = r in
        targets-of_Covers filter ifaces t (
          iface,
          addrs,
          a,
          place,
          rw (up, away, is_filtered-of_named filter iface.name named) refl,
          known,
          j,
          address_target-of_network a ip t e4 four same,
        )),
)
