-- ===== src/Discovery/Interfaces/Covered.antt =====
-- Which addresses a packet is sent to, by the tests of the code on interfaces and addresses.
use disco.Base.{
  Str, ℕ, false, true, List, [], ◌∷◌, ◌++◌, Option, none, some, ◌≡◌, refl, sym, ap, subst, ◌∙◌,
  Bool, In, here, there, inl, inr, In-append_left, In-append_right, In-append-cases, if◌then◌else◌,
  Str_eq,
}
use disco.Discovery.Interfaces.{
  Address, Interface, address_target, address_targets, is_skipped, targets,
}

-- The address belongs to an interface that is not skipped, and its network has the target.
abbrev pub Covers : List Str → List Interface → List ℕ → Type 0
Covers filter ifaces t =
    (iface : Interface) × (addrs : List Address) × (a : Address) × In iface ifaces
    × (is_skipped filter iface ≡ false)
    × (iface.addresses ≡ some addrs)
    × In a addrs
    × (address_target a ≡ some t)

-- The targets once an address is looked at.
abbrev with_target : Option (List ℕ) → List (List ℕ) → List (List ℕ)
with_target o ts = elim o [ none ↦ ts | some t ↦ t ∷ ts ]

Found : List Address → List ℕ → Type 0
Found addrs t = (a : Address) × In a addrs × (address_target a ≡ some t)

Found-later : (a : Address) (rest : List Address) (t : List ℕ) → Found rest t → Found (a ∷ rest) t
unfolding Found
Found-later a rest t (b, i, e) = (b, there i, e)

Found-cons :
    (a : Address) (rest : List Address) (ts : List (List ℕ)) (t : List ℕ)
    → (In t ts → Found rest t)
    → (o : Option (List ℕ)) → address_target a ≡ o
    → In t (with_target o ts)
    → Found (a ∷ rest) t
unfolding Found
Found-cons a rest ts t later none e i = Found-later a rest t (later i)
Found-cons a rest ts t later (some u) e (here same) = (a, here refl, e ∙ ap some (sym same))
Found-cons a rest ts t later (some u) e (there i) = Found-later a rest t (later i)

Found-of_address_targets :
    (addrs : List Address) (t : List ℕ) → In t (address_targets addrs) → Found addrs t
unfolding address_targets
Found-of_address_targets [] t i = elim i [ ]
Found-of_address_targets (a ∷ rest) t i =
    Found-cons a rest (address_targets rest) t (Found-of_address_targets rest t) (address_target a)
      refl i

In-with_target :
    (o : Option (List ℕ)) (ts : List (List ℕ)) (t : List ℕ) → In t ts → In t (with_target o ts)
In-with_target none ts t i = i
In-with_target (some u) ts t i = there i

In-address_targets :
    (addrs : List Address) (t : List ℕ) (a : Address)
    → In a addrs
    → address_target a ≡ some t
    → In t (address_targets addrs)
unfolding address_targets
In-address_targets [] t a i h = elim i [ ]
In-address_targets (b ∷ rest) t a (here same) h =
    subst (λ o. In t (with_target o (address_targets rest)))
      (sym (ap address_target (sym same) ∙ h)) (here refl)
In-address_targets (b ∷ rest) t a (there i) h =
    In-with_target (address_target b) (address_targets rest) t (In-address_targets rest t a i h)

-- The targets once an interface is looked at.
abbrev with_interface : Bool → Option (List Address) → List (List ℕ) → List (List ℕ)
with_interface skipped o ts =
    if skipped then ts else elim o [ none ↦ ts | some addrs ↦ address_targets addrs ++ ts ]

In-with_interface :
    (b : Bool) (o : Option (List Address)) (ts : List (List ℕ)) (t : List ℕ)
    → In t ts
    → In t (with_interface b o ts)
In-with_interface true o ts t i = i
In-with_interface false none ts t i = i
In-with_interface false (some addrs) ts t i = In-append_right t (address_targets addrs) ts i

module _ (filter : List Str) where
  Covers-later :
      (iface : Interface) (rest : List Interface) (t : List ℕ)
      → Covers filter rest t
      → Covers filter (iface ∷ rest) t
  Covers-later iface rest t (other, addrs, a, i, h, e, j, f) =
      (other, addrs, a, there i, h, e, j, f)

  Covers-cons :
      (iface : Interface) (rest : List Interface) (ts : List (List ℕ)) (t : List ℕ)
      → (In t ts → Covers filter rest t)
      → (b : Bool) → is_skipped filter iface ≡ b
      → (o : Option (List Address)) → iface.addresses ≡ o
      → In t (with_interface b o ts)
      → Covers filter (iface ∷ rest) t
  unfolding Found
  Covers-cons iface rest ts t later true e o f i = Covers-later iface rest t (later i)
  Covers-cons iface rest ts t later false e none f i = Covers-later iface rest t (later i)
  Covers-cons iface rest ts t later false e (some addrs) f i =
      elim (In-append-cases t (address_targets addrs) ts i) [
        | inl j ↦
            let (a, k, h) = Found-of_address_targets addrs t j in
            (iface, addrs, a, here refl, e, f, k, h)
        | inr j ↦ Covers-later iface rest t (later j)
      ]

  pub Covers-of_targets :
      (ifaces : List Interface) (t : List ℕ) → In t (targets filter ifaces) → Covers filter ifaces t
  unfolding targets
  Covers-of_targets [] t i = elim i [ ]
  Covers-of_targets (iface ∷ rest) t i =
      Covers-cons iface rest (targets filter rest) t (Covers-of_targets rest t)
        (is_skipped filter iface) refl iface.addresses refl i

  pub targets-of_Covers :
      (ifaces : List Interface) (t : List ℕ) → Covers filter ifaces t → In t (targets filter ifaces)
  unfolding targets
  targets-of_Covers [] t (iface, addrs, a, i, h, known, j, e) = elim i [ ]
  targets-of_Covers (first ∷ rest) t (iface, addrs, a, here same, h, known, j, e) =
      rw (ap (is_skipped filter) (sym same) ∙ h, ap (λ x. x.addresses) (sym same) ∙ known)
        (In-append_left t (address_targets addrs) (targets filter rest)
          (In-address_targets addrs t a j e))
  targets-of_Covers (first ∷ rest) t (iface, addrs, a, there i, h, known, j, e) =
      In-with_interface (is_skipped filter first) first.addresses (targets filter rest) t
        (targets-of_Covers rest t (iface, addrs, a, i, h, known, j, e))
