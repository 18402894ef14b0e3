-- ===== src/Dict/Laws.antt =====
-- The laws of the map operations.
use mathlib.Core.Option
use disco.Base.{
  [], ◌∷◌, none, some, Bool, true, false, Eq, ◌≟◌, if◌then◌else◌, ◌≡◌, refl, arith, retain, In,
  here, or_else, subst, is_none, not, Option, there, Bool-cases, inl, inr, ap, sym, beq_refl,
}
use disco.Dict.{Dict, values, keep, update_all, lookup, insert, delete, has_key, IsUnique}

module _ {ℓ κ} {K : Type ℓ} {V : Type κ} ⦃e : Eq K⦄ where
  pub lookup-insert :
      (k j : K) (v : V) (m : Dict K V)
      → lookup j (insert k v m) ≡ (if k ≟ j then some v else lookup j m)
  unfolding lookup insert
  lookup-insert k j v [] = refl
  lookup-insert k j v ((i, w) ∷ m) =
      ground (arith, e.beq_iff k j, e.beq_iff i k, e.beq_iff i j, lookup-insert k j v m)

  pub lookup-delete :
      (k j : K) (m : Dict K V) → lookup j (delete k m) ≡ (if k ≟ j then none else lookup j m)
  unfolding lookup delete
  lookup-delete k j [] = ground arith
  lookup-delete k j ((i, w) ∷ m) =
      ground (arith, e.beq_iff k j, e.beq_iff i k, e.beq_iff i j, lookup-delete k j m)

  pub lookup-update_all :
      (f : V → V) (k : K) (m : Dict K V) → lookup k (update_all f m) ≡ Option.map f (lookup k m)
  unfolding lookup update_all
  lookup-update_all f k [] = refl
  lookup-update_all f k ((i, w) ∷ m) = ground (arith, lookup-update_all f k m)

  has_key-keep-false :
      (p : K → V → Bool) (k : K) (m : Dict K V) → has_key k m ≡ false → has_key k (keep p m) ≡ false
  unfolding lookup keep
  has_key-keep-false p k [] h = refl
  has_key-keep-false p k ((i, w) ∷ m) h = ground (arith, has_key-keep-false p k m)

  pub lookup-keep :
      (p : K → V → Bool) (k : K) (m : Dict K V)
      → IsUnique m
      → lookup k (keep p m) ≡ retain (p k) (lookup k m)
  unfolding lookup keep
  lookup-keep p k [] u = refl
  lookup-keep p k ((i, w) ∷ m) u =
      ground (arith, e.beq_iff i k, lookup-keep p k m, has_key-keep-false p k m)

  pub keep-IsUnique : (p : K → V → Bool) (m : Dict K V) → IsUnique m → IsUnique (keep p m)
  unfolding keep
  keep-IsUnique p [] u = tt
  keep-IsUnique p ((i, w) ∷ m) u = ground (arith, keep-IsUnique p m, has_key-keep-false p i m)

  pub insert-IsUnique : (k : K) (v : V) (m : Dict K V) → IsUnique m → IsUnique (insert k v m)
  unfolding lookup insert
  insert-IsUnique k v [] u = (refl, tt)
  insert-IsUnique k v ((i, w) ∷ m) u =
      ground (arith, e.beq_iff i k, insert-IsUnique k v m, lookup-insert k i v m, e.beq_iff k i)

  pub delete-IsUnique : (k : K) (m : Dict K V) → IsUnique m → IsUnique (delete k m)
  unfolding lookup delete
  delete-IsUnique k [] u = tt
  delete-IsUnique k ((i, w) ∷ m) u =
      ground (arith, e.beq_iff i k, delete-IsUnique k m, lookup-delete k i m, e.beq_iff k i)

  pub update_all-IsUnique : (f : V → V) (m : Dict K V) → IsUnique m → IsUnique (update_all f m)
  unfolding lookup update_all
  update_all-IsUnique f [] u = tt
  update_all-IsUnique f ((i, w) ∷ m) u =
      ground (arith, update_all-IsUnique f m, lookup-update_all f i m)

  -- What a lookup finds is met by a loop over the map, and what the loop meets is found.
  pub In-lookup : (k : K) (v : V) (m : Dict K V) → lookup k m ≡ some v → In v (values m)
  unfolding lookup values
  In-lookup k v [] h = absurd (ground arith)
  In-lookup k v ((i, w) ∷ m) h = elim (Bool-cases (i ≟ k)) [
    | inl same ↦ here (ground arith)
    | inr other ↦ there (In-lookup k v m (ground arith))
  ]

  In-has_key : (k : K) (v : V) (m : Dict K V) → In (k, v) m → has_key k m ≡ true
  unfolding lookup
  In-has_key k v [] p = elim p [ ]
  In-has_key k v ((i, w) ∷ m) (here p) =
      let same : i ≡ k = ap (λ q. q.0) (sym p) in rw (same, beq_refl k)
  In-has_key k v ((i, w) ∷ m) (there t) = ground (arith, In-has_key k v m t)

  pub lookup-In : (k : K) (v : V) (m : Dict K V) → IsUnique m → In (k, v) m → lookup k m ≡ some v
  unfolding lookup
  lookup-In k v [] u p = elim p [ ]
  lookup-In k v ((i, w) ∷ m) u (here p) =
      let same : i ≡ k = ap (λ q. q.0) (sym p) in
      let held : w ≡ v = ap (λ q. q.1) (sym p) in rw (same, held, beq_refl k)
  lookup-In k v ((i, w) ∷ m) u (there t) =
      ground (arith, e.beq_iff i k, In-has_key k v m t, lookup-In k v m u.1 t)

  pub In-values : (v : V) (m : Dict K V) → In v (values m) → (k : K) × In (k, v) m
  unfolding values
  In-values v [] p = elim p [ ]
  In-values v ((i, w) ∷ m) (here p) = (i, here (ap (λ x. (i, x)) p))
  In-values v ((i, w) ∷ m) (there t) = let (k, q) = In-values v m t in (k, there q)

none_of_has_key {ℓ} : {A : Type ℓ} (o : Option A) → not (is_none o) ≡ false → o ≡ none
none_of_has_key none h = refl
none_of_has_key (some a) h = cc

-- One round of a loop that inserts the entries of a map with distinct keys, each value changed
-- by `f`.
pub lookup-insert_step {ℓ κ μ} :
    {K : Type ℓ} ⦃e : Eq K⦄ {A : Type κ} {B : Type μ} (f : K → A → B) (k host : K) (a : A)
    (rest : Dict K A) (m : Dict K B)
    → has_key host rest ≡ false
    → or_else (Option.map (f k) (lookup k rest)) (lookup k (insert host (f host a) m))
      ≡ or_else (Option.map (f k) (lookup k ((host, a) ∷ rest))) (lookup k m)
unfolding lookup
lookup-insert_step ⦃e⦄ f k host a rest m u = elim (Bool-cases (host ≟ k)) [
  | inl same ↦
      let eq : host ≡ k = (e.beq_iff host k).0 same in
      let absent : lookup k rest ≡ none =
        none_of_has_key _ (subst (λ x. has_key x rest ≡ false) eq u) in
      rw (lookup-insert, same, absent) (rw eq)
  | inr other ↦ rw (lookup-insert, other)
]

pub map_or_none {ℓ} : {A : Type ℓ} (o : Option A) → or_else (Option.map (λ a. a) o) none ≡ o
map_or_none none = refl
map_or_none (some a) = refl

pub or_none {ℓ} : {A : Type ℓ} (o : Option A) → or_else o none ≡ o
or_none none = refl
or_none (some a) = refl
