-- ===== src/Base/Lists.antt =====
-- Lists measured by native numbers, membership by recursion, and the loops the code writes.
use Prim.Native.Nat.{ℕ, zero, suc, ◌+◌, ◌≤◌}
use mathlib.Core.Path.{◌≡◌, refl, subst, sym}
use mathlib.Core.Logic.{◌⊎◌, inl, inr}
use mathlib.Core.Bool.{Bool, true, false, ◌||◌, ◌&&◌}
use mathlib.Core.List.{List, [], ◌∷◌, ◌++◌}
use mathlib.Core.Option.{Option, none, some}
use native.Mathlib.Omega.{arith}
use disco.Base.Tests.{if◌then◌else◌, Bool-cases}

module _ {ℓ} {A : Type ℓ} where
  abbrev pub length : List A → ℕ
  length [] = 0
  length (x ∷ xs) = suc (length xs)

  -- The values of the list for which the test holds, in order (`for ... if test { append }`).
  abbrev pub select : (A → Bool) → List A → List A
  select p [] = []
  select p (x ∷ xs) = if p x then x ∷ select p xs else select p xs

  abbrev pub any : (A → Bool) → List A → Bool
  any p [] = false
  any p (x ∷ xs) = p x || any p xs

  abbrev pub all : (A → Bool) → List A → Bool
  all p [] = true
  all p (x ∷ xs) = p x && all p xs

  -- The first value for which the test holds (`for ... if test { return x }`).
  abbrev pub find : (A → Bool) → List A → Option A
  find p [] = none
  find p (x ∷ xs) = if p x then some x else find p xs

  -- The value, if there is one and the test holds of it.
  abbrev pub retain : (A → Bool) → Option A → Option A
  retain p none = none
  retain p (some x) = if p x then some x else none

  -- The first value if there is one, else the second.
  abbrev pub or_else : Option A → Option A → Option A
  or_else none o = o
  or_else (some x) o = some x

  abbrev pub replicate : ℕ → A → List A
  replicate zero a = []
  replicate (suc n) a = a ∷ replicate n a

  -- Every element satisfies the predicate.
  abbrev pub All {κ} : (A → Type κ) → List A → Type κ
  All P [] = Unit
  All P (x ∷ xs) = P x × All P xs

  -- A place in the list where the element stands.
  pub data In (a : A) : List A → Type ℓ where
    here : {x : A} {xs : List A} → a ≡ x → In a (x ∷ xs)
    there : {x : A} {xs : List A} → In a xs → In a (x ∷ xs)

  pub In-append_left : (x : A) (xs ys : List A) → In x xs → In x (xs ++ ys)
  In-append_left x [] ys i = elim i [ ]
  In-append_left x (y ∷ xs) ys (here e) = here e
  In-append_left x (y ∷ xs) ys (there i) = there (In-append_left x xs ys i)

  pub In-append_right : (x : A) (xs ys : List A) → In x ys → In x (xs ++ ys)
  In-append_right x [] ys i = i
  In-append_right x (y ∷ xs) ys i = there (In-append_right x xs ys i)

  pub In-append-cases : (x : A) (xs ys : List A) → In x (xs ++ ys) → In x xs ⊎ In x ys
  In-append-cases x [] ys i = inr i
  In-append-cases x (y ∷ xs) ys (here e) = inl (here e)
  In-append-cases x (y ∷ xs) ys (there i) = elim (In-append-cases x xs ys i) [
    | inl j ↦ inl (there j)
    | inr j ↦ inr j
  ]

  pub length-append : (xs ys : List A) → length (xs ++ ys) ≡ length xs + length ys
  length-append [] ys = omega arith
  length-append (x ∷ xs) ys = omega (arith, length-append xs ys)

  pub length-select-le : (p : A → Bool) (xs : List A) → length (select p xs) ≤ length xs
  length-select-le p [] = omega arith
  length-select-le p (x ∷ xs) = ground (arith, length-select-le p xs)

module _ {ℓ} {A : Type ℓ} (p : A → Bool) where
  -- What `find` returns stands in the list and passes the test.
  pub find-In : (xs : List A) {x : A} → find p xs ≡ some x → In x xs × (p x ≡ true)
  find-In [] h = absurd (ground arith)
  find-In (y ∷ ys) {x} h = elim (Bool-cases (p y)) [
    | inl e ↦ let same : x ≡ y = ground arith in (here same, subst (λ a. p a ≡ true) (sym same) e)
    | inr e ↦ let (place, passes) = find-In ys (ground arith) in (there place, passes)
  ]

  -- If something in the list passes the test, `find` returns something.
  pub In-find : (xs : List A) {x : A} → In x xs → p x ≡ true → (y : A) × (find p xs ≡ some y)
  In-find [] i h = elim i [ ]
  In-find (y ∷ ys) (here e) h = (y, rw (subst (λ a. p a ≡ true) e h))
  In-find (y ∷ ys) (there i) h = elim (Bool-cases (p y)) [
    | inl e ↦ (y, rw e)
    | inr e ↦ let (z, found) = In-find ys i h in (z, rw (e, found))
  ]

  In-of_In-cons :
      (y : A) (ys : List A) {x : A}
      → (In x (select p ys) → In x ys × (p x ≡ true))
      → (b : Bool) → p y ≡ b
      → In x (if b then y ∷ select p ys else select p ys)
      → In x (y ∷ ys) × (p x ≡ true)
  In-of_In-cons y ys rest false e i = let (place, passes) = rest i in (there place, passes)
  In-of_In-cons y ys rest true e (here same) = (here same, subst (λ a. p a ≡ true) (sym same) e)
  In-of_In-cons y ys rest true e (there i) = let (place, passes) = rest i in (there place, passes)

  -- What is selected stands in the list and passes the test.
  pub In-of_In-select : (xs : List A) {x : A} → In x (select p xs) → In x xs × (p x ≡ true)
  In-of_In-select [] i = elim i [ ]
  In-of_In-select (y ∷ ys) {x} i = In-of_In-cons y ys (In-of_In-select ys {x = x}) (p y) refl i

  pub In-select : (xs : List A) {x : A} → In x xs → p x ≡ true → In x (select p xs)
  In-select [] i h = elim i [ ]
  In-select (y ∷ ys) (here e) h = rw (subst (λ a. p a ≡ true) e h) (here e)
  In-select (y ∷ ys) (there i) h = elim (Bool-cases (p y)) [
    | inl e ↦ rw e (there (In-select ys i h))
    | inr e ↦ rw e (In-select ys i h)
  ]
