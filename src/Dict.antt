-- ===== src/Dict.antt =====
-- Go maps (`map[K]V` in every package): an association list in the order of a `range` loop over
-- the map. Go leaves that order open: a statement about every list is one about every order.
pub mod Laws
use disco.Base.{List, [], ◌∷◌, Option, none, some, Bool, Eq, ◌≟◌, if◌then◌else◌, is_none, not, ◌≡◌}

abbrev pub Dict {ℓ κ} : Type ℓ → Type κ → Type (ℓ ⊔ κ)
Dict K V = List (K × V)

module _ {ℓ κ} {K : Type ℓ} {V : Type κ} where
  -- The values, in the order of a `range` loop.
  unfoldable pub values : Dict K V → List V
  values [] = []
  values ((k, v) ∷ m) = v ∷ values m

  -- A `range` loop that deletes the entries for which the test fails.
  unfoldable pub keep : (K → V → Bool) → Dict K V → Dict K V
  keep p [] = []
  keep p ((k, v) ∷ m) = if p k v then (k, v) ∷ keep p m else keep p m

  -- A `range` loop that changes the value of each entry.
  unfoldable pub update_all : (V → V) → Dict K V → Dict K V
  update_all f [] = []
  update_all f ((k, v) ∷ m) = (k, f v) ∷ update_all f m

module _ {ℓ κ} {K : Type ℓ} {V : Type κ} ⦃e : Eq K⦄ where
  -- `v, ok := m[k]`
  unfoldable pub lookup : K → Dict K V → Option V
  lookup k [] = none
  lookup k ((j, v) ∷ m) = if j ≟ k then some v else lookup k m

  -- `m[k] = v`
  unfoldable pub insert : K → V → Dict K V → Dict K V
  insert k v [] = (k, v) ∷ []
  insert k v ((j, w) ∷ m) = if j ≟ k then (k, v) ∷ m else (j, w) ∷ insert k v m

  -- `delete(m, k)`
  unfoldable pub delete : K → Dict K V → Dict K V
  delete k [] = []
  delete k ((j, w) ∷ m) = if j ≟ k then delete k m else (j, w) ∷ delete k m

  -- `_, ok := m[k]`
  abbrev pub has_key : K → Dict K V → Bool
  has_key k m = not (is_none (lookup k m))

  -- No key stands twice: what a Go map gives.
  abbrev pub IsUnique : Dict K V → Type ℓ
  IsUnique [] = Unit
  IsUnique ((k, v) ∷ m) = (has_key k m ≡ Bool.false) × IsUnique m
