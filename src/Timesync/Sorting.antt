-- ===== src/Timesync/Sorting.antt =====
-- The sort of SelectBestTime (internal/timesync/selection.go).
use disco.Base.{
  Bool, true, List, [], ◌∷◌, ◌≡◌, refl, arith, leb_ℤ, select, length, All, ◌≤ℤ◌, Bool-cases, inl,
  inr, suc, leb_ℤ→le,
}
use disco.Timesync.Agreement.{Sorted}
use disco.Timesync.Floats.{Floats}
use disco.Timesync.Sources.{TimeSource}
use disco.Timesync.Selection.{insert_sorted, sort}

module _ (fl : Floats) where
  insert_sorted-All {κ} :
      (P : TimeSource fl → Type κ) (s : TimeSource fl) (xs : List (TimeSource fl))
      → P s
      → All P xs
      → All P (insert_sorted fl s xs)
  unfolding insert_sorted
  insert_sorted-All P s [] p ps = (p, tt)
  insert_sorted-All P s (x ∷ xs) p ps = elim (Bool-cases (leb_ℤ s.timestamp x.timestamp)) [
    | inl e ↦ rw e (p, ps)
    | inr e ↦ rw e (ps.0, insert_sorted-All P s xs p ps.1)
  ]

  pub sort-All {κ} :
      (P : TimeSource fl → Type κ) (xs : List (TimeSource fl)) → All P xs → All P (sort fl xs)
  unfolding sort
  sort-All P [] ps = tt
  sort-All P (x ∷ xs) ps = insert_sorted-All P x (sort fl xs) ps.0 (sort-All P xs ps.1)

  All-later :
      (s x : TimeSource fl) (xs : List (TimeSource fl))
      → s.timestamp ≤ℤ x.timestamp
      → All (λ y. x.timestamp ≤ℤ y.timestamp) xs
      → All (λ y. s.timestamp ≤ℤ y.timestamp) xs
  All-later s x [] h a = tt
  All-later s x (y ∷ ys) h a = (omega (arith, a.0), All-later s x ys h a.1)

  insert_sorted-Sorted :
      (s : TimeSource fl) (xs : List (TimeSource fl))
      → Sorted fl xs
      → Sorted fl (insert_sorted fl s xs)
  unfolding insert_sorted
  insert_sorted-Sorted s [] h = (tt, tt)
  insert_sorted-Sorted s (x ∷ xs) h = elim (Bool-cases (leb_ℤ s.timestamp x.timestamp)) [
    | inl e ↦ let le = leb_ℤ→le s.timestamp x.timestamp e in rw e ((le, All-later s x xs le h.0), h)
    | inr e ↦ rw e (
      insert_sorted-All (λ y. x.timestamp ≤ℤ y.timestamp) s xs (ground (arith, e)) h.0,
      insert_sorted-Sorted s xs h.1,
    )
  ]

  -- The sources are put in the order of their timestamps.
  pub sort-Sorted : (xs : List (TimeSource fl)) → Sorted fl (sort fl xs)
  unfolding sort
  sort-Sorted [] = tt
  sort-Sorted (x ∷ xs) = insert_sorted-Sorted x (sort fl xs) (sort-Sorted xs)

  length-insert_sorted :
      (s : TimeSource fl) (xs : List (TimeSource fl))
      → length (insert_sorted fl s xs) ≡ suc (length xs)
  unfolding insert_sorted
  length-insert_sorted s [] = refl
  length-insert_sorted s (x ∷ xs) = ground (arith, length-insert_sorted s xs)

  pub length-sort : (xs : List (TimeSource fl)) → length (sort fl xs) ≡ length xs
  unfolding sort
  length-sort [] = refl
  length-sort (x ∷ xs) = omega (arith, length-insert_sorted x (sort fl xs), length-sort xs)

  pub select-All {κ} :
      (P : TimeSource fl → Type κ) (p : TimeSource fl → Bool) (xs : List (TimeSource fl))
      → All P xs
      → All (λ x. P x × (p x ≡ true)) (select p xs)
  select-All P p [] a = tt
  select-All P p (x ∷ xs) a = elim (Bool-cases (p x)) [
    | inl e ↦ rw e ((a.0, e), select-All P p xs a.1)
    | inr e ↦ rw e (select-All P p xs a.1)
  ]
