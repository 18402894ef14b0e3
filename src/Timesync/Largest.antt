-- ===== src/Timesync/Largest.antt =====
-- What findAgreeingSubset finds among the sorted sources (internal/timesync/selection.go).
use disco.Base.{
  ℤ, pos, Bool, List, [], ◌∷◌, ◌≡◌, refl, arith, leb_ℤ, select, length, ◌≤◌, ◌≤ℤ◌, subst,
  Bool-cases, inl, inr,
}
use disco.Clock.{Duration}
use disco.Timesync.Agreement.{
  AllInRange, InRange, in_window, Within, find_agreeing_subset-ge, find_agreeing_subset-Within,
}
use disco.Timesync.Floats.{Floats}
use disco.Timesync.Parts.{
  IsPart, IsPart-none, IsPart-refl, IsPart-Perm, IsPart-trans, best_subset-IsPart, sort-Perm,
}
use disco.Timesync.Selection.{insert_sorted, sort, find_agreeing_subset}
use disco.Timesync.Sorting.{sort-All, sort-Sorted}
use disco.Timesync.Sources.{TimeSource}

module _ (fl : Floats) where
  length-select-insert_sorted :
      (p : TimeSource fl → Bool) (s : TimeSource fl) (xs : List (TimeSource fl))
      → length (select p (insert_sorted fl s xs)) ≡ length (select p (s ∷ xs))
  unfolding insert_sorted
  length-select-insert_sorted p s [] = refl
  length-select-insert_sorted p s (x ∷ xs) = elim (Bool-cases (leb_ℤ s.timestamp x.timestamp)) [
    | inl e ↦ rw e refl
    | inr e ↦ rw e (ground (arith, length-select-insert_sorted p s xs))
  ]

  length-select-sort :
      (p : TimeSource fl → Bool) (xs : List (TimeSource fl))
      → length (select p (sort fl xs)) ≡ length (select p xs)
  unfolding sort
  length-select-sort p [] = refl
  length-select-sort p (x ∷ xs) =
      ground (arith, length-select-insert_sorted p x (sort fl xs), length-select-sort p xs)

  -- Among the sources in order of time, findAgreeingSubset finds a largest group that agrees: some of
  -- the sources, none counted twice, that lie within the tolerance of each other, and no window of the
  -- length of the tolerance has more of the sources, if the tolerance is not negative and the
  -- timestamps are int64 numbers that are not negative.
  pub find_agreeing_subset-largest :
      (tol : Duration) (xs : List (TimeSource fl))
      → pos 0 ≤ℤ tol
      → AllInRange fl xs
      → IsPart (find_agreeing_subset fl (sort fl xs) tol) xs
        × Within fl tol (find_agreeing_subset fl (sort fl xs) tol)
        × ((from : ℤ)
            → length (select (in_window fl from tol) xs)
              ≤ length (find_agreeing_subset fl (sort fl xs) tol))
  unfolding find_agreeing_subset
  find_agreeing_subset-largest tol xs t r =
      let sorted = sort fl xs in
      let ranged = sort-All fl (λ s. InRange s.timestamp) xs r in
      (
        IsPart-trans _ sorted xs
            (best_subset-IsPart fl tol [] sorted sorted (IsPart-none sorted) (IsPart-refl sorted))
            (IsPart-Perm sorted xs (sort-Perm fl xs)),
        find_agreeing_subset-Within fl tol sorted t ranged (sort-Sorted fl xs),
        λ from.
            subst (λ n. n ≤ length (find_agreeing_subset fl sorted tol))
              (length-select-sort (in_window fl from tol) xs)
              (find_agreeing_subset-ge fl from tol sorted ranged (sort-Sorted fl xs)),
      )
