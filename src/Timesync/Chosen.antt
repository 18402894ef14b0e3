-- ===== src/Timesync/Chosen.antt =====
-- What SelectBestTime computes the time from.
use disco.Base.{
  ℤ, pos, true, false, List, [], ◌∷◌, ◌≡◌, refl, arith, ltb_ℤ, ◌-ℤ◌, wrap64, select, length, All,
  ◌≤ℤ◌, In, here, there, Bool-cases, inl, inr, ltb_ℤ-false→le, +ℤ_parts, -ℤ_parts, ◌+ℤ◌,
}
use disco.Clock.{Duration}
use disco.Timesync.Agreement.{
  Sorted, InRange, AllInRange, Within, find_agreeing_subset-Within, find_agreeing_subset-All,
  difference_fits,
}
use disco.Timesync.Floats.{Floats}
use disco.Timesync.Sources.{TimeSource}
use disco.Timesync.Selection.{
  Outcome, chosen, refused, panicked, is_usable, sort, find_agreeing_subset, too_few, close_enough,
  chosen_sources, half, last_timestamp,
}
use disco.Timesync.Sorting.{sort-All, sort-Sorted, length-sort, select-All}

near_last : (first last size : ℤ) → ltb_ℤ size (last -ℤ first) ≡ false → last ≤ℤ first +ℤ size
near_last first last size h = ground (arith, -ℤ_parts last first, +ℤ_parts first size)

half-le : (d : Duration) → pos 0 ≤ℤ d → half d ≤ℤ d
unfolding half
half-le d h = ground arith

half-nonneg : (d : Duration) → pos 0 ≤ℤ d → pos 0 ≤ℤ half d
unfolding half
half-nonneg d h = ground arith

module _ (fl : Floats) where
  pub All-weaken {κ μ} :
      (P : TimeSource fl → Type κ) (Q : TimeSource fl → Type μ) (xs : List (TimeSource fl))
      → ((x : TimeSource fl) → P x → Q x)
      → All P xs
      → All Q xs
  All-weaken P Q [] f a = tt
  All-weaken P Q (x ∷ xs) f a = (f x a.0, All-weaken P Q xs f a.1)

  pair_up :
      (P Q R : TimeSource fl → Type 0) (xs : List (TimeSource fl))
      → ((x : TimeSource fl) → P x → Q x → R x)
      → All P xs
      → All Q xs
      → All R xs
  pair_up P Q R [] f a b = tt
  pair_up P Q R (x ∷ xs) f a b = (f x a.0 b.0, pair_up P Q R xs f a.1 b.1)

  All-In : (xs : List (TimeSource fl)) → All (λ x. In x xs) xs
  All-In [] = tt
  All-In (x ∷ xs) =
      (here refl, All-weaken (λ y. In y xs) (λ y. In y (x ∷ xs)) xs (λ y i. there i) (All-In xs))

  last_latest :
      (s : TimeSource fl) (rest : List (TimeSource fl))
      → Sorted fl (s ∷ rest)
      → (s.timestamp ≤ℤ last_timestamp fl s rest)
        × All (λ x. x.timestamp ≤ℤ last_timestamp fl s rest) (s ∷ rest)
  unfolding last_timestamp
  last_latest s [] h = (omega arith, (omega arith, tt))
  last_latest s (x ∷ xs) h =
      let (later, all_later) = last_latest x xs h.1 in
      (omega (arith, h.0.0), (omega (arith, h.0.0), all_later))

  last-InRange :
      (s : TimeSource fl) (rest : List (TimeSource fl))
      → AllInRange fl (s ∷ rest)
      → InRange (last_timestamp fl s rest)
  unfolding last_timestamp
  last-InRange s [] r = r.0
  last-InRange s (x ∷ xs) r = last-InRange x xs r.1

  -- Enough sources, close together, with what holds of all. The panic on an empty list needs a
  -- required number of zero or less.
  abbrev pub Accepted :
      (TimeSource fl → Type 0) → ℤ → Duration → Outcome (List (TimeSource fl)) → Type 0
  Accepted P least size (chosen xs) = (least ≤ℤ pos (length xs)) × Within fl size xs × All P xs
  Accepted P least size (refused e) = Unit
  Accepted P least size panicked = least ≤ℤ pos 0

  Within-wider :
      (small big : Duration) (xs : List (TimeSource fl))
      → small ≤ℤ big
      → Within fl small xs
      → Within fl big xs
  Within-wider small big xs h w = (
    w.0,
    All-weaken _ _ xs (λ x a. (a.0, omega (arith, a.1, +ℤ_parts w.0 small, +ℤ_parts w.0 big))) w.1,
  )

  spread_small :
      (first last size : ℤ)
      → InRange first
      → InRange last
      → ltb_ℤ size (wrap64 (last -ℤ first)) ≡ false
      → last ≤ℤ first +ℤ size
  spread_small first last size f l h =
      let fits = difference_fits last first l f in near_last first last size (rw fits at h)

  both :
      (x : TimeSource fl) (xs : List (TimeSource fl)) (size : Duration)
      → Sorted fl (x ∷ xs)
      → last_timestamp fl x xs ≤ℤ x.timestamp +ℤ size
      → All (λ y. (x.timestamp ≤ℤ y.timestamp) × (y.timestamp ≤ℤ x.timestamp +ℤ size)) (x ∷ xs)
  both x xs size s h =
      let (later, all_before) = last_latest x xs s in
      pair_up (λ y. x.timestamp ≤ℤ y.timestamp) _ _ (x ∷ xs)
        (λ y after before. (after, omega (arith, before, h))) (omega arith, s.0) all_before

  pub too_few-sort :
      (least : ℤ) (xs : List (TimeSource fl))
      → too_few fl least xs ≡ false
      → too_few fl least (sort fl xs) ≡ false
  unfolding too_few
  too_few-sort least xs h = rw (length-sort fl xs) h

  close_enough-Accepted :
      (P : TimeSource fl → Type 0) (xs : List (TimeSource fl)) (least : ℤ) (size : Duration)
      → too_few fl least xs ≡ false
      → pos 0 ≤ℤ size
      → AllInRange fl xs
      → Sorted fl xs
      → All P xs
      → Accepted P least size (close_enough fl xs least size)
  unfolding close_enough too_few
  close_enough-Accepted P [] least size e t r s a = ltb_ℤ-false→le (pos 0) least e
  close_enough-Accepted P (x ∷ xs) least size e t r s a =
      let agreeing = find_agreeing_subset fl (x ∷ xs) (half size) in
      elim (Bool-cases (ltb_ℤ size (wrap64 (last_timestamp fl x xs -ℤ x.timestamp)))) [
        | inl wide ↦ elim (Bool-cases (ltb_ℤ (pos (length agreeing)) least)) [
          | inl few ↦ rw (wide, few) tt
          | inr enough ↦
              rw (wide, enough)
                (
                  ltb_ℤ-false→le (pos (length agreeing)) least enough,
                  Within-wider (half size) size agreeing (half-le size t) (
                      find_agreeing_subset-Within fl (half size) (x ∷ xs) (half-nonneg size t) r s),
                  find_agreeing_subset-All fl P (half size) (x ∷ xs) a,
                )
        ]
        | inr narrow ↦ rw narrow (
          ltb_ℤ-false→le (pos (length (x ∷ xs))) least e,
          (
            x.timestamp,
            both x xs size s (spread_small x.timestamp _ size r.0 (last-InRange x xs r) narrow),
          ),
          a,
        )
      ]

  -- SelectBestTime computes the time from no fewer than the required number of the given sources,
  -- all of them with stratum at most 15 and root dispersion not over 1.0, and all of them within
  -- the allowed spread of each other, if the spread is not negative and the timestamps are int64
  -- numbers that are not negative. It can panic only if the required number is zero or less.
  pub chosen_sources-Accepted :
      (sources : List (TimeSource fl)) (least : ℤ) (size : Duration)
      → pos 0 ≤ℤ size
      → AllInRange fl sources
      → Accepted
          (λ x. In x sources × (is_usable fl x ≡ true))
          least
          size
          (chosen_sources fl sources least size)
  unfolding chosen_sources
  chosen_sources-Accepted sources least size t r =
      let valid = select (is_usable fl) sources in
      elim (Bool-cases (too_few fl least sources)) [
        | inl few ↦ rw few tt
        | inr enough ↦ elim (Bool-cases (too_few fl least valid)) [
          | inl few ↦ rw (enough, few) tt
          | inr still ↦
              rw (enough, still)
                (close_enough-Accepted _ (sort fl valid) least size (too_few-sort least valid still)
                  t
                  (sort-All fl _ valid
                    (All-weaken _ _ valid (λ x a. a.0) (select-All fl _ (is_usable fl) sources r)))
                  (sort-Sorted fl valid)
                  (sort-All fl _ valid (select-All fl _ (is_usable fl) sources (All-In sources))))
        ]
      ]
