-- ===== src/Timesync/Agreement.antt =====
-- What findAgreeingSubset finds.
use disco.Base.{
  ℤ, pos, ◌≤◌, ◌-◌, Bool, true, false, ◌&&◌, List, [], ◌∷◌, ◌≡◌, refl, arith, ltb, leb_ℤ, ◌-ℤ◌,
  ◌+ℤ◌, wrap64, wrap64_id, select, length, All, if◌then◌else◌, ◌≤ℤ◌, -ℤ_parts, +ℤ_parts, int_laws,
  ◌^◌, Bool-cases, inl, inr, leb_ℤ→le, ltb→lt, ltb-false→le,
}
use disco.Clock.{Duration}
use disco.Timesync.Floats.{Floats}
use disco.Timesync.Sources.{TimeSource}
use disco.Timesync.Selection.{agreeing_from, best_subset, find_agreeing_subset}

-- A timestamp that is a positive int64, as those after 1970 are: differences cannot overflow.
abbrev pub InRange : ℤ → Type 0
InRange t = (pos 0 ≤ℤ t) × (t ≤ℤ pos (2 ^ 63 - 1))

pub difference_fits : (a b : ℤ) → InRange a → InRange b → wrap64 (a -ℤ b) ≡ a -ℤ b
difference_fits a b h k = wrap64_id _ (omega int_laws) (omega int_laws)

later_out : (late t edge : ℤ) → leb_ℤ late edge ≡ false → late ≤ℤ t → leb_ℤ t edge ≡ false
later_out late t edge h k = ground arith

far_out :
    (t base from tol : ℤ)
    → leb_ℤ (t -ℤ base) tol ≡ false
    → from ≤ℤ base
    → leb_ℤ t (from +ℤ tol) ≡ false
far_out t base from tol h k = ground (arith, -ℤ_parts t base, +ℤ_parts from tol)

near_in : (t base tol : ℤ) → leb_ℤ (t -ℤ base) tol ≡ true → t ≤ℤ base +ℤ tol
near_in t base tol h = ground (arith, -ℤ_parts t base, +ℤ_parts base tol)

module _ (fl : Floats) where
  abbrev pub AllInRange : List (TimeSource fl) → Type 0
  AllInRange = All (λ s. InRange s.timestamp)

  -- In order of time.
  abbrev pub Sorted : List (TimeSource fl) → Type 0
  Sorted [] = Unit
  Sorted (s ∷ rest) = All (λ x. s.timestamp ≤ℤ x.timestamp) rest × Sorted rest

  -- The source lies in the window of the given length from the given time.
  abbrev pub in_window : ℤ → Duration → TimeSource fl → Bool
  in_window from size x = leb_ℤ from x.timestamp && leb_ℤ x.timestamp (from +ℤ size)

  best_subset-ge :
      (tol : Duration) (best xs : List (TimeSource fl))
      → length best ≤ length (best_subset fl tol best xs)
  unfolding best_subset
  best_subset-ge tol best [] = omega arith
  best_subset-ge tol best (s ∷ rest) =
      let subset = agreeing_from fl s.timestamp tol (s ∷ rest) in
      elim (Bool-cases (ltb (length best) (length subset))) [
        | inl larger ↦ rw larger (omega (arith, ltb→lt _ _ larger, best_subset-ge tol subset rest))
        | inr not_larger ↦ rw not_larger (best_subset-ge tol best rest)
      ]

  -- The best subset is at least as large as the first source's.
  best_subset-ge_first :
      (tol : Duration) (best : List (TimeSource fl)) (s : TimeSource fl)
      (rest : List (TimeSource fl))
      → length (agreeing_from fl s.timestamp tol (s ∷ rest))
        ≤ length (best_subset fl tol best (s ∷ rest))
  unfolding best_subset
  best_subset-ge_first tol best s rest =
      let subset = agreeing_from fl s.timestamp tol (s ∷ rest) in
      elim (Bool-cases (ltb (length best) (length subset))) [
        | inl larger ↦ rw larger (best_subset-ge tol subset rest)
        | inr not_larger ↦
            rw not_larger (omega (arith, ltb-false→le _ _ not_larger, best_subset-ge tol best rest))
      ]

  -- In a sorted list nothing from a late source on is in the window.
  none_late :
      (from : ℤ) (tol : Duration) (late : ℤ) (xs : List (TimeSource fl))
      → leb_ℤ late (from +ℤ tol) ≡ false
      → All (λ x. late ≤ℤ x.timestamp) xs
      → select (in_window from tol) xs ≡ []
  none_late from tol late [] h a = refl
  none_late from tol late (x ∷ xs) h a =
      let out = later_out late x.timestamp (from +ℤ tol) h a.0 in
      ground (arith, out, none_late from tol late xs h a.1)

  window-le-agreeing :
      (from base : ℤ) (tol : Duration) (xs : List (TimeSource fl))
      → from ≤ℤ base
      → InRange base
      → AllInRange xs
      → Sorted xs
      → length (select (in_window from tol) xs) ≤ length (agreeing_from fl base tol xs)
  unfolding agreeing_from
  window-le-agreeing from base tol [] h b r s = omega arith
  window-le-agreeing from base tol (x ∷ xs) h b r s =
      let fits = difference_fits x.timestamp base r.0 b in
      elim (Bool-cases (leb_ℤ (wrap64 (x.timestamp -ℤ base)) tol)) [
        | inl near ↦ rw near (ground (arith, window-le-agreeing from base tol xs h b r.1 s.1))
        | inr far ↦
            let out = far_out x.timestamp base from tol (rw fits at far) h in
            rw far
              (rw (none_late from tol x.timestamp (x ∷ xs) out (omega arith, s.0)) (omega arith))
      ]

  best_subset_cons :
      (tol : Duration) (best : List (TimeSource fl)) (x : TimeSource fl) (xs : List (TimeSource fl))
      → best_subset fl tol best (x ∷ xs)
        ≡ best_subset fl tol
            (if ltb (length best) (length (agreeing_from fl x.timestamp tol (x ∷ xs)))
              then agreeing_from fl x.timestamp tol (x ∷ xs)
              else best)
            xs
  unfolding best_subset
  best_subset_cons tol best x xs = refl

  best_subset-window :
      (from : ℤ) (tol : Duration) (best xs : List (TimeSource fl))
      → AllInRange xs
      → Sorted xs
      → length (select (in_window from tol) xs) ≤ length (best_subset fl tol best xs)
  best_subset-window from tol best [] r s = omega arith
  best_subset-window from tol best (x ∷ xs) r s = elim (Bool-cases (leb_ℤ from x.timestamp)) [
    | inl inside ↦ omega (
      arith,
      window-le-agreeing from x.timestamp tol (x ∷ xs) (leb_ℤ→le from x.timestamp inside) r.0 r s,
      best_subset-ge_first tol best x xs,
    )
    | inr before ↦
        rw (before, best_subset_cons tol best x xs)
          (best_subset-window from tol
            (if ltb (length best) (length (agreeing_from fl x.timestamp tol (x ∷ xs)))
              then agreeing_from fl x.timestamp tol (x ∷ xs)
              else best)
            xs r.1 s.1)
  ]

  -- The subset that findAgreeingSubset finds among sources in order of time is at least as large
  -- as the number of sources in any window of the length of the tolerance.
  pub find_agreeing_subset-ge :
      (from : ℤ) (tol : Duration) (xs : List (TimeSource fl))
      → AllInRange xs
      → Sorted xs
      → length (select (in_window from tol) xs) ≤ length (find_agreeing_subset fl xs tol)
  unfolding find_agreeing_subset
  find_agreeing_subset-ge from tol xs r s = best_subset-window from tol [] xs r s

  -- The sources lie within the given length after some time.
  abbrev pub Within : Duration → List (TimeSource fl) → Type 0
  Within size xs = (lo : ℤ) × All (λ x. (lo ≤ℤ x.timestamp) × (x.timestamp ≤ℤ lo +ℤ size)) xs

  agreeing_from-Within :
      (base : ℤ) (tol : Duration) (xs : List (TimeSource fl))
      → InRange base
      → AllInRange xs
      → All (λ x. base ≤ℤ x.timestamp) xs
      → All
          (λ x. (base ≤ℤ x.timestamp) × (x.timestamp ≤ℤ base +ℤ tol))
          (agreeing_from fl base tol xs)
  unfolding agreeing_from
  agreeing_from-Within base tol [] b r a = tt
  agreeing_from-Within base tol (x ∷ xs) b r a =
      let fits = difference_fits x.timestamp base r.0 b in
      elim (Bool-cases (leb_ℤ (wrap64 (x.timestamp -ℤ base)) tol)) [
        | inl near ↦ rw near (
          (a.0, near_in x.timestamp base tol (rw fits at near)),
          agreeing_from-Within base tol xs b r.1 a.1,
        )
        | inr far ↦ rw far tt
      ]

  best_subset-Within :
      (tol : Duration) (best xs : List (TimeSource fl))
      → pos 0 ≤ℤ tol
      → AllInRange xs
      → Sorted xs
      → Within tol best
      → Within tol (best_subset fl tol best xs)
  unfolding best_subset
  best_subset-Within tol best [] t r s w = w
  best_subset-Within tol best (x ∷ xs) t r s w =
      let subset = agreeing_from fl x.timestamp tol (x ∷ xs) in
      elim (Bool-cases (ltb (length best) (length subset))) [
        | inl larger ↦ rw larger (
            best_subset-Within tol subset xs t r.1 s.1
              (x.timestamp, agreeing_from-Within x.timestamp tol (x ∷ xs) r.0 r (omega arith, s.0)))
        | inr not_larger ↦ rw not_larger (best_subset-Within tol best xs t r.1 s.1 w)
      ]

  -- The subset that findAgreeingSubset finds lies within the tolerance.
  pub find_agreeing_subset-Within :
      (tol : Duration) (xs : List (TimeSource fl))
      → pos 0 ≤ℤ tol
      → AllInRange xs
      → Sorted xs
      → Within tol (find_agreeing_subset fl xs tol)
  unfolding find_agreeing_subset
  find_agreeing_subset-Within tol xs t r s = best_subset-Within tol [] xs t r s (pos 0, tt)

  agreeing_from-All {κ} :
      (P : TimeSource fl → Type κ) (base : ℤ) (tol : Duration) (xs : List (TimeSource fl))
      → All P xs
      → All P (agreeing_from fl base tol xs)
  unfolding agreeing_from
  agreeing_from-All P base tol [] a = tt
  agreeing_from-All P base tol (x ∷ xs) a =
      elim (Bool-cases (leb_ℤ (wrap64 (x.timestamp -ℤ base)) tol)) [
        | inl near ↦ rw near (a.0, agreeing_from-All P base tol xs a.1)
        | inr far ↦ rw far tt
      ]

  best_subset-All {κ} :
      (P : TimeSource fl → Type κ) (tol : Duration) (best xs : List (TimeSource fl))
      → All P xs
      → All P best
      → All P (best_subset fl tol best xs)
  unfolding best_subset
  best_subset-All P tol best [] a b = b
  best_subset-All P tol best (x ∷ xs) a b =
      let subset = agreeing_from fl x.timestamp tol (x ∷ xs) in
      elim (Bool-cases (ltb (length best) (length subset))) [
        | inl larger ↦
            rw larger
              (best_subset-All P tol subset xs a.1 (agreeing_from-All P x.timestamp tol (x ∷ xs) a))
        | inr not_larger ↦ rw not_larger (best_subset-All P tol best xs a.1 b)
      ]

  pub find_agreeing_subset-All {κ} :
      (P : TimeSource fl → Type κ) (tol : Duration) (xs : List (TimeSource fl))
      → All P xs
      → All P (find_agreeing_subset fl xs tol)
  unfolding find_agreeing_subset
  find_agreeing_subset-All P tol xs a = best_subset-All P tol [] xs a tt
