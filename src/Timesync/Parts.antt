-- ===== src/Timesync/Parts.antt =====
-- internal/timesync/selection.go: no source is counted twice in what the time is computed from.
use mathlib.Core.List.{Perm, perm_middle, append_assoc}
use mathlib.Core.List.Perm
use disco.Base.{
  ℤ, List, [], ◌∷◌, ◌++◌, Bool, subst, leb_ℤ, ltb, ltb_ℤ, select, length, wrap64, ◌-ℤ◌, Bool-cases,
  inl, inr,
}
use disco.Clock.{Duration}
use disco.Timesync.Floats.{Floats}
use disco.Timesync.Sources.{TimeSource}
use disco.Timesync.Selection.{
  Outcome, chosen, refused, panicked, is_usable, insert_sorted, sort, agreeing_from, best_subset,
  find_agreeing_subset, too_few, close_enough, chosen_sources, half, last_timestamp,
}

-- The list is a part of the other, up to the order: each element stands in it at most as often.
abbrev pub IsPart {ℓ} : {A : Type ℓ} → List A → List A → Type ℓ
IsPart {A = A} xs ys = (rest : List A) × Perm (xs ++ rest) ys

IsPart-keep {ℓ} : {A : Type ℓ} (x : A) (xs ys : List A) → IsPart xs ys → IsPart (x ∷ xs) (x ∷ ys)
IsPart-keep x xs ys (rest, p) = (rest, Perm.cons x p)

IsPart-skip {ℓ} : {A : Type ℓ} (y : A) (xs ys : List A) → IsPart xs ys → IsPart xs (y ∷ ys)
IsPart-skip y xs ys (rest, p) = (y ∷ rest, Perm.trans (perm_middle xs rest) (Perm.cons y p))

pub IsPart-refl {ℓ} : {A : Type ℓ} (xs : List A) → IsPart xs xs
IsPart-refl [] = ([], Perm.refl [])
IsPart-refl (x ∷ xs) = IsPart-keep x xs xs (IsPart-refl xs)

pub IsPart-none {ℓ} : {A : Type ℓ} (xs : List A) → IsPart [] xs
IsPart-none xs = (xs, Perm.refl xs)

pub IsPart-trans {ℓ} : {A : Type ℓ} (xs ys zs : List A) → IsPart xs ys → IsPart ys zs → IsPart xs zs
IsPart-trans xs ys zs (r, p) (r', q) =
    (r ++ r', subst (λ l. Perm l zs) (append_assoc xs r r') (Perm.trans (Perm.append_right r' p) q))

pub IsPart-Perm {ℓ} : {A : Type ℓ} (xs ys : List A) → Perm xs ys → IsPart xs ys
IsPart-Perm xs ys p = let (rest, q) = IsPart-refl xs in (rest, Perm.trans q p)

module _ (fl : Floats) where
  insert_sorted-Perm :
      (s : TimeSource fl) (xs : List (TimeSource fl)) → Perm (insert_sorted fl s xs) (s ∷ xs)
  unfolding insert_sorted
  insert_sorted-Perm s [] = Perm.refl (s ∷ [])
  insert_sorted-Perm s (x ∷ xs) = elim (Bool-cases (leb_ℤ s.timestamp x.timestamp)) [
    | inl e ↦ rw e (Perm.refl (s ∷ x ∷ xs))
    | inr e ↦ rw e (Perm.trans (Perm.cons x (insert_sorted-Perm s xs)) (Perm.swap s x xs))
  ]

  pub sort-Perm : (xs : List (TimeSource fl)) → Perm (sort fl xs) xs
  unfolding sort
  sort-Perm [] = Perm.refl []
  sort-Perm (x ∷ xs) = Perm.trans (insert_sorted-Perm x (sort fl xs)) (Perm.cons x (sort-Perm xs))

  pub select-IsPart :
      (p : TimeSource fl → Bool) (xs : List (TimeSource fl)) → IsPart (select p xs) xs
  select-IsPart p [] = IsPart-refl []
  select-IsPart p (x ∷ xs) = elim (Bool-cases (p x)) [
    | inl e ↦ rw e (IsPart-keep x (select p xs) xs (select-IsPart p xs))
    | inr e ↦ rw e (IsPart-skip x (select p xs) xs (select-IsPart p xs))
  ]

  agreeing_from-IsPart :
      (base : ℤ) (tol : Duration) (xs : List (TimeSource fl))
      → IsPart (agreeing_from fl base tol xs) xs
  unfolding agreeing_from
  agreeing_from-IsPart base tol [] = IsPart-refl []
  agreeing_from-IsPart base tol (x ∷ xs) =
      elim (Bool-cases (leb_ℤ (wrap64 (x.timestamp -ℤ base)) tol)) [
        | inl near ↦
            rw near
              (IsPart-keep x (agreeing_from fl base tol xs) xs (agreeing_from-IsPart base tol xs))
        | inr far ↦ rw far (IsPart-none (x ∷ xs))
      ]

  pub best_subset-IsPart :
      (tol : Duration) (best xs zs : List (TimeSource fl))
      → IsPart best zs
      → IsPart xs zs
      → IsPart (best_subset fl tol best xs) zs
  unfolding best_subset
  best_subset-IsPart tol best [] zs b p = b
  best_subset-IsPart tol best (x ∷ xs) zs b p =
      let subset = agreeing_from fl x.timestamp tol (x ∷ xs) in
      let below = IsPart-trans xs (x ∷ xs) zs (IsPart-skip x xs xs (IsPart-refl xs)) p in
      elim (Bool-cases (ltb (length best) (length subset))) [
        | inl larger ↦ rw larger (
            best_subset-IsPart tol subset xs zs
              (IsPart-trans subset (x ∷ xs) zs (agreeing_from-IsPart x.timestamp tol (x ∷ xs)) p)
              below)
        | inr not_larger ↦ rw not_larger (best_subset-IsPart tol best xs zs b below)
      ]

  -- What is chosen is a part of the list.
  abbrev pub ChosenPart : List (TimeSource fl) → Outcome (List (TimeSource fl)) → Type 0
  ChosenPart ys (chosen xs) = IsPart xs ys
  ChosenPart ys (refused e) = Unit
  ChosenPart ys panicked = Unit

  close_enough-ChosenPart :
      (xs : List (TimeSource fl)) (least : ℤ) (size : Duration)
      → ChosenPart xs (close_enough fl xs least size)
  unfolding close_enough find_agreeing_subset
  close_enough-ChosenPart [] least size = tt
  close_enough-ChosenPart (x ∷ xs) least size =
      let agreeing = find_agreeing_subset fl (x ∷ xs) (half size) in
      elim (Bool-cases (ltb_ℤ size (wrap64 (last_timestamp fl x xs -ℤ x.timestamp)))) [
        | inl wide ↦ elim (Bool-cases (too_few fl least agreeing)) [
          | inl few ↦ rw (wide, few) tt
          | inr enough ↦
              rw (wide, enough)
                (best_subset-IsPart (half size) [] (x ∷ xs) (x ∷ xs) (IsPart-none (x ∷ xs))
                  (IsPart-refl (x ∷ xs)))
        ]
        | inr narrow ↦ rw narrow (IsPart-refl (x ∷ xs))
      ]

  ChosenPart-wider :
      (xs ys : List (TimeSource fl)) (o : Outcome (List (TimeSource fl)))
      → IsPart xs ys
      → ChosenPart xs o
      → ChosenPart ys o
  ChosenPart-wider xs ys (chosen zs) p c = IsPart-trans zs xs ys c p
  ChosenPart-wider xs ys (refused e) p c = tt
  ChosenPart-wider xs ys panicked p c = tt

  -- The sources that the time is computed from are a part of the given ones.
  pub chosen_sources-ChosenPart :
      (sources : List (TimeSource fl)) (least : ℤ) (size : Duration)
      → ChosenPart sources (chosen_sources fl sources least size)
  unfolding chosen_sources
  chosen_sources-ChosenPart sources least size =
      let valid = select (is_usable fl) sources in
      let sorted : IsPart (sort fl valid) sources =
        IsPart-trans (sort fl valid) valid sources
          (IsPart-Perm (sort fl valid) valid (sort-Perm valid))
          (select-IsPart (is_usable fl) sources) in
      elim (Bool-cases (too_few fl least sources)) [
        | inl few ↦ rw few tt
        | inr enough ↦ elim (Bool-cases (too_few fl least valid)) [
          | inl few ↦ rw (enough, few) tt
          | inr still ↦
              rw (enough, still)
                (ChosenPart-wider (sort fl valid) sources _ sorted
                  (close_enough-ChosenPart (sort fl valid) least size))
        ]
      ]
