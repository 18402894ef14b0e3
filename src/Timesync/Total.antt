-- ===== src/Timesync/Total.antt =====
-- When the choice of a time cannot panic.
use disco.Base.{
  ℤ, pos, false, List, [], ◌∷◌, none, ◌≡◌, ◌≢◌, refl, arith, ◌≤ℤ◌, Bool, Bool-cases, Option-cases,
  inl, inr, select, ltb_ℤ-false→le,
}
use disco.Clock.{Time, Duration}
use disco.Timesync.Floats.{Floats}
use disco.Timesync.Sources.{TimeSource, get_valid_sources}
use disco.Timesync.Selection.{
  Outcome, chosen, refused, panicked, too_few, chosen_sources, close_enough, select_best_time,
  is_usable, sort, TimeUpdate,
}
use disco.Timesync.Chosen.{too_few-sort}
use disco.Timesync.Service.{
  System, TimeSyncService, force_update, evaluate_and_adjust, adjusted, forced_config,
}

module _ (fl : Floats) where
  close_enough-total :
      (xs : List (TimeSource fl)) (least : ℤ) (size : Duration)
      → pos 1 ≤ℤ least
      → too_few fl least xs ≡ false
      → close_enough fl xs least size ≢ panicked
  unfolding close_enough too_few
  close_enough-total [] least size h e p = absurd (ground (arith, ltb_ℤ-false→le (pos 0) least e))
  close_enough-total (x ∷ xs) least size h e p = absurd (ground arith)

  chosen_sources-total :
      (xs : List (TimeSource fl)) (least : ℤ) (size : Duration)
      → pos 1 ≤ℤ least
      → chosen_sources fl xs least size ≢ panicked
  unfolding chosen_sources
  chosen_sources-total xs least size h p = elim (Bool-cases (too_few fl least xs)) [
    | inl few ↦ absurd (ground arith)
    | inr enough ↦ elim (Bool-cases (too_few fl least (select (is_usable fl) xs))) [
      | inl few ↦ absurd (ground arith)
      | inr still ↦
          close_enough-total (sort fl (select (is_usable fl) xs)) least size h
            (too_few-sort fl least (select (is_usable fl) xs) still) (ground arith)
    ]
  ]

  select_best_time-total :
      (now : Time) (xs : List (TimeSource fl)) (least : ℤ) (size : Duration)
      → pos 1 ≤ℤ least
      → select_best_time fl now xs least size ≢ panicked
  unfolding select_best_time
  select_best_time-total now xs least size h p = go (chosen_sources fl xs least size) refl
    where
      go : (o : Outcome (List (TimeSource fl))) → chosen_sources fl xs least size ≡ o → ⊥
      go (chosen ys) e = absurd (ground arith)
      go (refused r) e = absurd (ground arith)
      go panicked e = chosen_sources-total xs least size h e

  -- A forced update gives a result if at least one source is needed.
  pub force_update-total :
      (sys : System fl) (now : Time) (back : Bool) (s : TimeSyncService fl)
      → pos 1 ≤ℤ s.config.min_sources
      → force_update fl sys now back s ≢ none
  unfolding force_update
  force_update-total sys now back s h p =
      go
        (select_best_time fl now (get_valid_sources fl s.store now) s.config.min_sources
          s.config.max_source_spread)
        refl
    where
      go :
          (o : Outcome (TimeUpdate fl))
          → select_best_time fl now
              (get_valid_sources fl s.store now)
              s.config.min_sources
              s.config.max_source_spread
            ≡ o
          → ⊥
      go (chosen update) e =
          elim (Option-cases (adjusted fl sys now (forced_config fl back) update s).2) [
            | inl f ↦ absurd (ground arith)
            | inr (text, f) ↦ absurd (ground arith)
          ]
      go (refused r) e = absurd (ground arith)
      go panicked e = select_best_time-total now _ _ _ h e

  -- So does a tick of the time service.
  pub evaluate_and_adjust-total :
      (sys : System fl) (now : Time) (s : TimeSyncService fl)
      → pos 1 ≤ℤ s.config.min_sources
      → evaluate_and_adjust fl sys now s ≢ none
  unfolding evaluate_and_adjust
  evaluate_and_adjust-total sys now s h p =
      go
        (select_best_time fl now (get_valid_sources fl s.store now) s.config.min_sources
          s.config.max_source_spread)
        refl
    where
      go :
          (o : Outcome (TimeUpdate fl))
          → select_best_time fl now
              (get_valid_sources fl s.store now)
              s.config.min_sources
              s.config.max_source_spread
            ≡ o
          → ⊥
      go (chosen update) e = absurd (ground arith)
      go (refused r) e = absurd (ground arith)
      go panicked e = select_best_time-total now _ _ _ h e
