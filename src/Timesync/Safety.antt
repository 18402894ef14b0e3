-- ===== src/Timesync/Safety.antt =====
-- When the time synchronisation calls the clock.
use disco.Base.{
  pos, true, false, some, List, ◌≡◌, refl, ◌≢◌, arith, In, ◌≤ℤ◌, length, All, subst,
  In-of_In-select,
}
use disco.Clock.{Time, Duration, sub_time}
use disco.Timesync.Adjustment.{
  ClockCall, no_call, MovesForward, clock_call-forward, calculate_adjustment, clock_call,
  adjustment_for,
}
use disco.Timesync.Chosen.{All-weaken, Accepted, chosen_sources-Accepted}
use disco.Dict.{values}
use disco.Timesync.Parts.{
  IsPart-trans, select-IsPart, IsPart, ChosenPart, chosen_sources-ChosenPart,
}
use disco.Timesync.Agreement.{AllInRange, Within}
use disco.Timesync.Floats.{Floats}
use disco.Timesync.Selection.{
  Outcome, chosen, refused, panicked, select_best_time, chosen_sources, is_usable, TimeUpdate,
  best_update,
}
use disco.Timesync.Service.{TimeSyncService, System, evaluate_and_adjust, clock_config}
use disco.Timesync.Sources.{TimeSource, TimeSourceStore, is_fresh, get_valid_sources}

module _ (fl : Floats) where
  -- The duration by which an evaluation would move the clock.
  abbrev move : TimeUpdate fl → Duration
  move update = fl.to_int (fl.mul update.offset fl.giga)

  -- The call that an evaluation makes with the time of the sources.
  abbrev pub call_of : Time → TimeSyncService fl → List (TimeSource fl) → ClockCall
  call_of now s xs =
      clock_call
        (calculate_adjustment fl now (best_update fl now xs).offset (clock_config fl s.config))

  -- An evaluation that calls the clock has selected a time.
  evaluate-chosen :
      (sys : System fl) (now : Time) (s : TimeSyncService fl) {s' : TimeSyncService fl}
      {call : ClockCall}
      → evaluate_and_adjust fl sys now s ≡ some (s', call)
      → call ≢ no_call
      → (xs : List (TimeSource fl)) × (chosen_sources fl
            (get_valid_sources fl s.store now)
            s.config.min_sources
            s.config.max_source_spread
          ≡ chosen xs)
        × (call ≡ call_of now s xs)
  unfolding evaluate_and_adjust select_best_time
  evaluate-chosen sys now s {s'} {call} e h =
      go
        (chosen_sources fl (get_valid_sources fl s.store now) s.config.min_sources
          s.config.max_source_spread)
        refl
    where
      go :
          (o : Outcome (List (TimeSource fl)))
          → chosen_sources fl
              (get_valid_sources fl s.store now)
              s.config.min_sources
              s.config.max_source_spread
            ≡ o
          → (xs : List (TimeSource fl)) × (chosen_sources fl
                (get_valid_sources fl s.store now)
                s.config.min_sources
                s.config.max_source_spread
              ≡ chosen xs)
            × (call ≡ call_of now s xs)
      go (chosen xs) p = let same : call ≡ call_of now s xs = ground arith in (xs, p, same)
      go (refused r) p = absurd (ground arith)
      go panicked p = absurd (ground arith)

  -- The source was heard within the stale age of the store, has a stratum of at most 15, and a root
  -- dispersion that is not greater than 1.0.
  abbrev pub IsSound : TimeSourceStore fl → Time → TimeSource fl → Type 0
  IsSound store now x =
      (sub_time now x.received_at ≤ℤ store.max_stale)
      × (x.clock_info.stratum ≤ℤ pos 15)
      × (fl.gt x.clock_info.root_dispersion fl.one ≡ false)

  valid-IsSound :
      (store : TimeSourceStore fl) (now : Time) (x : TimeSource fl)
      → In x (get_valid_sources fl store now)
      → is_usable fl x ≡ true
      → IsSound store now x
  unfolding get_valid_sources is_fresh is_usable
  valid-IsSound store now x place usable =
      let (stored, fresh) = In-of_In-select (is_fresh fl store now) (values store.sources) place in
      ground arith

  -- An evaluation that calls the clock makes the call for the offset of the weighted time of
  -- some of the stored sources, none of them counted twice: at least the configured number of
  -- them, all heard within the stale age, with a stratum of at most 15 and a root dispersion
  -- that is not greater than 1.0, and all within the configured spread of each other, if the
  -- spread is not negative and the timestamps are int64 numbers that are not negative.
  pub evaluate-agreed :
      (sys : System fl) (now : Time) (s : TimeSyncService fl) {s' : TimeSyncService fl}
      {call : ClockCall}
      → evaluate_and_adjust fl sys now s ≡ some (s', call)
      → call ≢ no_call
      → pos 0 ≤ℤ s.config.max_source_spread
      → AllInRange fl (get_valid_sources fl s.store now)
      → (xs : List (TimeSource fl)) × (call ≡ call_of now s xs)
        × IsPart xs (values s.store.sources)
        × (s.config.min_sources ≤ℤ pos (length xs))
        × Within fl s.config.max_source_spread xs
        × All (IsSound s.store now) xs
  unfolding get_valid_sources
  evaluate-agreed sys now s e h t r =
      let sources = get_valid_sources fl s.store now in
      let (xs, p, called) = evaluate-chosen sys now s e h in
      let (enough, close, all) =
        subst
          (Accepted fl (λ x. In x sources × (is_usable fl x ≡ true)) s.config.min_sources
            s.config.max_source_spread)
          p (chosen_sources-Accepted fl sources _ _ t r) in
      let part = subst (ChosenPart fl sources) p (chosen_sources-ChosenPart fl sources _ _) in
      let stored =
        IsPart-trans xs sources (values s.store.sources) part
          (select-IsPart fl (is_fresh fl s.store now) (values s.store.sources)) in
      (
        xs,
        called,
        stored,
        enough,
        close,
        All-weaken fl _ _ xs (λ x a. valid-IsSound s.store now x a.0 a.1) all,
      )

  -- Unless steps back are allowed, an evaluation never moves the clock back: the duration of its
  -- call is not negative.
  pub evaluate-forward :
      (sys : System fl) (now : Time) (s : TimeSyncService fl) {s' : TimeSyncService fl}
      {call : ClockCall}
      → evaluate_and_adjust fl sys now s ≡ some (s', call)
      → s.config.allow_step_backward ≡ false
      → (d : Duration) × MovesForward now d call
  unfolding evaluate_and_adjust calculate_adjustment
  evaluate-forward sys now s {s'} {call} e h =
      go
        (select_best_time fl now (get_valid_sources fl s.store now) s.config.min_sources
          s.config.max_source_spread)
        refl
    where
      go :
          (o : Outcome (TimeUpdate fl))
          → select_best_time fl now
              (get_valid_sources fl s.store now)
              s.config.min_sources
              s.config.max_source_spread
            ≡ o
          → (d : Duration) × MovesForward now d call
      go (chosen update) p =
          let same : call
              ≡ clock_call (adjustment_for now (move update) (clock_config fl s.config)) =
            ground arith in
          (
            move update,
            rw same (
                clock_call-forward now (move update) (clock_config fl s.config)
                  (unfold clock_config in h)),
          )
      go (refused r) p = let same : call ≡ no_call = ground arith in (pos 0, rw same tt)
      go panicked p = absurd (ground arith)
