-- ===== src/Timesync/Selection.antt =====
-- internal/timesync/selection.go: SelectBestTime and findAgreeingSubset.
use disco.Base.{
  ℕ, ℤ, pos, Bool, not, ◌&&◌, List, [], ◌∷◌, ltb, ltb_ℤ, leb_ℤ, ◌-ℤ◌, wrap64, select, if◌then◌else◌,
  length, pos_part, neg_part, sub_ℕ, ◌/◌, ◌%◌,
}
use disco.Clock.{Time, Duration, sub_time, whole_seconds, second, unix_nanos}
use disco.Timesync.Floats.{Floats}
use disco.Timesync.Sources.{TimeSource}

pub data SelectError : Type 0 where
  insufficient insufficient_after_filtering disagree : SelectError

-- `validSources[0]` of an empty slice panics.
pub data Outcome {ℓ} (A : Type ℓ) : Type ℓ where
  chosen : A → Outcome A
  refused : SelectError → Outcome A
  panicked : Outcome A

-- `maxSpread / 2` on a time.Duration: truncated towards zero.
unfoldable pub half : Duration → Duration
half d = sub_ℕ (pos_part d / 2) (neg_part d / 2)

module _ (fl : Floats) where
  open fl use {Float, gt, one}

  -- The two tests of the filter loop.
  unfoldable pub is_usable : TimeSource fl → Bool
  is_usable s =
      not (ltb_ℤ (pos 15) s.clock_info.stratum) && not (gt s.clock_info.root_dispersion one)

  -- `sort.Slice` by timestamp. The order of equal timestamps is open in Go.
  unfoldable pub insert_sorted : TimeSource fl → List (TimeSource fl) → List (TimeSource fl)
  insert_sorted s [] = s ∷ []
  insert_sorted s (x ∷ xs) =
      if leb_ℤ s.timestamp x.timestamp then s ∷ x ∷ xs else x ∷ insert_sorted s xs

  unfoldable pub sort : List (TimeSource fl) → List (TimeSource fl)
  sort [] = []
  sort (s ∷ rest) = insert_sorted s (sort rest)

  -- The inner loop of findAgreeingSubset: the sources up to the first that is too late.
  unfoldable pub agreeing_from : ℤ → Duration → List (TimeSource fl) → List (TimeSource fl)
  agreeing_from base tolerance [] = []
  agreeing_from base tolerance (s ∷ rest) =
      if leb_ℤ (wrap64 (s.timestamp -ℤ base)) tolerance
      then s ∷ agreeing_from base tolerance rest
      else []

  -- The outer loop, with the best subset so far.
  unfoldable pub best_subset :
      Duration → List (TimeSource fl) → List (TimeSource fl) → List (TimeSource fl)
  best_subset tolerance best [] = best
  best_subset tolerance best (s ∷ rest) =
      let subset = agreeing_from s.timestamp tolerance (s ∷ rest) in
      best_subset tolerance (if ltb (length best) (length subset) then subset else best) rest

  unfoldable pub find_agreeing_subset : List (TimeSource fl) → Duration → List (TimeSource fl)
  find_agreeing_subset sources tolerance = best_subset tolerance [] sources

  -- The timestamp of the last of the sources, the first of them given.
  unfoldable pub last_timestamp : TimeSource fl → List (TimeSource fl) → ℤ
  last_timestamp s [] = s.timestamp
  last_timestamp s (x ∷ xs) = last_timestamp x xs

  unfoldable pub too_few : ℤ → List (TimeSource fl) → Bool
  too_few min_sources xs = ltb_ℤ (pos (length xs)) min_sources

  -- The usable sources in order of time: all of them if they are close enough, else the largest
  -- subset that agrees within half the spread.
  unfoldable pub close_enough : List (TimeSource fl) → ℤ → Duration → Outcome (List (TimeSource fl))
  close_enough [] min_sources max_spread = panicked
  close_enough (s ∷ rest) min_sources max_spread =
      let agreeing = find_agreeing_subset (s ∷ rest) (half max_spread) in
      if ltb_ℤ max_spread (wrap64 (last_timestamp s rest -ℤ s.timestamp))
      then (if too_few min_sources agreeing then refused disagree else chosen agreeing)
      else chosen (s ∷ rest)

  -- SelectBestTime up to the sources that the time is computed from.
  unfoldable pub chosen_sources :
      List (TimeSource fl) → ℤ → Duration → Outcome (List (TimeSource fl))
  chosen_sources sources min_sources max_spread =
      let valid = select is_usable sources in
      if too_few min_sources sources
      then refused insufficient
      else if too_few min_sources valid
      then refused insufficient_after_filtering
      else close_enough (sort valid) min_sources max_spread

  -- `weight := 1.0 / (src.ClockInfo.RootDispersion + 0.0001)`
  unfoldable pub weight : TimeSource fl → Float
  weight s = fl.div one (fl.add s.clock_info.root_dispersion fl.tiny)

  -- The loop that adds up the weights and the weighted times.
  unfoldable pub weighted_sums : Float → Float → List (TimeSource fl) → Float × Float
  weighted_sums total time [] = (total, time)
  weighted_sums total time (s ∷ rest) =
      weighted_sums (fl.add total (weight s))
        (fl.add time (fl.mul (fl.of_int s.timestamp) (weight s))) rest

  -- `d.Seconds()` of a time.Duration.
  unfoldable pub seconds_of : Duration → Float
  seconds_of d =
      fl.add (fl.of_int (whole_seconds d))
        (fl.div (fl.of_int (sub_ℕ (pos_part d % second) (neg_part d % second))) fl.giga)

  pub record TimeUpdate : Type 0 where
    pub offset : Float
    pub source_count : ℕ
    pub best_time : Time

  unfoldable pub weighted_time : List (TimeSource fl) → Time
  unfolding weighted_sums weight
  weighted_time xs =
      let (total, time) = weighted_sums fl.zero fl.zero xs in
      unix_nanos (fl.to_int (fl.div time total))

  unfoldable pub best_update : Time → List (TimeSource fl) → TimeUpdate
  best_update now xs = record {
    offset = seconds_of (sub_time (weighted_time xs) now);
    source_count = length xs;
    best_time = weighted_time xs;
  }

  unfoldable pub select_best_time : Time → List (TimeSource fl) → ℤ → Duration → Outcome TimeUpdate
  select_best_time now sources min_sources max_spread =
      elim (chosen_sources sources min_sources max_spread) [
        | chosen xs ↦ chosen (best_update now xs)
        | refused e ↦ refused e
        | panicked ↦ panicked
      ]
