-- ===== src/Tests/Time.antt =====
-- The time synchronisation on three sources, with integers in place of floats.
use disco.Base.{
  ℕ, Str_eq, str_eq, bytes, ℤ, pos, true, false, List, [], ◌∷◌, Option, none, some, ◌≡◌, ◌≢◌, refl,
  arith, ◌≤ℤ◌, ◌≤◌, select, length, All, ltb_ℤ, eqb_ℤ, ◌-ℤ◌, ◌+ℤ◌, ◌*ℤ◌, scale, clamp64, wrap64,
}
use disco.Clock.{Time, Duration, sub_time, whole_seconds, unix_nanos, add_time}
use disco.Dict.{lookup, insert, values}
use disco.Timesync.Adjustment.{
  ClockCall, no_call, MovesForward, adjustment_for, calculate_adjustment, clock_call,
}
use disco.Timesync.Agreement
use disco.Timesync.Floats.{Floats}
use disco.Timesync.Parts.{IsPart}
use disco.Timesync.Largest
use disco.Timesync.Safety
use disco.Timesync.Selection.{
  chosen, half, is_usable, insert_sorted, sort, agreeing_from, best_subset, find_agreeing_subset,
  last_timestamp, too_few, close_enough, chosen_sources, weight, weighted_sums, seconds_of,
  weighted_time, best_update, select_best_time,
}
use disco.Timesync.Service.{
  SyncError, SyncStatus, TimeSyncService, System, answer, adjusted, synced_status, clock_config,
  evaluate_and_adjust,
}
use disco.Timesync.Sources.{TimeSource, get_valid_sources, is_fresh}

-- Whole numbers as a poor kind of float.
abbrev pub whole : Floats
whole = record {
  Float = ℤ;
  zero = pos 0;
  one = pos 1;
  tiny = pos 0;
  giga = pos 1000000000;
  add = ◌+ℤ◌;
  sub = ◌-ℤ◌;
  mul = ◌*ℤ◌;
  div = λ a b. a;
  gt = λ a b. ltb_ℤ b a;
  eq = eqb_ℤ;
  of_int = λ a. a;
  to_int = λ a. a;
}

abbrev at : ℕ → Time
at s = record { sec = pos s; nsec = 0 }

abbrev source : ℤ → TimeSource whole
source t = record {
  source_id = bytes "gps";
  timestamp = t;
  received_at = at 0;
  clock_info = record {
    stratum = pos 1;
    precision = pos 0;
    root_delay = pos 0;
    root_dispersion = pos 0;
    reference_id = [];
    reference_time = pos 0;
  };
  leap_indicator = pos 0;
}

abbrev three : List (TimeSource whole)
three = source (pos 500) ∷ source (pos 30) ∷ source (pos 40) ∷ []

program : Unit {0}
unfolding str_eq ◌-ℤ◌ ◌+ℤ◌ ◌*ℤ◌ scale clamp64 wrap64 sub_time whole_seconds unix_nanos add_time
    lookup insert values adjustment_for calculate_adjustment clock_call half is_usable sort
    insert_sorted agreeing_from best_subset find_agreeing_subset last_timestamp too_few close_enough
    chosen_sources seconds_of weighted_time best_update select_best_time evaluate_and_adjust
    get_valid_sources is_fresh
program = tt

outvoted :
    chosen_sources whole three (pos 2) (pos 100) ≡ chosen (source (pos 30) ∷ source (pos 40) ∷ [])
unfolding program
outvoted = refl

abbrev pub service : TimeSyncService whole
service = record {
  config = record {
    enabled = true;
    min_sources = pos 2;
    max_source_spread = pos 100;
    max_stale_age = pos 30000000000;
    max_dispersion = pos 1;
    step_threshold = pos 128000000;
    slew_threshold = pos 500000;
    poll_interval = pos 60000000000;
    require_signed = false;
    allow_step_backward = false;
  };
  key_manager = none;
  store = record {
    sources = (bytes "a", source (pos 9000000000)) ∷ (bytes "b", source (pos 9000000050)) ∷ [];
    max_stale = pos 30000000000;
  };
  status = record {
    synced = false;
    source_count = 0;
    last_offset = pos 0;
    last_sync_time = at 0;
    last_error = SyncError.no_error;
  };
}

abbrev pub willing : System whole
willing call = none

-- Two sources that agree, at seventeen seconds: the clock is set forward.
abbrev evaluated : Option (TimeSyncService whole × ClockCall)
evaluated = evaluate_and_adjust whole willing (at 17) service

abbrev expected_status : SyncStatus whole
expected_status = record {
  synced = true;
  source_count = 2;
  last_offset = pos 51;
  last_sync_time = at 17;
  last_error = SyncError.no_error;
}

abbrev expected_call : ClockCall
expected_call = ClockCall.settimeofday (at 68)

steps : evaluated ≡ some (record service { status = expected_status }, expected_call)
unfolding program adjusted synced_status clock_config answer weight weighted_sums
steps = refl

step_call : expected_call ≢ no_call
step_call e = absurd (ground arith)

fresh : Agreement.AllInRange whole (get_valid_sources whole service.store (at 17))
unfolding program
fresh = ((omega arith, omega arith), ((omega arith, omega arith), tt))

evaluate-agreed_example :
    (xs : List (TimeSource whole)) × (expected_call ≡ Safety.call_of whole (at 17) service xs)
    × IsPart xs (values service.store.sources)
    × (pos 2 ≤ℤ pos (length xs))
    × Agreement.Within whole (pos 100) xs
    × All (Safety.IsSound whole service.store (at 17)) xs
evaluate-agreed_example =
    Safety.evaluate-agreed whole willing (at 17) service steps step_call (omega arith) fresh

three_in_range : Agreement.AllInRange whole three
three_in_range =
    ((omega arith, omega arith), ((omega arith, omega arith), ((omega arith, omega arith), tt)))

find_agreeing_subset-largest_example :
    IsPart (find_agreeing_subset whole (sort whole three) (pos 50)) three
    × Agreement.Within whole (pos 50) (find_agreeing_subset whole (sort whole three) (pos 50))
    × ((from : ℤ)
        → length (select (Agreement.in_window whole from (pos 50)) three)
          ≤ length (find_agreeing_subset whole (sort whole three) (pos 50)))
find_agreeing_subset-largest_example =
    Largest.find_agreeing_subset-largest whole (pos 50) three (omega arith) three_in_range

evaluate-forward_example : (d : Duration) × MovesForward (at 17) d expected_call
evaluate-forward_example = Safety.evaluate-forward whole willing (at 17) service steps refl
