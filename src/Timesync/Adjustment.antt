-- ===== src/Timesync/Adjustment.antt =====
-- internal/timesync/clock.go: how the clock is adjusted for an offset, and ApplyAdjustment of
-- clock_linux.go up to the system calls.
use disco.Base.{
  pos, Bool, false, not, ◌&&◌, if◌then◌else◌, ltb_ℤ, leb_ℤ, ◌-ℤ◌, wrap64, Option, none, some, ◌≡◌,
  ◌≤ℤ◌, arith,
}
use disco.Clock.{Time, Duration, add_time, zero_time}
use disco.Timesync.Floats.{Floats}

pub data AdjustmentMethod : Type 0 where
  no_adjustment slew step : AdjustmentMethod

pub record ClockConfig : Type 0 where
  pub step_threshold : Duration
  pub slew_threshold : Duration
  pub allow_step_backward : Bool

-- `absolute` is the zero time but for a step.
pub record ClockAdjustment : Type 0 where
  pub method : AdjustmentMethod
  pub offset : Duration
  pub absolute : Option Time

-- `if absOffset < 0 { absOffset = -absOffset }`, in int64.
unfoldable pub abs64 : Duration → Duration
abs64 d = if ltb_ℤ d (pos 0) then wrap64 (pos 0 -ℤ d) else d

-- CalculateAdjustment, from the offset as a Duration.
unfoldable pub adjustment_for : Time → Duration → ClockConfig → ClockAdjustment
unfolding abs64
adjustment_for now offset cfg =
    let keep : ClockAdjustment = record {
      method = no_adjustment;
      offset = offset;
      absolute = none;
    } in
    if ltb_ℤ (abs64 offset) cfg.slew_threshold
    then keep
    else if ltb_ℤ offset (pos 0) && not cfg.allow_step_backward
    then keep
    else if leb_ℤ cfg.step_threshold (abs64 offset)
    then record { method = step; offset = offset; absolute = some (add_time now offset) }
    else record { method = slew; offset = offset; absolute = none }

unfoldable pub calculate_adjustment :
    (fl : Floats) → Time → fl.Float → ClockConfig → ClockAdjustment
calculate_adjustment fl now seconds cfg =
    adjustment_for now (fl.to_int (fl.mul seconds fl.giga)) cfg

-- What ApplyAdjustment asks of the system: nothing, settimeofday, or adjtimex.
pub data ClockCall : Type 0 where
  no_call : ClockCall
  settimeofday : Time → ClockCall
  adjtimex : Duration → ClockCall

unfoldable pub clock_call : ClockAdjustment → ClockCall
clock_call adj = elim adj.method [
  | no_adjustment ↦ no_call
  | step ↦ elim adj.absolute [ some target ↦ settimeofday target | none ↦ settimeofday zero_time ]
  | slew ↦ adjtimex adj.offset
]

-- A call that moves the clock by the duration, and not back.
abbrev pub MovesForward : Time → Duration → ClockCall → Type 0
MovesForward now d no_call = Unit
MovesForward now d (settimeofday t) = (pos 0 ≤ℤ d) × (t ≡ add_time now d)
MovesForward now d (adjtimex e) = (pos 0 ≤ℤ d) × (e ≡ d)

-- Unless steps back are allowed, the system is never asked to set the clock back.
pub clock_call-forward :
    (now : Time) (offset : Duration) (cfg : ClockConfig)
    → cfg.allow_step_backward ≡ false
    → MovesForward now offset (clock_call (adjustment_for now offset cfg))
unfolding adjustment_for clock_call
clock_call-forward now offset cfg h = ground arith
