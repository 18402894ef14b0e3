-- ===== src/Gps/Backoff.antt =====
-- The BackoffManager of cmd/gps-broadcaster/main.go: how long to wait until the next check. The
-- counter of attempts is a number: it grows by one per check and cannot reach the bounds of an int.
use disco.Base.{
  ℕ, ℤ, pos, suc, ◌*◌, Bool, false, not, ◌&&◌, ◌||◌, if◌then◌else◌, ltb_ℤ, leb, ◌+ℤ◌, wrap64,
}
use disco.Clock.{Duration}

pub record BackoffManager : Type 0 where
  pub attempts : ℕ
  pub last_has_fix : Bool
  pub last_sats : ℤ
  pub last_interval : Duration

unfoldable pub new_backoff_manager : BackoffManager
new_backoff_manager = record {
  attempts = 0;
  last_has_fix = false;
  last_sats = pos 0;
  last_interval = pos 0;
}

-- A number of seconds, as a time.Duration.
abbrev pub seconds : ℕ → Duration
seconds n = pos (n * 1000000000)

-- The switch of NextInterval.
unfoldable pub interval_after : ℕ → Duration
interval_after attempts =
    if leb attempts 3
    then seconds 10
    else if leb attempts 6
    then seconds 30
    else if leb attempts 10
    then seconds 120
    else if leb attempts 15
    then seconds 300
    else if leb attempts 20
    then seconds 600
    else if leb attempts 25
    then seconds 1200
    else if leb attempts 30
    then seconds 1800
    else seconds 3600

unfoldable pub signal_improved : Bool → ℤ → BackoffManager → Bool
signal_improved has_fix sats b =
    (has_fix && not b.last_has_fix)
    || (ltb_ℤ (wrap64 (b.last_sats +ℤ pos 2)) sats && ltb_ℤ (pos 0) sats)

unfoldable pub next_interval : Bool → ℤ → BackoffManager → BackoffManager × Duration
next_interval has_fix sats b =
    let attempts = suc (if signal_improved has_fix sats b then 0 else b.attempts) in
    let wait = if has_fix then seconds 16 else interval_after attempts in
    (
      record {
        attempts = if has_fix then 0 else attempts;
        last_has_fix = has_fix;
        last_sats = sats;
        last_interval = wait;
      },
      wait,
    )

unfoldable pub current_interval : BackoffManager → Duration
current_interval b = b.last_interval
