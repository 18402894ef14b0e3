-- ===== src/Gps/Intervals.antt =====
-- How the GPS broadcaster backs off.
use disco.Base.{ℕ, suc, ℤ, true, false, ◌≡◌, refl, arith, ◌≤ℤ◌, ◌≤◌, Bool, if◌then◌else◌}
use disco.Gps.Backoff.{BackoffManager, seconds, interval_after, signal_improved, next_interval}

interval_after-bounds :
    (n : ℕ) → (seconds 10 ≤ℤ interval_after n) × (interval_after n ≤ℤ seconds 3600)
unfolding interval_after
interval_after-bounds n = ground arith

interval_after-grows : (m n : ℕ) → m ≤ n → interval_after m ≤ℤ interval_after n
unfolding interval_after
interval_after-grows m n h = ground arith

-- The wait until the next check is 10 seconds at least and an hour at most; with a fix it is 16
-- seconds.
pub next_interval-bounds :
    (has_fix : Bool) (sats : ℤ) (b : BackoffManager)
    → (seconds 10 ≤ℤ (next_interval has_fix sats b).1)
      × ((next_interval has_fix sats b).1 ≤ℤ seconds 3600)
      × (has_fix ≡ true → (next_interval has_fix sats b).1 ≡ seconds 16)
unfolding next_interval
next_interval-bounds true sats b = (omega arith, omega arith, λ h. refl)
next_interval-bounds false sats b =
    let attempts = suc (if signal_improved false sats b then 0 else b.attempts) in
    let bounds = interval_after-bounds attempts in (bounds.0, bounds.1, λ h. absurd (ground arith))

-- While there is no fix and the signal does not improve, no wait is shorter than the one before.
pub next_interval-grows :
    (s t : ℤ) (b : BackoffManager)
    → signal_improved false t (next_interval false s b).0 ≡ false
    → (next_interval false s b).1 ≤ℤ (next_interval false t (next_interval false s b).0).1
unfolding next_interval
next_interval-grows s t b h =
    let attempts = suc (if signal_improved false s b then 0 else b.attempts) in
    rw h (interval_after-grows attempts (suc attempts) (omega arith))
