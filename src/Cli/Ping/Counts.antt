-- ===== src/Cli/Ping/Counts.antt =====
-- What the rounds of `disco ping` count.
use disco.Base.{ℕ, zero, suc, ◌≡◌, refl, ap, ◌≤◌, arith, length, Option-cases, inl, inr}
use disco.Cli.Ping.{Attempt, latency_of, execute_pings}

-- The successes are as many as the latencies, and at most the rounds.
pub execute_pings-counts :
    (attempt : ℕ → Attempt) (i rounds : ℕ)
    → ((execute_pings i attempt rounds).0 ≡ length (execute_pings i attempt rounds).1)
      × ((execute_pings i attempt rounds).0 ≤ rounds)
unfolding execute_pings
execute_pings-counts attempt i zero = (refl, omega arith)
execute_pings-counts attempt i (suc rounds) =
    let (same, few) = execute_pings-counts attempt (suc i) rounds in
    elim (Option-cases (latency_of (attempt i))) [
      | inl e ↦ rw (e, execute_pings) (same, omega (arith, few))
      | inr (latency, e) ↦ rw (e, execute_pings) (ap suc same, omega (arith, few))
    ]
