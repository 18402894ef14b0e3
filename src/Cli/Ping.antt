-- ===== src/Cli/Ping.antt =====
-- cmd/disco/commands/ping.go, and the answers that all commands take from the daemon
-- (cmd/disco/internal/cli/client.go). The connections are arguments; printing is left out.
pub mod Counts
use disco.Base.{
  Str, Str_eq, str_eq, bytes, ℕ, ℤ, pos, zero, suc, Bool, true, false, not, ◌&&◌, ◌||◌, List, [],
  ◌∷◌, ◌++◌, Option, none, some, if◌then◌else◌, ltb, ltb_ℤ, is_none, is_empty, ◌≟◌, map, ◌+ℤ◌,
  wrap64, sub_ℕ, pos_part, neg_part, ◌/◌, ◌==◌, or_else,
}
use disco.Clock.{Duration}
use disco.Dict.{Dict, lookup}
use disco.Timesync.Floats.{Floats}
use disco.Protocol.{HostHealth, Query, QueryType, Response, ResponseType, response_error}
use disco.Cli.Text.{lower, to_lower, is_ip}
use disco.Cli.Validation.{Invalid, validate_ping_target}

-- `strings.EqualFold`; a character beyond ASCII is equal to itself only.
unfoldable pub equal_fold : Str → Str → Bool
equal_fold s t = map lower s ≟ map lower t

-- `len(h.Addresses) > 0`, with the first of them.
unfoldable pub first_address : HostHealth → Option Str
first_address h = elim h.addresses [ [] ↦ none | a ∷ rest ↦ some a ]

-- A loop over the hosts: the first address of the first host that has one and passes the test.
unfoldable pub first_match : (HostHealth → Bool) → List HostHealth → Option Str
unfolding first_address
first_match test [] = none
first_match test (h ∷ hosts) =
    if test h then or_else (first_address h) (first_match test hosts) else first_match test hosts

-- matchTarget: by name, by machine id, by service, else the target itself.
unfoldable pub match_target : Str → List HostHealth → Str
unfolding first_match equal_fold
match_target target hosts =
    let by_name = first_match (λ h. equal_fold h.hostname target) hosts in
    let by_id =
      first_match (λ h. not (is_empty h.machine_id) && (h.machine_id ≟ to_lower target)) hosts in
    let by_service = first_match (λ h. not (is_none (lookup target h.services))) hosts in
    elim (or_else by_name (or_else by_id by_service)) [ none ↦ target | some addr ↦ addr ]

module _ (fl : Floats) where
  -- HandleResponse: an error of the daemon is an error; `none` is any error.
  unfoldable pub handle_response : Option (Response fl) → Option (Response fl)
  handle_response none = none
  handle_response (some r) = elim r.response_type [ response_error ↦ none | _ ↦ some r ]

  -- resolveTarget, where `hosts` is what the query for the hosts gives.
  unfoldable pub resolve_target : (Str → Bool) → Option (Response fl) → Str → Str
  unfolding handle_response match_target
  resolve_target is_ip6 hosts target =
      if is_ip is_ip6 target
      then target
      else elim (handle_response hosts) [ none ↦ target | some r ↦ match_target target r.hosts ]

-- One round of the loop: an error on the way, or the bytes read and how long it took.
pub data Attempt : Type 0 where
  dial_error write_error deadline_error read_error : Attempt
  answered : Str → Duration → Attempt

-- `strings.HasPrefix(s, prefix)`
unfoldable pub has_prefix : Str → Str → Bool
has_prefix [] s = true
has_prefix (c ∷ prefix) [] = false
has_prefix (c ∷ prefix) (d ∷ s) = (c == d) && has_prefix prefix s

unfoldable pub latency_of : Attempt → Option Duration
unfolding has_prefix
latency_of (answered text latency) = if has_prefix (bytes "PONG") text then some latency else none
latency_of _ = none

-- executePings, from a round on, with what each round gives.
unfoldable pub execute_pings : ℕ → (ℕ → Attempt) → ℕ → ℕ × List Duration
unfolding latency_of
execute_pings i attempt zero = (0, [])
execute_pings i attempt (suc rounds) =
    let rest = execute_pings (suc i) attempt rounds in
    elim (latency_of (attempt i)) [ none ↦ rest | some latency ↦ (suc rest.0, latency ∷ rest.1) ]

-- The average of printPingResults, for at least one success.
unfoldable pub total : Duration → List Duration → Duration
total t [] = t
total t (l ∷ ls) = total (wrap64 (t +ℤ l)) ls

unfoldable pub average : ℕ → List Duration → Duration
unfolding total
average successful ls =
    let t = total (pos 0) ls in sub_ℕ (pos_part t / successful) (neg_part t / successful)

pub data PingError : Type 0 where
  invalid_target : Invalid → PingError
  count_range interval_short host_down : PingError

unfoldable pub validate_ping_args : ℤ → Duration → Option PingError
validate_ping_args count interval =
    if ltb_ℤ count (pos 1) || ltb_ℤ (pos 10) count
    then some count_range
    else if ltb_ℤ interval (pos 100000000)
    then some interval_short
    else none

-- runPing, with the rounds as a function of the resolved target: the error that it returns.
unfoldable pub run_ping :
    (Str → Bool) → (Str → Str) → (Str → ℕ → Attempt) → ℤ → Duration → Str → Option PingError
run_ping is_ip6 resolve attempt count interval raw = elim (validate_ping_target is_ip6 raw) [
  | some e ↦ some (invalid_target e)
  | none ↦ elim (validate_ping_args count interval) [
    | some e ↦ some e
    | none ↦
        (if ltb 0 (execute_pings 0 (attempt (resolve raw)) (pos_part count)).0
          then none
          else some host_down)
  ]
]
