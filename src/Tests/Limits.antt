-- ===== src/Tests/Limits.antt =====
-- Signatures, rate limiting and duplicates on concrete inputs.
use disco.Base.{
  ℕ, Str, Str_eq, str_eq, bytes, pos, true, false, [], ◌∷◌, ◌++◌, some, ◌≡◌, refl, arith, ◌≤◌, ◌+◌,
  ◌*◌, pos_part, ◌-ℤ◌, ◌+ℤ◌, ◌*ℤ◌, scale, clamp64, wrap64,
}
use disco.Clock.{Time, sub_time, whole_seconds}
use disco.Dict.{lookup, insert, keep, IsUnique}
use disco.RateLimit.{
  RateLimiter, new_rate_limiter, refilled, allow, allow_all, DuplicateFilter, new_duplicate_filter,
  seen, cleanup,
}
use disco.RateLimit.Bounds
use disco.RateLimit.Replay
use disco.RateLimit.Replay.{arrives, tick, after, after_all}
use disco.Security.{
  KeyManager, MessageSecurity, sign, verify, parse_keys, saved_keys, add_peers, generate_keys,
}
use disco.Security.Checks

program : Unit {0}
unfolding str_eq ◌-ℤ◌ ◌+ℤ◌ ◌*ℤ◌ scale clamp64 wrap64 sub_time whole_seconds lookup insert keep
    new_rate_limiter refilled allow allow_all seen cleanup after after_all sign verify parse_keys
    saved_keys add_peers generate_keys Bounds.whole_gaps
program = tt

-- A stand-in for the MAC: the key, then the text.
abbrev mac : Str → Str → Str
mac key text = key ++ text

abbrev alice : KeyManager
alice = record {
  shared_secret = bytes "s3";
  node_id = bytes "id";
  trusted_peers = (bytes "id", bytes "s3") ∷ [];
}

abbrev at : ℕ → Time
at s = record { sec = pos s; nsec = 0 }

abbrev signed : MessageSecurity
signed = sign mac alice (bytes "n1") (at 1000) (bytes "hi")

accepted : verify mac alice (at 1300) (bytes "hi") (some signed) ≡ true
unfolding program
accepted = refl

too_old : verify mac alice (at 1301) (bytes "hi") (some signed) ≡ false
unfolding program
too_old = refl

verify-restamped_example :
    verify mac alice (at 999999) (bytes "hi") (some (record signed { timestamp = pos 999999 }))
    ≡ true
verify-restamped_example =
    Checks.verify-restamped mac alice (at 1300) (at 999999) (bytes "hi") signed accepted

alice-IsUnique : IsUnique alice.trusted_peers
unfolding program
alice-IsUnique = (refl, tt)

abbrev limiter : RateLimiter
limiter = new_rate_limiter (pos 10) (pos 10) (at 0)

limiter-IsValid : Bounds.IsValid limiter
limiter-IsValid =
    Bounds.new_rate_limiter-IsValid (pos 10) (pos 10) (at 0) (omega arith) (omega arith)

allow_all-le_example :
    (allow_all (at 0 ∷ at 1 ∷ at 5 ∷ []) limiter).1
    ≤ pos_part limiter.tokens
      + Bounds.whole_gaps limiter.last_time (at 0 ∷ at 1 ∷ at 5 ∷ []) * pos_part limiter.rate
unfolding program
allow_all-le_example =
    Bounds.allow_all-le (at 0 ∷ at 1 ∷ at 5 ∷ []) limiter limiter-IsValid (omega arith)

abbrev soon : ℕ → Time
soon n = record { sec = pos 0; nsec = n }

abbrev filter : DuplicateFilter
filter = new_duplicate_filter (pos 300000000000)

seen_again_example :
    (seen (at 400) (bytes "m") (
      after_all
        (arrives (at 5) (bytes "k") ∷ tick (at 300) ∷ [])
        (seen (at 1) (bytes "m") filter).0)).1
    ≡ true
unfolding program
seen_again_example =
    Replay.seen_again filter (at 1) (at 400) (bytes "m")
      (arrives (at 5) (bytes "k") ∷ tick (at 300) ∷ []) tt refl (refl, tt)
