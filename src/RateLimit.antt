-- ===== src/RateLimit.antt =====
-- internal/discovery/ratelimit.go: the token bucket that limits announcements, and the filter that
-- drops messages whose id was seen. Each method runs under a mutex and reads the clock once.
pub mod Bounds
pub mod Replay
use disco.Base.{
  Str, Str_eq, ℕ, ℤ, pos, Bool, true, false, not, List, [], ◌∷◌, if◌then◌else◌, ltb_ℤ, leb_ℤ, ◌+ℤ◌,
  ◌-ℤ◌, ◌*ℤ◌, wrap64, Option, none, some, suc,
}
use disco.Clock.{Time, Duration, sub_time, whole_seconds}
use disco.Dict.{Dict, lookup, insert, keep}

pub record RateLimiter : Type 0 where
  pub max_burst : ℤ
  pub rate : ℤ
  pub tokens : ℤ
  pub last_time : Time

abbrev pub default_max_burst : ℤ
default_max_burst = pos 10

abbrev pub default_rate : ℤ
default_rate = pos 10

unfoldable pub new_rate_limiter : ℤ → ℤ → Time → RateLimiter
new_rate_limiter rate max_burst now =
    let r = if leb_ℤ rate (pos 0) then default_rate else rate in
    let b = if leb_ℤ max_burst (pos 0) then default_max_burst else max_burst in
    record { max_burst = b; rate = r; tokens = b; last_time = now }

-- The tokens of `Allow` after it has added those of the elapsed time, with int64 arithmetic.
unfoldable pub refilled : Time → RateLimiter → ℤ
refilled now rl =
    let more = wrap64 (whole_seconds (sub_time now rl.last_time) *ℤ rl.rate) in
    let sum = wrap64 (rl.tokens +ℤ more) in if ltb_ℤ rl.max_burst sum then rl.max_burst else sum

unfoldable pub allow : Time → RateLimiter → RateLimiter × Bool
allow now rl =
    let tokens = refilled now rl in
    if ltb_ℤ (pos 0) tokens
    then (record rl { tokens = wrap64 (tokens -ℤ pos 1); last_time = now }, true)
    else (record rl { tokens = tokens; last_time = now }, false)

-- Calls at the given instants, and how many of them are allowed.
unfoldable pub allow_all : List Time → RateLimiter → RateLimiter × ℕ
allow_all [] rl = (rl, 0)
allow_all (now ∷ rest) rl =
    let (rl', allowed) = allow now rl in
    let (rl'', n) = allow_all rest rl' in (rl'', if allowed then suc n else n)

pub record DuplicateFilter : Type 0 where
  pub seen_ids : Dict Str Time
  pub ttl : Duration

abbrev pub new_duplicate_filter : Duration → DuplicateFilter
new_duplicate_filter ttl = record { seen_ids = []; ttl = ttl }

-- `Seen`: an id that is not there is put there with the time, one that is there stays as it is.
unfoldable pub seen : Time → Str → DuplicateFilter → DuplicateFilter × Bool
seen now id df = elim (lookup id df.seen_ids) [
  | none ↦ (record df { seen_ids = insert id now df.seen_ids }, false)
  | some at ↦ (df, true)
]

-- One tick of `cleanup`.
unfoldable pub cleanup : Time → DuplicateFilter → DuplicateFilter
cleanup now df = record df {
  seen_ids = keep (λ id at. not (ltb_ℤ df.ttl (sub_time now at))) df.seen_ids;
}
