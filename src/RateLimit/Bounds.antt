-- ===== src/RateLimit/Bounds.antt =====
-- How many calls of `Allow` the token bucket lets through.
use disco.Base.{
  ℕ, suc, ℤ, pos, ◌≤ℤ◌, ◌<ℤ◌, ◌≤◌, ◌<◌, ◌+◌, ◌*◌, ◌^◌, List, [], ◌∷◌, ◌≡◌, arith, Bool, true, false,
  pos_part, wrap64, wrap64_id, ◌+ℤ◌, ◌-ℤ◌, ◌*ℤ◌, int_laws, -ℤ_parts, clamp64, ltb_ℤ, if◌then◌else◌,
}
use disco.Clock.{Time, sub_time, whole_seconds}
use disco.RateLimit.{RateLimiter, new_rate_limiter, refilled, allow, allow_all}

-- The whole seconds since the last call; the monotonic clock never runs back.
abbrev pub gap : Time → RateLimiter → ℕ
gap now rl = pos_part (whole_seconds (sub_time now rl.last_time))

-- The monotonic clock has not run back since the last call.
abbrev pub Forward : RateLimiter → Time → Type 0
Forward rl now = pos 0 ≤ℤ sub_time now rl.last_time

-- Rates below 2 ^ 28 cannot overflow the refill: a Duration has fewer than 2 ^ 34 seconds.
pub record IsValid (rl : RateLimiter) : Type 0 where
  pub rate_positive : pos 0 <ℤ rl.rate
  pub rate_small : rl.rate <ℤ pos (2 ^ 28)
  pub burst_positive : pos 0 <ℤ rl.max_burst
  pub burst_small : rl.max_burst <ℤ pos (2 ^ 62)
  pub tokens_nonneg : pos 0 ≤ℤ rl.tokens
  pub tokens_bounded : rl.tokens ≤ℤ rl.max_burst

-- A new limiter is valid, with a full bucket.
pub new_rate_limiter-IsValid :
    (rate max_burst : ℤ) (now : Time)
    → rate <ℤ pos (2 ^ 28)
    → max_burst <ℤ pos (2 ^ 62)
    → IsValid (new_rate_limiter rate max_burst now)
unfolding new_rate_limiter
new_rate_limiter-IsValid rate max_burst now h k = ground arith

whole_seconds_range :
    (now : Time) (rl : RateLimiter)
    → Forward rl now
    → (whole_seconds (sub_time now rl.last_time) ≡ pos (gap now rl)) × (gap now rl < 2 ^ 34)
unfolding whole_seconds sub_time clamp64
whole_seconds_range now rl f = ground arith

product_small : (g k : ℕ) → g < 2 ^ 34 → k < 2 ^ 28 → g * k < 2 ^ 62
product_small g k h l = grind arith

times_pos : (n : ℕ) (a : ℤ) → pos 0 ≤ℤ a → pos n *ℤ a ≡ pos (n * pos_part a)
unfolding ◌*ℤ◌
times_pos n a h = ground arith

capped :
    (burst tokens : ℤ) (more : ℕ)
    → pos 0 ≤ℤ tokens
    → tokens ≤ℤ burst
    → pos 0 ≤ℤ burst
    → let sum = tokens +ℤ pos more in
      let r = if ltb_ℤ burst sum then burst else sum in
      (r ≤ℤ burst) × (pos 0 ≤ℤ r) × (r ≤ℤ pos (pos_part tokens + more)) × (tokens ≤ℤ r)
unfolding ◌+ℤ◌
capped burst tokens more h k l = ground arith

-- With no overflow the refill is the sum, capped at the burst size.
refilled-eq :
    (now : Time) (rl : RateLimiter)
    → IsValid rl
    → Forward rl now
    → (refilled now rl ≤ℤ rl.max_burst)
      × (pos 0 ≤ℤ refilled now rl)
      × (refilled now rl ≤ℤ pos (pos_part rl.tokens + gap now rl * pos_part rl.rate))
      × (rl.tokens ≤ℤ refilled now rl)
unfolding refilled
refilled-eq now rl v f =
    let (seconds, few) = whole_seconds_range now rl f in
    let small : gap now rl * pos_part rl.rate < 2 ^ 62 = product_small _ _ few (ground arith) in
    let product : whole_seconds (sub_time now rl.last_time) *ℤ rl.rate
        ≡ pos (gap now rl * pos_part rl.rate) =
      rw seconds (times_pos (gap now rl) rl.rate (omega arith)) in
    let kept : wrap64 (whole_seconds (sub_time now rl.last_time) *ℤ rl.rate)
        ≡ pos (gap now rl * pos_part rl.rate) =
      rw product (wrap64_id _ (omega arith) (omega arith)) in
    let kept_sum : wrap64 (rl.tokens +ℤ pos (gap now rl * pos_part rl.rate))
        ≡ rl.tokens +ℤ pos (gap now rl * pos_part rl.rate) =
      wrap64_id _ (omega int_laws) (omega int_laws) in
    rw (kept, kept_sum)
      (capped rl.max_burst rl.tokens (gap now rl * pos_part rl.rate) v.tokens_nonneg
        v.tokens_bounded (omega arith))

-- One call keeps the limiter valid, and pays for itself with a token.
allow-IsValid :
    (now : Time) (rl : RateLimiter)
    → IsValid rl
    → Forward rl now
    → IsValid (allow now rl).0
      × (pos_part (allow now rl).0.tokens + (if (allow now rl).1 then 1 else 0)
          ≤ pos_part rl.tokens + gap now rl * pos_part rl.rate)
      × ((allow now rl).0.rate ≡ rl.rate)
      × ((allow now rl).0.last_time ≡ now)
unfolding allow
allow-IsValid now rl v f =
    let (capped, nonneg, bounded, grown) = refilled-eq now rl v f in
    ground (arith, wrap64_id (refilled now rl -ℤ pos 1), -ℤ_parts (refilled now rl) (pos 1))

-- The calls come at growing instants of the monotonic clock.
abbrev pub Growing : Time → List Time → Type 0
Growing last [] = Unit
Growing last (now ∷ rest) = (pos 0 ≤ℤ sub_time now last) × Growing now rest

-- The whole seconds between consecutive calls, added up.
unfoldable pub whole_gaps : Time → List Time → ℕ
whole_gaps last [] = 0
whole_gaps last (now ∷ rest) = pos_part (whole_seconds (sub_time now last)) + whole_gaps now rest

add_round :
    (b : Bool) (n paid tokens g rest r : ℕ)
    → n ≤ paid + rest * r
    → paid + (if b then 1 else 0) ≤ tokens + g * r
    → (if b then suc n else n) ≤ tokens + (g + rest) * r
add_round true n paid tokens g rest r h k = grind arith
add_round false n paid tokens g rest r h k = grind arith

-- A valid limiter lets through no more calls than it has tokens, and the rate for each whole second
-- between two consecutive calls.
pub allow_all-le :
    (times : List Time) (rl : RateLimiter)
    → IsValid rl
    → Growing rl.last_time times
    → (allow_all times rl).1 ≤ pos_part rl.tokens + whole_gaps rl.last_time times * pos_part rl.rate
unfolding allow_all whole_gaps
allow_all-le [] rl v g = omega arith
allow_all-le (now ∷ rest) rl v g =
    let (next, paid, same_rate, last) = allow-IsValid now rl v g.0 in
    let ih = allow_all-le rest (allow now rl).0 next (rw last g.1) in
    let ih' : (allow_all rest (allow now rl).0).1
        ≤ pos_part (allow now rl).0.tokens + whole_gaps now rest * pos_part rl.rate =
      ground (arith, ih, same_rate, last) in
    add_round (allow now rl).1 _ _ _ _ _ (pos_part rl.rate) ih' paid
