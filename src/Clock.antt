-- ===== src/Clock.antt =====
-- The parts of package time that the code uses: wall-clock instants (time.Time), differences
-- (time.Duration, int64 nanoseconds) and whole seconds.
use disco.Base.{
  ℕ, ℤ, pos, ◌+ℤ◌, ◌-ℤ◌, scale, clamp64, ◌/◌, pos_part, neg_part, sub_ℕ, negsuc, ◌%◌, ◌-◌,
}

-- Seconds since 1970, and nanoseconds within the second.
pub record Time : Type 0 where
  pub sec : ℤ
  pub nsec : ℕ

-- A time.Duration: a number of nanoseconds.
abbrev pub Duration : Type 0
Duration = ℤ

-- `time.Unix(s, 0)`
abbrev pub unix_time : ℤ → Time
unix_time s = record { sec = s; nsec = 0 }

-- `t.Unix()`
abbrev pub unix : Time → ℤ
unix t = t.sec

-- Nanoseconds from `b` to `a`.
unfoldable pub nanos_between : Time → Time → ℤ
nanos_between a b = scale 1000000000 (a.sec -ℤ b.sec) +ℤ pos a.nsec -ℤ pos b.nsec

-- `a.Sub(b)`; `time.Since(b)` at the instant `a`.
unfoldable pub sub_time : Time → Time → Duration
unfolding nanos_between
sub_time a b = clamp64 (nanos_between a b)

abbrev pub second : ℕ
second = 1000000000

-- `int(d.Seconds())`: whole seconds, truncated towards zero.
unfoldable pub whole_seconds : Duration → ℤ
whole_seconds d = sub_ℕ (pos_part d / second) (neg_part d / second)

-- `time.Unix(0, n)`
unfoldable pub unix_nanos : ℤ → Time
unix_nanos (pos n) = record { sec = pos (n / second); nsec = n % second }
unix_nanos (negsuc n) = record { sec = negsuc (n / second); nsec = second - 1 - n % second }

-- `t.Add(d)`
unfoldable pub add_time : Time → Duration → Time
add_time t d =
    let whole = unix_nanos (pos t.nsec +ℤ d) in
    record { sec = t.sec +ℤ whole.sec; nsec = whole.nsec }

-- The zero time.Time, of the year 1, in seconds before 1970.
abbrev pub zero_time : Time
zero_time = record { sec = negsuc 62135596799; nsec = 0 }
