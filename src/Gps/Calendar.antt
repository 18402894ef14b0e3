-- ===== src/Gps/Calendar.antt =====
-- time.Date in UTC, with its normalisation of values out of range: years, months and days of the
-- Gregorian calendar.
use disco.Base.{
  ℕ, ℤ, pos, negsuc, zero, suc, Bool, not, ◌&&◌, ◌||◌, if◌then◌else◌, ◌+ℤ◌, ◌-ℤ◌, scale, ◌/◌, ◌%◌,
  ◌-◌, ◌==◌, ltb, wrap64, List, [], ◌∷◌,
}
use disco.Clock.{Time}

-- Division that rounds down, and what remains.
unfoldable pub floor_div : ℤ → ℕ → ℤ
floor_div (pos n) k = pos (n / k)
floor_div (negsuc n) k = negsuc (n / k)

unfoldable pub floor_mod : ℤ → ℕ → ℕ
floor_mod (pos n) k = n % k
floor_mod (negsuc n) k = k - 1 - n % k

unfoldable pub is_leap : ℤ → Bool
unfolding floor_mod
is_leap year =
    (floor_mod year 4 == 0) && (not (floor_mod year 100 == 0) || (floor_mod year 400 == 0))

-- The days from the first of January of the year 1 to that of the year.
unfoldable pub days_before_year : ℤ → ℤ
unfolding floor_div
days_before_year year =
    let y = year -ℤ pos 1 in scale 365 y +ℤ floor_div y 4 -ℤ floor_div y 100 +ℤ floor_div y 400

-- The days of a common year before each month, and their entry for a month counted from zero.
abbrev pub month_starts : List ℕ
month_starts = 0 ∷ 31 ∷ 59 ∷ 90 ∷ 120 ∷ 151 ∷ 181 ∷ 212 ∷ 243 ∷ 273 ∷ 304 ∷ 334 ∷ []

abbrev pub entry : ℕ → List ℕ → ℕ
entry i [] = 0
entry zero (n ∷ ns) = n
entry (suc i) (n ∷ ns) = entry i ns

-- The days from 1970-01-01 to a date; 719162 days lie before 1970.
unfoldable pub days_from_epoch : ℤ → ℤ → ℤ → ℤ
unfolding days_before_year is_leap floor_div floor_mod
days_from_epoch year month day =
    let m = month -ℤ pos 1 in
    let y = year +ℤ floor_div m 12 in
    let leap_day = if is_leap y && ltb 1 (floor_mod m 12) then 1 else 0 in
    days_before_year y
    +ℤ pos (entry (floor_mod m 12) month_starts)
    +ℤ pos leap_day
    +ℤ day
    -ℤ pos 719163

-- `time.Date(year, month, day, hour, min, sec, nsec, time.UTC)`
unfoldable pub date : ℤ → ℤ → ℤ → ℤ → ℤ → ℤ → ℤ → Time
unfolding days_from_epoch floor_div floor_mod
date year month day hour minute sec nsec = record {
  sec = wrap64 (
      scale 86400 (days_from_epoch year month day)
      +ℤ scale 3600 hour
      +ℤ scale 60 minute
      +ℤ sec
      +ℤ floor_div nsec 1000000000);
  nsec = floor_mod nsec 1000000000;
}
