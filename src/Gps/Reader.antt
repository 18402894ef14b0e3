-- ===== src/Gps/Reader.antt =====
-- The GPSReader of cmd/gps-broadcaster/main.go: the NMEA sentences of the receiver. The device is an
-- argument of the program's loop; the conversion of %f is a parameter, since floats are abstract.
use disco.Base.{
  Str, Str_eq, bytes, ℤ, pos, Bool, true, false, not, ◌&&◌, ◌||◌, List, [], ◌∷◌, Option,
  if◌then◌else◌, ltb, ltb_ℤ, length, ◌≟◌, ◌+ℤ◌,
}
use disco.Clock.{Time, zero_time}
use disco.Timesync.Floats.{Floats}
use disco.Gps.Scan.{
  Scanned, scanned, scan_error, panicked, ◌>>=◌, split_on, field, front, back, slice, scan_int,
  or_error,
}
use disco.Gps.Calendar.{date}

pub record GpsReader : Type 0 where
  pub has_fix : Bool
  pub gps_time : Time
  pub satellites : ℤ

unfoldable pub new_gps_reader : GpsReader
new_gps_reader = record { has_fix = false; gps_time = zero_time; satellites = pos 0 }

-- Two-digit years above 80 are of the last century.
unfoldable pub full_year : ℤ → ℤ
full_year year = if ltb_ℤ (pos 80) year then pos 1900 +ℤ year else pos 2000 +ℤ year

-- A count of satellites that is no number is zero.
unfoldable pub or_zero : Scanned ℤ → Scanned ℤ
or_zero (scanned n) = scanned n
or_zero scan_error = scanned (pos 0)
or_zero panicked = panicked

unfoldable pub satellite_count : Str → Scanned ℤ
unfolding or_zero
satellite_count s = or_zero (scan_int s)

unfoldable pub parse_gga : List Str → GpsReader → Scanned GpsReader
unfolding satellite_count
parse_gga fields g = if ltb (length fields) 8 then scanned g else (do
  quality ← field 6 fields
  if quality ≟ bytes "0"
      then scanned g
      else (do sats ← satellite_count (← field 7 fields); scanned (record g { satellites = sats })))

unfoldable pub is_sentence : Str → Bool
is_sentence [] = false
is_sentence (c ∷ s) = not (ltb (length (c ∷ s)) 6) && ((c ∷ []) ≟ bytes "$")

module _ (fl : Floats) (scan_float : Str → Option fl.Float) where
  unfoldable pub scan_seconds : Str → Scanned fl.Float
  scan_seconds s = or_error (scan_float s)

  -- `int((second - float64(int(second))) * 1e9)`
  unfoldable pub nanoseconds : fl.Float → ℤ
  nanoseconds second = fl.to_int (fl.mul (fl.sub second (fl.of_int (fl.to_int second))) fl.giga)

  unfoldable pub parse_gps_time : Str → Str → Scanned Time
  unfolding scan_seconds slice full_year nanoseconds
  parse_gps_time date_text time_text = do
    day ← scan_int (← front 2 date_text)
    month ← scan_int (← slice 2 4 date_text)
    year ← scan_int (← slice 4 6 date_text)
    hour ← scan_int (← front 2 time_text)
    minute ← scan_int (← slice 2 4 time_text)
    sec ← scan_seconds (← back 4 time_text)
    scanned (date (full_year year) month day hour minute (fl.to_int sec) (nanoseconds sec))

  -- The state once the time is parsed: a time that is not parsed leaves it.
  unfoldable pub with_time : GpsReader → Scanned Time → Scanned GpsReader
  with_time g (scanned t) = scanned (record g { has_fix = true; gps_time = t })
  with_time g scan_error = scanned g
  with_time g panicked = panicked

  -- The texts of the date and the time, once the status is active.
  unfoldable pub take_time : Str → Str → GpsReader → Scanned GpsReader
  unfolding with_time
  take_time date_text time_text g =
      if ltb (length date_text) 6 || ltb (length time_text) 6
      then scanned g
      else with_time g (parse_gps_time date_text time_text)

  unfoldable pub parse_rmc : List Str → GpsReader → Scanned GpsReader
  unfolding take_time
  parse_rmc fields g = if ltb (length fields) 10 then scanned g else (do
    status ← field 2 fields
    if not (status ≟ bytes "A") then scanned (record g { has_fix = false }) else (do
      date_text ← field 9 fields
      time_text ← field 1 fields
      take_time date_text time_text g))

  unfoldable pub parse_fields : List Str → GpsReader → Scanned GpsReader
  unfolding parse_rmc parse_gga
  parse_fields [] g = scanned g
  parse_fields (sentence ∷ fields) g =
      if (sentence ≟ bytes "$GPRMC") || (sentence ≟ bytes "$GNRMC")
      then parse_rmc (sentence ∷ fields) g
      else if (sentence ≟ bytes "$GPGGA") || (sentence ≟ bytes "$GNGGA")
      then parse_gga (sentence ∷ fields) g
      else scanned g

  unfoldable pub parse_nmea : Str → GpsReader → Scanned GpsReader
  unfolding is_sentence parse_fields
  parse_nmea line g = if is_sentence line then parse_fields (split_on 44 line) g else scanned g

  unfoldable pub get_state : GpsReader → Time × Bool × ℤ
  get_state g = (g.gps_time, g.has_fix, g.satellites)
