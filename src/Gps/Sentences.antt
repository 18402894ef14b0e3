-- ===== src/Gps/Sentences.antt =====
-- What the sentences of a receiver do to the state of the GPS reader.
use disco.Base.{
  Str, Str_eq, bytes, ℤ, true, false, Bool, ◌||◌, List, [], ◌∷◌, Option, ◌≡◌, refl, arith, ◌⊎◌, inl,
  inr, ltb, length, if◌then◌else◌, Bool-cases, ◌≤◌, ◌≟◌, ◌≢◌, ◌∙◌, ap, str_eq_iff, pos,
}
use disco.Clock.{Time}
use disco.Timesync.Floats.{Floats}
use disco.Gps.Scan.{
  Scanned, scanned, scan_error, panicked, split_on, field, front, back, slice, scan_int,
}
use disco.Gps.Reader.{
  GpsReader, scan_seconds, parse_gps_time, take_time, parse_rmc, with_time, or_zero,
  satellite_count, parse_gga, is_sentence, parse_fields, parse_nmea,
}
use disco.Gps.Safe.{
  >>=-Safe, Safe, back-Safe, front-Safe, slice-Safe, scan_int-Safe, or_error-Safe, field-Value,
  scanning-Safe,
}

module _ (fl : Floats) (scan_float : Str → Option fl.Float) where
  scan_seconds-Safe : (s : Str) → Safe (scan_seconds fl scan_float s)
  unfolding scan_seconds
  scan_seconds-Safe s = or_error-Safe (scan_float s)

  -- The slices of the two texts lie within them.
  parse_gps_time-Safe :
      (date_text time_text : Str)
      → 6 ≤ length date_text
      → 6 ≤ length time_text
      → Safe (parse_gps_time fl scan_float date_text time_text)
  unfolding parse_gps_time
  parse_gps_time-Safe d t h k = scanning-Safe (front 2 d) _ (front-Safe 2 d (omega arith)) λ day.
      scanning-Safe (slice 2 4 d) _ (slice-Safe 2 4 d (omega arith) (omega arith)) λ month.
        scanning-Safe (slice 4 6 d) _ (slice-Safe 4 6 d (omega arith) h) λ year.
          scanning-Safe (front 2 t) _ (front-Safe 2 t (omega arith)) λ hour.
            scanning-Safe (slice 2 4 t) _ (slice-Safe 2 4 t (omega arith) (omega arith)) λ minute.
              >>=-Safe (back 4 t) _ (back-Safe 4 t (omega arith))
                λ s. >>=-Safe (scan_seconds fl scan_float s) _ (scan_seconds-Safe s) λ sec. tt

  -- What a sentence can do: nothing to the fix and its time, the loss of the fix by a status that
  -- is not active, or a fix with the time of an active sentence.
  abbrev pub Effect : List Str → GpsReader → GpsReader → Type 0
  Effect fields g g' =
      ((g'.has_fix ≡ g.has_fix) × (g'.gps_time ≡ g.gps_time))
      ⊎ (((status : Str) × (field 2 fields ≡ scanned status)
            × (status ≢ bytes "A")
            × (g'.has_fix ≡ false)
            × (g'.gps_time ≡ g.gps_time))
          ⊎ ((date_text : Str) × (time_text : Str) × (field 2 fields ≡ scanned (bytes "A"))
              × (field 9 fields ≡ scanned date_text)
              × (field 1 fields ≡ scanned time_text)
              × (g'.has_fix ≡ true)
              × (parse_gps_time fl scan_float date_text time_text ≡ scanned g'.gps_time)))

  Done : List Str → GpsReader → Scanned GpsReader → Type 0
  Done fields g m = (g' : GpsReader) × (m ≡ scanned g') × Effect fields g g'

  -- The same, of the time texts of an active sentence.
  abbrev Taken : Str → Str → GpsReader → GpsReader → Type 0
  Taken d t g g' =
      ((g'.has_fix ≡ g.has_fix) × (g'.gps_time ≡ g.gps_time))
      ⊎ ((g'.has_fix ≡ true) × (parse_gps_time fl scan_float d t ≡ scanned g'.gps_time))

  with_time-Value :
      (d t : Str) (g : GpsReader) (m : Scanned Time)
      → parse_gps_time fl scan_float d t ≡ m
      → Safe m
      → (g' : GpsReader) × (with_time fl scan_float g m ≡ scanned g') × Taken d t g g'
  unfolding with_time
  with_time-Value d t g (scanned at) e h = (_, refl, inr (refl, e))
  with_time-Value d t g scan_error e h = (g, refl, inl (refl, refl))
  with_time-Value d t g panicked e h = elim h [ ]

  take_time-Value :
      (d t : Str) (g : GpsReader)
      → (g' : GpsReader) × (take_time fl scan_float d t g ≡ scanned g') × Taken d t g g'
  unfolding take_time
  take_time-Value d t g = elim (Bool-cases (ltb (length d) 6 || ltb (length t) 6)) [
    | inl short ↦ (g, rw short refl, inl (refl, refl))
    | inr long ↦
        let (g', e, taken) =
          with_time-Value d t g (parse_gps_time fl scan_float d t) refl
            (parse_gps_time-Safe d t (ground arith) (ground arith)) in
        (g', rw (long, e) refl, taken)
  ]

  Done-of_Taken :
      (fields : List Str) (d t : Str) (g g' : GpsReader)
      → field 2 fields ≡ scanned (bytes "A")
      → field 9 fields ≡ scanned d
      → field 1 fields ≡ scanned t
      → Taken d t g g'
      → Effect fields g g'
  Done-of_Taken fields d t g g' active dated timed (inl same) = inl same
  Done-of_Taken fields d t g g' active dated timed (inr (fix, e)) =
      inr (inr (d, t, active, dated, timed, fix, e))

  parse_rmc-Done :
      (fields : List Str) (g : GpsReader) → Done fields g (parse_rmc fl scan_float fields g)
  unfolding parse_rmc Done
  parse_rmc-Done fields g = elim (Bool-cases (ltb (length fields) 10)) [
    | inl short ↦ (g, rw short refl, inl (refl, refl))
    | inr long ↦
        let (status, e) = field-Value 2 fields (ground arith) in
        let (d, dated) = field-Value 9 fields (ground arith) in
        let (t, timed) = field-Value 1 fields (ground arith) in
        elim (Bool-cases (status ≟ bytes "A")) [
          | inl active ↦
              let (g', taken, effect) = take_time-Value d t g in
              (
                g',
                rw (long, e, active, dated, timed) taken,
                Done-of_Taken fields d t g g'
                    (e ∙ ap scanned ((str_eq_iff status (bytes "A")).0 active)) dated timed effect,
              )
          | inr other ↦ (
            record g { has_fix = false },
            rw (long, e, other) refl,
            inr (
                inl (
                  status,
                  e,
                  (λ same. absurd (ground (arith, (str_eq_iff status (bytes "A")).1 same))),
                  refl,
                  refl,
                )),
          )
        ]
  ]

  or_zero-Safe : (m : Scanned ℤ) → Safe m → (n : ℤ) × (or_zero m ≡ scanned n)
  unfolding or_zero
  or_zero-Safe (scanned n) h = (n, refl)
  or_zero-Safe scan_error h = (pos 0, refl)
  or_zero-Safe panicked h = elim h [ ]

  parse_gga-Done : (fields : List Str) (g : GpsReader) → Done fields g (parse_gga fields g)
  unfolding parse_gga Done satellite_count
  parse_gga-Done fields g = elim (Bool-cases (ltb (length fields) 8)) [
    | inl short ↦ (g, rw short refl, inl (refl, refl))
    | inr long ↦
        let (quality, e) = field-Value 6 fields (ground arith) in
        let (text, counted) = field-Value 7 fields (ground arith) in
        let (n, f) = or_zero-Safe (scan_int text) (scan_int-Safe text) in
        elim (Bool-cases (quality ≟ bytes "0")) [
          | inl none_yet ↦ (g, rw (long, e, none_yet) refl, inl (refl, refl))
          | inr fix ↦
              (record g { satellites = n }, rw (long, e, fix, counted, f) refl, inl (refl, refl))
        ]
  ]

  if-Done :
      (fields : List Str) (g : GpsReader) (b : Bool) (m n : Scanned GpsReader)
      → Done fields g m
      → Done fields g n
      → Done fields g (if b then m else n)
  if-Done fields g true m n h k = h
  if-Done fields g false m n h k = k

  unchanged-Done : (fields : List Str) (g : GpsReader) → Done fields g (scanned g)
  unfolding Done
  unchanged-Done fields g = (g, refl, inl (refl, refl))

  parse_fields-Done :
      (fields : List Str) (g : GpsReader) → Done fields g (parse_fields fl scan_float fields g)
  unfolding parse_fields
  parse_fields-Done [] g = unchanged-Done [] g
  parse_fields-Done (f ∷ fields) g =
      if-Done (f ∷ fields) g _ _ _ (parse_rmc-Done (f ∷ fields) g) (
        if-Done (f ∷ fields) g _ _ _ (parse_gga-Done (f ∷ fields) g)
          (unchanged-Done (f ∷ fields) g))

  -- Every line is parsed without a panic. It leaves the fix and its time, or takes the fix away
  -- because the status is not active, or sets the fix and the time that the date and the time of an
  -- active sentence stand for.
  pub parse_nmea-Effect :
      (line : Str) (g : GpsReader)
      → (g' : GpsReader) × (parse_nmea fl scan_float line g ≡ scanned g')
        × Effect (split_on 44 line) g g'
  unfolding parse_nmea Done
  parse_nmea-Effect line g =
      if-Done (split_on 44 line) g (is_sentence line) _ _ (parse_fields-Done (split_on 44 line) g)
        (unchanged-Done (split_on 44 line) g)
