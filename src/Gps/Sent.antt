-- ===== src/Gps/Sent.antt =====
-- What the loop of the GPS broadcaster (cmd/gps-broadcaster/main.go) sends.
use disco.Base.{
  Str, Str_eq, bytes, true, false, Bool, List, [], ◌∷◌, ◌++◌, Option, none, some, ◌≡◌, refl, sym,
  ap, ◌∙◌, subst, inl, inr, In, here, there, if◌then◌else◌, In-append-cases, arith,
}
use disco.Clock.{Time}
use disco.Timesync.Floats.{Floats}
use disco.Timesync.Sources.{TimeAnnounceMessage}
use disco.Discovery.Interfaces.{Interface}
use disco.Gps.Scan.{scanned, split_on, field}
use disco.Gps.Reader.{GpsReader, new_gps_reader, parse_gps_time}
use disco.Gps.Broadcaster.{Broadcaster, broadcast, time_message}
use disco.Gps.Run.{Event, read_tick, broadcast_timer, Loop, start, Packets, sent, check, step, run}
use disco.Gps.Sentences.{Effect, parse_nmea-Effect}

-- The lines that the events bring.
abbrev pub lines_read : List Event → List Str
lines_read [] = []
lines_read (read_tick none ∷ es) = lines_read es
lines_read (read_tick (some line) ∷ es) = line ∷ lines_read es
lines_read (broadcast_timer now writes system ∷ es) = lines_read es

module _ (fl : Floats) (scan_float : Str → Option fl.Float) (encode : TimeAnnounceMessage fl → Str)
    (resolves : Str → Bool) (verbose : Bool) (broadcaster : Broadcaster) where
  -- The line is an active sentence, whose date and time stand for the time.
  abbrev pub IsActive : Str → Time → Type 0
  IsActive line t =
      (date_text : Str) × (time_text : Str) × (field 2 (split_on 44 line) ≡ scanned (bytes "A"))
      × (field 9 (split_on 44 line) ≡ scanned date_text)
      × (field 1 (split_on 44 line) ≡ scanned time_text)
      × (parse_gps_time fl scan_float date_text time_text ≡ scanned t)

  module _ (Read : Str → Type 0) where
    -- A fix comes from an active sentence among the lines read.
    abbrev Justified : Bool → Time → Type 0
    Justified has_fix t = has_fix ≡ true → (line : Str) × Read line × IsActive line t

    -- The packet is the message of a time that an active sentence stands for.
    abbrev pub FromReceiver : Str × List Str → Type 0
    FromReceiver p =
        (now : Time) × (t : Time) × (line : Str) × Read line
        × IsActive line t
        × (p.0 ≡ encode (time_message fl now t broadcaster))

    Justified-parse_nmea :
        (line : Str) (g g' : GpsReader)
        → Read line
        → Justified g.has_fix g.gps_time
        → Effect fl scan_float (split_on 44 line) g g'
        → Justified g'.has_fix g'.gps_time
    Justified-parse_nmea line g g' r j (inl (fix, same)) h =
        let (old, s, a) = j (sym fix ∙ h) in (old, s, subst (IsActive old) (sym same) a)
    Justified-parse_nmea line g g' r j (inr (inl (status, e, other, lost, same))) h =
        absurd (ground arith)
    Justified-parse_nmea line g g' r j (inr (inr (d, t, active, dated, timed, fix, e))) h =
        (line, r, (d, t, active, dated, timed, e))

    -- The sent packet of a check, if there is one.
    FromReceiver-broadcast :
        (has_fix writes : Bool) (system : Option (List Interface)) (now t : Time)
        → Justified has_fix t
        → (p : Str × List Str)
        → In p (
            if has_fix
            then sent (broadcast fl encode writes system resolves now t broadcaster)
            else [])
        → FromReceiver p
    unfolding broadcast
    FromReceiver-broadcast true true system now t j p (here e) =
        let (line, r, a) = j refl in (now, t, line, r, a, ap (λ x. x.0) e)
    FromReceiver-broadcast true true system now t j p (there i) = elim i [ ]
    FromReceiver-broadcast true false system now t j p i = elim i [ ]
    FromReceiver-broadcast false writes system now t j p i = elim i [ ]

    -- What a run gives: a state, and packets that come from the receiver.
    abbrev Runs : List Event → Loop → Type 0
    Runs es s =
        (s' : Loop) × (ps : Packets) × (run fl scan_float encode resolves verbose broadcaster es s
          ≡ scanned (s', ps))
        × ((p : Str × List Str) → In p ps → FromReceiver p)

    Runs-all :
        (es : List Event) (s : Loop)
        → ((line : Str) → In line (lines_read es) → Read line)
        → Justified s.gps.has_fix s.gps.gps_time
        → Runs es s
    unfolding run
    Runs-all [] s known j = (s, [], refl, λ p i. elim i [ ])
    Runs-all (read_tick none ∷ es) s known j =
        let (s', ps, e, from) = Runs-all es s known j in (s', ps, rw (step, e) refl, from)
    Runs-all (read_tick (some line) ∷ es) s known j =
        let (g, parsed, effect) = parse_nmea-Effect fl scan_float line s.gps in
        let (s', ps, e, from) =
          Runs-all es (record s { gps = g }) (λ l i. known l (there i))
            (Justified-parse_nmea line s.gps g (known line (here refl)) j effect) in
        (s', ps, rw (step, parsed, e) refl, from)
    Runs-all (broadcast_timer now writes system ∷ es) s known j =
        let checked = check fl scan_float encode resolves verbose broadcaster now writes system s in
        let (s', ps, e, from) = Runs-all es checked.0 known j in
        (
          s',
          checked.1 ++ ps,
          rw (step, e) refl,
          λ p i. elim (In-append-cases p checked.1 ps i) [
            | inl k ↦ FromReceiver-broadcast s.gps.has_fix writes system now s.gps.gps_time j p k
            | inr k ↦ from p k
          ],
        )

  -- From the start, any sequence of ticks and timers runs to its end without a panic, and every
  -- packet that is sent is the message of a time that an active sentence among the lines read
  -- stands for.
  pub run-FromReceiver :
      (es : List Event)
      → (s : Loop) × (ps : Packets) × (run fl scan_float encode resolves verbose broadcaster es
            start
          ≡ scanned (s, ps))
        × ((p : Str × List Str) → In p ps → FromReceiver (λ line. In line (lines_read es)) p)
  unfolding start new_gps_reader
  run-FromReceiver es =
      Runs-all (λ line. In line (lines_read es)) es start (λ line i. i) λ h. absurd (ground arith)
