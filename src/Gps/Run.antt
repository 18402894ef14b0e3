-- ===== src/Gps/Run.antt =====
-- The loop of main in cmd/gps-broadcaster/main.go, one step per event of its select; what a step
-- reads from the outside comes with the event. Flags, the signal handler and log lines are left out.
use disco.Base.{
  Str, ℕ, pos, suc, Bool, true, false, not, ◌&&◌, List, [], ◌∷◌, ◌++◌, Option, none, some,
  if◌then◌else◌,
}
use disco.Clock.{Time, Duration}
use disco.Timesync.Floats.{Floats}
use disco.Timesync.Sources.{TimeAnnounceMessage}
use disco.Discovery.Interfaces.{Interface}
use disco.Gps.Scan.{Scanned, scanned, ◌>>=◌}
use disco.Gps.Backoff.{BackoffManager, new_backoff_manager, next_interval}
use disco.Gps.Reader.{GpsReader, new_gps_reader, parse_nmea}
use disco.Gps.Broadcaster.{Broadcaster, broadcast}

-- A tick of the read loop with the line, which is `none` if the deadline or the read fails; the
-- broadcast timer, with the clock, whether a write works, and the interfaces.
pub data Event : Type 0 where
  read_tick : Option Str → Event
  broadcast_timer : Time → Bool → Option (List Interface) → Event

-- The variables of the loop, and the time until the broadcast timer fires.
pub record Loop : Type 0 where
  pub gps : GpsReader
  pub backoff : BackoffManager
  pub last_logged_fix : Bool
  pub check_count : ℕ
  pub timer : Duration

unfoldable pub start : Loop
start = record {
  gps = new_gps_reader;
  backoff = new_backoff_manager;
  last_logged_fix = false;
  check_count = 0;
  timer = pos 10000000000;
}

-- The packets that a step sends, each with its addresses.
abbrev pub Packets : Type 0
Packets = List (Str × List Str)

abbrev pub sent : Option (Str × List Str) → Packets
sent none = []
sent (some p) = p ∷ []

-- The variable that says which change of the fix was logged last; only `-v` logs.
unfoldable pub logged : Bool → Bool → Bool → Bool
logged verbose has_fix last =
    if has_fix && not last && verbose
    then true
    else if not has_fix && last && verbose
    then false
    else last

module _ (fl : Floats) (scan_float : Str → Option fl.Float) (encode : TimeAnnounceMessage fl → Str)
    (resolves : Str → Bool) (verbose : Bool) (broadcaster : Broadcaster) where
  unfoldable pub check : Time → Bool → Option (List Interface) → Loop → Loop × Packets
  unfolding logged
  check now writes system s =
      let has_fix = s.gps.has_fix in
      let packets =
        if has_fix
        then sent (broadcast fl encode writes system resolves now s.gps.gps_time broadcaster)
        else [] in
      let (backoff, wait) = next_interval has_fix s.gps.satellites s.backoff in
      (
        record s {
          backoff = backoff;
          last_logged_fix = logged verbose has_fix s.last_logged_fix;
          check_count = suc s.check_count;
          timer = wait;
        },
        packets,
      )

  unfoldable pub step : Event → Loop → Scanned (Loop × Packets)
  unfolding check
  step (read_tick none) s = scanned (s, [])
  step (read_tick (some line)) s = do
    gps ← parse_nmea fl scan_float line s.gps
    scanned (record s { gps = gps }, [])
  step (broadcast_timer now writes system) s = scanned (check now writes system s)

  unfoldable pub run : List Event → Loop → Scanned (Loop × Packets)
  unfolding step
  run [] s = scanned (s, [])
  run (e ∷ es) s = do (s', ps) ← step e s; (s'', qs) ← run es s'; scanned (s'', ps ++ qs)
