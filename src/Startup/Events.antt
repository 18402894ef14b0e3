-- ===== src/Startup/Events.antt =====
-- The daemon of internal/daemon/daemon.go once it runs: what its goroutines do, one event at a time,
-- to the store and the other parts that they share.
use disco.Base.{
  Str, ℤ, List, [], ◌∷◌, Option, none, some, if◌then◌else◌, Bool, true, false, all, ltb_ℤ, pos,
}
use disco.Base.Options.{◌>>=◌}
use disco.Clock.{Time}
use disco.Timesync.Floats.{Floats}
use disco.Timesync.Service.{System as TimeSystem, TimeSyncService, evaluate_and_adjust}
use disco.Protocol.{Query, QueryType, Response, ResponseType}
use disco.Discovery.{Codec}
use disco.Discovery.Announcer.{broadcast}
use disco.Discovery.Interfaces.{Interface}
use disco.RateLimit.{cleanup}
use disco.Detector.{scan}
use disco.Socket.{Announce}
use disco.Socket.Handlers.{handle_query}
use disco.Store.{cleanup_expired_records}
use disco.Daemon.{Daemon, ServiceConfig, announce_service}
use disco.Startup.{System, socket_of}
use disco.Startup.Tickers.{tickers}
use disco.Startup.Run.{on_packet, update_service_announcements}

-- A packet that the listener reads (it reads none while it waits to send on a full channel, see
-- Discovery.Channels; a message that is sent is taken at once here), a query at the socket with what the system answers to a forced update,
-- the ticks of the cleanup, of updateServiceAnnouncements, of the duplicate filter, of the announcer
-- and of the time service, and a scan with the ports that are open.
pub data Event (fl : Floats) : Type 0 where
  packet : Time → Str → Event fl
  query : Time → Query → TimeSystem fl → Event fl
  cleanup_tick : Time → Event fl
  announcements_tick : Event fl
  scan_tick : (ℤ → Option Str) → Event fl
  filter_tick : Time → Event fl
  broadcast_tick : Time → Event fl
  sync_tick : Time → TimeSystem fl → Event fl

-- What an announcement finds: the interfaces, the addresses that resolve, and the random text of a
-- signature.
module _ {fl : Floats} (codec : Codec fl) (ifaces : Option (List Interface)) (resolves : Str → Bool)
    (text : Option Str) where
  -- The daemon after AnnounceService.
  unfoldable pub announcing : Time → Query → Daemon → Daemon
  announcing now q d =
      (announce_service codec ifaces resolves text now
        (record { name = q.name; port = q.port; aliases = q.aliases }) d).0

  -- The callback that Run gives to the socket server, as to the store; it never fails.
  unfoldable pub callback : Time → Daemon → Announce
  unfolding announcing
  callback now d name port aliases store =
      let svc : ServiceConfig = record { name = name; port = port; aliases = aliases } in
      (
        (announce_service codec ifaces resolves text now svc (record d { store = store })).0.store,
        none,
      )

  -- The callback was called: a SERVICE_ANNOUNCE that is answered with OK.
  unfoldable pub is_announced : Query → Response fl → Bool
  is_announced q r = elim q.query_type [
    | QueryType.service_announce ↦ elim r.response_type [
      | ResponseType.response_ok ↦ true
      | _ ↦ false
    ]
    | _ ↦ false
  ]

  -- A query on the socket that is decoded in time, with its answer; another connection changes
  -- nothing. `none` is a panic, which ends the daemon.
  unfoldable pub on_query :
      Time → Query → TimeSystem fl → System fl → Option (System fl × Response fl)
  unfolding callback is_announced announcing
  on_query now q sys s =
      elim (handle_query fl now q sys (some (callback now s.daemon)) (socket_of fl s)) [
        | none ↦ none
        | some (srv, r) ↦
            let d = if is_announced q r then announcing now q s.daemon else s.daemon in
            some
              (record s { daemon = record d { store = srv.store }; time_sync = srv.time_sync }, r)
      ]

  -- A tick of the time service, if there is one; `none` is a panic.
  unfoldable pub on_sync :
      Time → TimeSystem fl → System fl → Option (TimeSyncService fl) → Option (System fl)
  on_sync now sys s none = some s
  on_sync now sys s (some ts) = do
    p ← evaluate_and_adjust fl sys now ts
    some (record s { time_sync = some p.0 })

  unfoldable pub on_event : Event fl → System fl → Option (System fl)
  unfolding on_query on_sync
  on_event (packet now bytes_read) s = some (on_packet codec now bytes_read s).0
  on_event (query now q sys) s = do p ← on_query now q sys s; some p.0
  on_event (cleanup_tick now) s =
      some (record s {
        daemon = record s.daemon { store = cleanup_expired_records now s.daemon.store };
      })
  on_event announcements_tick s = some (update_service_announcements s)
  on_event (scan_tick check) s =
      some
        (record s { detector = elim s.detector [ none ↦ none | some det ↦ some (scan check det) ] })
  on_event (filter_tick now) s = some (record s {
    listener = elim s.listener [
      | none ↦ none
      | some l ↦ some (record l { duplicate_filter = cleanup now l.duplicate_filter })
    ];
  })
  on_event (broadcast_tick now) s = some (record s {
    daemon = record s.daemon {
      announcer = elim s.daemon.announcer [
        | none ↦ none
        | some a ↦ some (broadcast codec ifaces resolves text now a).0
      ];
    };
  })
  on_event (sync_tick now sys) s = on_sync now sys s s.time_sync

  unfoldable pub on_events : List (Event fl) → System fl → Option (System fl)
  unfolding on_event
  on_events [] s = some s
  on_events (e ∷ es) s = do s' ← on_event e s; on_events es s'

  -- The daemon from the start of its goroutines on: `none` is a panic, of time.NewTicker at an
  -- interval that is not positive, or of an event.
  unfoldable pub run_goroutines : List (Event fl) → System fl → Option (System fl)
  unfolding on_events tickers
  run_goroutines es s =
      if all (λ interval. ltb_ℤ (pos 0) interval) (tickers s) then on_events es s else none
