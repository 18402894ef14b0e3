-- ===== src/Startup/Tickers.antt =====
-- The tickers of a running daemon: time.NewTicker of NewRecordStore's cleanup (internal/daemon/store.go),
-- of the announcer and the duplicate filter (internal/discovery), of the detector
-- (internal/service/detector.go), of updateServiceAnnouncements (internal/daemon/daemon.go) and of the
-- time service (internal/timesync/service.go). NewTicker panics at an interval that is not positive.
pub mod Configured
use disco.Base.{
  Str, bytes, Bool, not, ◌&&◌, is_none, pos, eqb_ℤ, List, [], ◌∷◌, ◌++◌, Option, none, some, ◌≡◌,
  refl, sym, ◌∙◌, ap, subst, arith, if◌then◌else◌, Bool-cases, Option-cases, inl, inr,
}
use disco.Base.Options.{require, >>=-some, some_eq}
use disco.Clock.{Time, Duration}
use disco.Config.{Config}
use disco.Daemon.{Daemon, ServiceConfig, daemon_ips, self_register, first_ip}
use disco.Detector.{Detector, new_detector}
use disco.Discovery.Announcer.{
  Announcer, opened_announcer, new_announcer, get_local_ips, get_cached_interfaces, add_service,
}
use disco.Discovery.Interfaces.{Interface}
use disco.Discovery.Listener.{Listener, new_listener, open_listener}
use disco.Net.{split_host_port}
use disco.Security.{KeyManager}
use disco.Timesync.Floats.{Floats}
use disco.Timesync.Service.{TimeSyncService}
use disco.Startup.{
  Env, System, Discovering, new_time_sync_service, new_daemon, start_keys, start_discovery,
  system_of,
}
use disco.Startup.Run.{run_start, with_configured, add_configured}

-- The interval of cleanupExpiredRecords, where zero stands for half a minute.
unfoldable pub cleanup_ticker : Duration → Duration
cleanup_ticker interval = if eqb_ℤ interval (pos 0) then pos 30000000000 else interval

unfoldable pub announcer_tickers : Option Announcer → List Duration
announcer_tickers none = []
announcer_tickers (some a) = a.interval ∷ []

unfoldable pub listener_tickers : Option Listener → List Duration
listener_tickers none = []
listener_tickers (some l) = l.duplicate_filter.ttl ∷ []

unfoldable pub detector_tickers : Option Detector → List Duration
detector_tickers none = []
detector_tickers (some d) = d.interval ∷ pos 30000000000 ∷ []

module _ {fl : Floats} where
  unfoldable pub time_tickers : Option (TimeSyncService fl) → List Duration
  time_tickers none = []
  time_tickers (some ts) = ts.config.poll_interval ∷ []

  unfoldable pub tickers : System fl → List Duration
  unfolding announcer_tickers listener_tickers detector_tickers time_tickers
  tickers s =
      cleanup_ticker s.config.health.cleanup_interval
        ∷ (announcer_tickers s.daemon.announcer
            ++ listener_tickers s.listener
            ++ detector_tickers s.detector)
      ++ time_tickers s.time_sync
