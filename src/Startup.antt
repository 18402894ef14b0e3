-- ===== src/Startup.antt =====
-- internal/daemon/daemon.go (New): how the parts of the daemon are put together. The store is one
-- object that the daemon, the socket server and the DNS server share, so it stands once in the
-- state; goroutines are steps.
pub mod Run
pub mod Secured
pub mod Named
pub mod Resolved
pub mod Detected
pub mod Events
pub mod Traced
pub mod Running
pub mod Lasting
pub mod Live
pub mod Shutdown
pub mod Tickers
use disco.Base.{
  Str, Str_eq, bytes, ℕ, ℤ, pos, Bool, true, false, not, ◌&&◌, List, [], ◌∷◌, ◌++◌, Option, none,
  some, if◌then◌else◌, is_empty, is_none,
}
use disco.Base.Options.{◌>>=◌}
use disco.Clock.{Time, Duration}
use disco.Timesync.Floats.{Floats}
use disco.Timesync.Service.{TimeSyncService, SyncStatus, SyncError, process_message}
use disco.Timesync.Sources.{new_time_source_store}
use disco.Config.{Config}
use disco.Config.Validation.{ConfigError, validate}
use disco.Security.{KeyManager}
use disco.Security.Loading.{KeysRead, new_key_manager}
use disco.Discovery.{Codec}
use disco.Discovery.Interfaces.{Interface}
use disco.Discovery.Announcer.{Announcer, new_announcer, add_service, get_local_ips}
use disco.Discovery.Listener.{Listener, open_listener, Delivery, receive}
use disco.Detector.{Detector, FoundService, new_detector, get_services}
use disco.Dns.Handlers.{Settings}
use disco.Locations.{LocationStore, new_location_store, add_location}
use disco.Socket.{SocketServer}
use disco.Store.{RecordStore, new_record_store}
use disco.Daemon.{
  Daemon, ServiceConfig, PeersFile, load_trusted_peers, handle_discovery_message, self_register,
  first_ip,
}

-- What New finds of the system: the host name, the text of /etc/machine-id without blanks around it
-- (empty if it cannot be read), files, random texts, and the network.
pub record Env : Type 0 where
  pub hostname : Option Str
  pub machine_id : Str
  pub read_keys : Str → KeysRead
  pub random : Option (Str × Str)
  pub read_peers : Str → PeersFile
  pub resolve : Str → Option Str
  pub opens : Bool
  pub listens : Str → Bool
  pub now : Time

-- The key manager of New: none if security is off; the outer `none` is an error.
unfoldable pub trusting : PeersFile → KeyManager → Option (Option KeyManager)
trusting file km =
    let (km', fine) = load_trusted_peers file km in if fine then some (some km') else none

module _ (fl : Floats) where
  unfoldable pub start_keys : Env → Config fl → Option (Option KeyManager)
  unfolding trusting
  start_keys env cfg = if not cfg.security.enabled then some none else (do
    km ← new_key_manager env.read_keys env.random cfg.security.key_path
    if is_empty cfg.security.trusted_peers
        then some (some km)
        else trusting (env.read_peers cfg.security.trusted_peers) km)

  -- The parts that New sets only if discovery is enabled.
  pub record Discovering : Type 0 where
    pub announcer : Announcer
    pub listener : Listener
    pub detector : Option Detector

  unfoldable pub start_discovery :
      Env → Config fl → Str → Option KeyManager → Option (Option Discovering)
  start_discovery env cfg hostname km =
      let detector =
        if cfg.discovery.detect_services
        then some (new_detector cfg.discovery.service_port_mapping cfg.discovery.scan_interval)
        else none in
      if not cfg.discovery.enabled then some none else (do
        a ←
            new_announcer env.resolve env.opens cfg.network.broadcast_addr hostname env.machine_id
              cfg.daemon.broadcast_interval km cfg.network.interfaces env.now
        l ← open_listener env.listens cfg.network.broadcast_addr km cfg.security.require_signed
        some (some (record { announcer = a; listener = l; detector = detector })))

  -- The daemon with all its parts.
  pub record System : Type 0 where
    pub config : Config fl
    pub daemon : Daemon
    pub location_store : LocationStore fl
    pub listener : Option Listener
    pub detector : Option Detector
    pub time_sync : Option (TimeSyncService fl)
    pub dns : Option Settings

  -- NewTimeSyncService
  unfoldable pub new_time_sync_service : Config fl → Option KeyManager → TimeSyncService fl
  new_time_sync_service cfg km = record {
    config = cfg.time_sync;
    key_manager = km;
    store = new_time_source_store fl cfg.time_sync.max_stale_age;
    status = record {
      synced = false;
      source_count = 0;
      last_offset = fl.zero;
      last_sync_time = disco.Clock.zero_time;
      last_error = SyncError.no_error;
    };
  }

  unfoldable pub system_of : Env → Config fl → Str → Option KeyManager → Option Discovering → System
  unfolding new_time_sync_service new_location_store
  system_of env cfg hostname km parts = record {
    config = cfg;
    daemon = record {
      hostname = hostname;
      machine_id = env.machine_id;
      record_ttl = cfg.daemon.record_ttl;
      services = cfg.services;
      dynamic_services = [];
      announcer = elim parts [ none ↦ none | some p ↦ some p.announcer ];
      store = new_record_store cfg.daemon.record_ttl cfg.health cfg.static_hosts;
    };
    location_store = new_location_store fl;
    listener = elim parts [ none ↦ none | some p ↦ some p.listener ];
    detector = elim parts [ none ↦ none | some p ↦ p.detector ];
    time_sync = if cfg.time_sync.enabled then some (new_time_sync_service cfg km) else none;
    dns =
        if cfg.dns.enabled
        then some (record {
          domain = cfg.dns.domain;
          ttl_healthy = cfg.dns.ttl_healthy;
          ttl_stale = cfg.dns.ttl_stale;
        })
        else none;
  }

  -- `New`
  unfoldable pub new_daemon : Env → Config fl → Option System
  unfolding start_keys start_discovery system_of
  new_daemon env cfg = do
    hostname ← env.hostname
    km ← start_keys env cfg
    parts ← start_discovery env cfg hostname km
    some (system_of env cfg hostname km parts)

  -- What the socket server works on.
  unfoldable pub socket_of : System → SocketServer fl
  socket_of s = record {
    store = s.daemon.store;
    time_sync = s.time_sync;
    location_store = some s.location_store;
  }
