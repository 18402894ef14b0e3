-- ===== src/Config.antt =====
-- internal/config/config.go: the configuration and its defaults. The YAML file is decoded by a
-- library; a field that the file leaves out is the zero value of its type.
pub mod Validation
pub mod Bounds
pub mod Defaults
use disco.Base.{Str, bytes, ℤ, pos, Bool, List, [], ◌∷◌, if◌then◌else◌, eqb_ℤ, is_empty}
use disco.Clock.{Duration}
use disco.Dict.{Dict}
use disco.Health.{HealthConfig, StaticHost}
use disco.Timesync.Floats.{Floats}
use disco.Timesync.Service.{TimeSyncConfig}
use disco.Daemon.{ServiceConfig}

pub record DaemonConfig : Type 0 where
  pub socket_path : Str
  pub broadcast_interval : Duration
  pub record_ttl : Duration
  pub pid_file : Str

pub record NetworkConfig : Type 0 where
  pub interfaces : List Str
  pub broadcast_addr : Str
  pub max_broadcast_rate : ℤ

pub record DiscoveryConfig : Type 0 where
  pub enabled : Bool
  pub detect_services : Bool
  pub service_port_mapping : Dict Str (List ℤ)
  pub scan_interval : Duration

pub record SecurityConfig : Type 0 where
  pub enabled : Bool
  pub key_path : Str
  pub trusted_peers : Str
  pub require_signed : Bool

pub record LoggingConfig : Type 0 where
  pub level : Str
  pub format : Str
  pub file : Str

pub record DnsConfig : Type 0 where
  pub enabled : Bool
  pub port : ℤ
  pub domain : Str
  pub bind_addresses : List Str
  pub ttl_healthy : ℤ
  pub ttl_stale : ℤ

module _ (fl : Floats) where
  pub record Config : Type 0 where
    pub daemon : DaemonConfig
    pub network : NetworkConfig
    pub discovery : DiscoveryConfig
    pub security : SecurityConfig
    pub logging : LoggingConfig
    pub time_sync : TimeSyncConfig fl
    pub health : HealthConfig
    pub dns : DnsConfig
    pub static_hosts : Dict Str StaticHost
    pub services : List ServiceConfig

-- The default where the value is zero, or the empty text.
abbrev pub or_default : ℤ → ℤ → ℤ
or_default d x = if eqb_ℤ x (pos 0) then d else x

abbrev pub or_text : Str → Str → Str
or_text d s = if is_empty s then d else s

unfoldable pub daemon_defaults : DaemonConfig → DaemonConfig
daemon_defaults c = record c {
  socket_path = or_text (bytes "/run/disco/disco.sock") c.socket_path;
  broadcast_interval = or_default (pos 30000000000) c.broadcast_interval;
  record_ttl = or_default (pos 3600000000000) c.record_ttl;
}

unfoldable pub network_defaults : NetworkConfig → NetworkConfig
network_defaults c = record c {
  broadcast_addr = or_text (bytes "255.255.255.255:5354") c.broadcast_addr;
  max_broadcast_rate = or_default (pos 10) c.max_broadcast_rate;
}

unfoldable pub logging_defaults : LoggingConfig → LoggingConfig
logging_defaults c = record c {
  level = or_text (bytes "info") c.level;
  format = or_text (bytes "text") c.format;
}

unfoldable pub health_defaults : HealthConfig → HealthConfig
health_defaults c = record {
  grace_period = or_default (pos 60000000000) c.grace_period;
  expire_after = or_default (pos 3600000000000) c.expire_after;
  cleanup_interval = or_default (pos 30000000000) c.cleanup_interval;
}

abbrev pub or_addresses : List Str → List Str
or_addresses [] = bytes "0.0.0.0" ∷ []
or_addresses (a ∷ rest) = a ∷ rest

unfoldable pub dns_defaults : DnsConfig → DnsConfig
dns_defaults c = record c {
  port = or_default (pos 53) c.port;
  domain = or_text (bytes "disco") c.domain;
  bind_addresses = or_addresses c.bind_addresses;
  ttl_healthy = or_default (pos 30) c.ttl_healthy;
  ttl_stale = or_default (pos 10) c.ttl_stale;
}

module _ (fl : Floats) where
  unfoldable pub time_sync_defaults : TimeSyncConfig fl → TimeSyncConfig fl
  time_sync_defaults c = record c {
    min_sources = or_default (pos 2) c.min_sources;
    max_source_spread = or_default (pos 100000000) c.max_source_spread;
    max_stale_age = or_default (pos 30000000000) c.max_stale_age;
    max_dispersion = if fl.eq c.max_dispersion fl.zero then fl.one else c.max_dispersion;
    step_threshold = or_default (pos 128000000) c.step_threshold;
    slew_threshold = or_default (pos 500000) c.slew_threshold;
    poll_interval = or_default (pos 60000000000) c.poll_interval;
  }

  unfoldable pub set_defaults : Config fl → Config fl
  unfolding daemon_defaults network_defaults logging_defaults health_defaults dns_defaults
      time_sync_defaults
  set_defaults c = record c {
    daemon = daemon_defaults c.daemon;
    network = network_defaults c.network;
    discovery = record c.discovery {
      scan_interval = or_default (pos 60000000000) c.discovery.scan_interval;
    };
    logging = logging_defaults c.logging;
    time_sync = time_sync_defaults c.time_sync;
    health = health_defaults c.health;
    dns = dns_defaults c.dns;
  }
