-- ===== src/Tests/Settings.antt =====
-- A configuration with the defaults.
use disco.Base.{Str_eq, str_eq, bytes, pos, true, false, [], ◌∷◌, none, some, ◌≡◌, refl}
use disco.Dict.{lookup}
use disco.Net.{split_host_port, split_plain, split_last}
use disco.Config.{
  Config, set_defaults, daemon_defaults, network_defaults, logging_defaults, health_defaults,
  dns_defaults, time_sync_defaults,
}
use disco.Config.Validation.{
  ConfigError, validate, validate_daemon, validate_network, validate_address, validate_discovery,
  validate_mapping, validate_service, validate_security, validate_logging, validate_time_sync,
}
use disco.Tests.Time.{whole}

unfoldable pub program : Unit {0}
unfolding str_eq lookup split_host_port split_plain split_last set_defaults daemon_defaults
    network_defaults logging_defaults health_defaults dns_defaults time_sync_defaults validate
    validate_daemon validate_network validate_address validate_discovery validate_mapping
    validate_service validate_security validate_logging validate_time_sync
program = tt

-- What an empty file decodes to, but for two switches and a port.
abbrev bare : Config whole
bare = record {
  daemon = record {
    socket_path = [];
    broadcast_interval = pos 0;
    record_ttl = pos 0;
    pid_file = [];
  };
  network = record { interfaces = []; broadcast_addr = []; max_broadcast_rate = pos 0 };
  discovery = record {
    enabled = true;
    detect_services = false;
    service_port_mapping = (bytes "http", pos 80 ∷ pos 8080 ∷ []) ∷ [];
    scan_interval = pos 0;
  };
  security = record { enabled = false; key_path = []; trusted_peers = []; require_signed = false };
  logging = record { level = []; format = []; file = [] };
  time_sync = record {
    enabled = true;
    min_sources = pos 0;
    max_source_spread = pos 0;
    max_stale_age = pos 0;
    max_dispersion = pos 0;
    step_threshold = pos 0;
    slew_threshold = pos 0;
    poll_interval = pos 0;
    require_signed = false;
    allow_step_backward = false;
  };
  health = record { grace_period = pos 0; expire_after = pos 0; cleanup_interval = pos 0 };
  dns = record {
    enabled = false;
    port = pos 0;
    domain = [];
    bind_addresses = [];
    ttl_healthy = pos 0;
    ttl_stale = pos 0;
  };
  static_hosts = [];
  services = [];
}

abbrev pub filled : Config whole
filled = set_defaults whole bare

accepted_config : (validate whole filled).1 ≡ none
unfolding program
accepted_config = refl

-- Without the defaults the socket path is missing.
refused_config : (validate whole bare).1 ≡ some ConfigError.socket_path_required
unfolding program
refused_config = refl
