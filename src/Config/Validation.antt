-- ===== src/Config/Validation.antt =====
-- internal/config/validation.go: the checks of a configuration. An error is one of the messages; the
-- only warning is that no interfaces are named.
use disco.Base.{
  Str, Str_eq, bytes, ℤ, pos, Bool, true, false, not, ◌&&◌, ◌||◌, List, [], ◌∷◌, Option, none, some,
  if◌then◌else◌, ltb_ℤ, is_empty, ◌≟◌, any,
}
use disco.Dict.{Dict}
use disco.Net.{split_host_port}
use disco.Timesync.Floats.{Floats}
use disco.Timesync.Service.{TimeSyncConfig}
use disco.Config.{
  Config, DaemonConfig, NetworkConfig, DiscoveryConfig, SecurityConfig, LoggingConfig,
}

pub data ConfigError : Type 0 where
  socket_path_required socket_path_relative : ConfigError
  broadcast_interval_short broadcast_interval_long record_ttl_short record_ttl_long : ConfigError
  broadcast_addr_required broadcast_addr_invalid broadcast_host_missing broadcast_port_missing :
      ConfigError
  broadcast_rate_low broadcast_rate_high : ConfigError
  scan_interval_short scan_interval_long port_mapping_empty service_name_empty : ConfigError
  service_without_ports invalid_port : Str → ConfigError
  key_path_required invalid_log_level log_file_relative : ConfigError
  min_sources_low spread_small stale_age_short step_threshold_small : ConfigError

-- `filepath.IsAbs` on Unix.
abbrev pub is_abs : Str → Bool
is_abs [] = false
is_abs (c ∷ s) = (c ∷ []) ≟ bytes "/"

-- A test that fails with an error, before the others.
infixr 40 ◌fails◌then◌
abbrev pub ◌fails◌then◌ : Bool → ConfigError → Option ConfigError → Option ConfigError
b fails e then rest = if b then some e else rest

unfoldable pub validate_daemon : DaemonConfig → Option ConfigError
validate_daemon c =
    is_empty c.socket_path
    fails socket_path_required then not (is_abs c.socket_path)
    fails socket_path_relative then ltb_ℤ c.broadcast_interval (pos 5000000000)
    fails broadcast_interval_short then ltb_ℤ (pos 3600000000000) c.broadcast_interval
    fails broadcast_interval_long then ltb_ℤ c.record_ttl (pos 60000000000)
    fails record_ttl_short then ltb_ℤ (pos 86400000000000) c.record_ttl
    fails record_ttl_long then none

-- The checks of the address once it is split.
unfoldable pub validate_address : Option (Str × Str) → Option ConfigError → Option ConfigError
validate_address none rest = some broadcast_addr_invalid
validate_address (some (host, port)) rest =
    is_empty host
    fails broadcast_host_missing then is_empty port
    fails broadcast_port_missing then rest

unfoldable pub validate_network : NetworkConfig → Option ConfigError
unfolding validate_address
validate_network c =
    let rates =
      ltb_ℤ c.max_broadcast_rate (pos 1)
      fails broadcast_rate_low then ltb_ℤ (pos 100) c.max_broadcast_rate
      fails broadcast_rate_high then none in
    is_empty c.broadcast_addr
    fails broadcast_addr_required then validate_address (split_host_port c.broadcast_addr) rates

abbrev pub is_port : ℤ → Bool
is_port p = not (ltb_ℤ p (pos 1) || ltb_ℤ (pos 65535) p)

unfoldable pub validate_service : Str → List ℤ → Option ConfigError
validate_service service [] =
    is_empty service fails service_name_empty then some (service_without_ports service)
validate_service service (p ∷ ps) =
    is_empty service
    fails service_name_empty then any (λ q. not (is_port q)) (p ∷ ps)
    fails invalid_port service then none

-- The loop over the services, in the order in which the map is met.
unfoldable pub validate_mapping : Dict Str (List ℤ) → Option ConfigError
unfolding validate_service
validate_mapping [] = none
validate_mapping ((service, ports) ∷ rest) = elim (validate_service service ports) [
  | some e ↦ some e
  | none ↦ validate_mapping rest
]

abbrev pub is_empty_map : Dict Str (List ℤ) → Bool
is_empty_map [] = true
is_empty_map (x ∷ m) = false

unfoldable pub validate_discovery : DiscoveryConfig → Option ConfigError
unfolding validate_mapping
validate_discovery c =
    if not c.enabled then none else ltb_ℤ c.scan_interval (pos 10000000000)
    fails scan_interval_short then ltb_ℤ (pos 600000000000) c.scan_interval
    fails scan_interval_long then is_empty_map c.service_port_mapping
    fails port_mapping_empty then validate_mapping c.service_port_mapping

-- validateSecurity also sets the path of the trusted peers.
unfoldable pub validate_security : SecurityConfig → SecurityConfig × Option ConfigError
validate_security c =
    if not c.enabled then (c, none) else if is_empty c.key_path then (c, some key_path_required)
      else if is_empty c.trusted_peers then
      (record c { trusted_peers = bytes "/etc/disco/trusted_peers.json" }, none) else (c, none)

abbrev pub valid_levels : List Str
valid_levels = bytes "debug" ∷ bytes "info" ∷ bytes "warn" ∷ bytes "error" ∷ bytes "fatal" ∷ []

unfoldable pub validate_logging : LoggingConfig → Option ConfigError
validate_logging c =
    if is_empty c.level then none else not (any (λ l. l ≟ c.level) valid_levels)
    fails invalid_log_level then (not (is_empty c.file) && not (is_abs c.file))
    fails log_file_relative then none

module _ (fl : Floats) where
  unfoldable pub validate_time_sync : TimeSyncConfig fl → Option ConfigError
  validate_time_sync c =
      if not c.enabled then none else ltb_ℤ c.min_sources (pos 1)
      fails min_sources_low then ltb_ℤ c.max_source_spread (pos 1000000)
      fails spread_small then ltb_ℤ c.max_stale_age (pos 1000000000)
      fails stale_age_short then ltb_ℤ c.step_threshold (pos 1000000)
      fails step_threshold_small then none

  -- The first of two checks that fails.
  abbrev pub first_error : Option ConfigError → Option ConfigError → Option ConfigError
  first_error (some e) rest = some e
  first_error none rest = rest

  -- `Validate`: the configuration that it leaves, and the error.
  unfoldable pub validate : Config fl → Config fl × Option ConfigError
  unfolding validate_daemon validate_network validate_discovery validate_security validate_logging
      validate_time_sync
  validate c =
      let before =
        first_error (validate_daemon c.daemon)
          (first_error (validate_network c.network) (validate_discovery c.discovery)) in
      let (security, e) = validate_security c.security in
      let after =
        first_error e (first_error (validate_logging c.logging) (validate_time_sync c.time_sync)) in
      elim before [
        | some failed ↦ (c, some failed)
        | none ↦ (record c { security = security }, after)
      ]

  -- Whether the warning is given, where there is no error.
  abbrev pub warns : Config fl → Bool
  warns c = elim c.network.interfaces [ [] ↦ true | x ∷ xs ↦ false ]
