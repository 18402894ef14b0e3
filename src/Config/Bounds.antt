-- ===== src/Config/Bounds.antt =====
-- What a configuration that passes the checks has.
use disco.Base.{
  Str, Str_eq, ◌≟◌, ℤ, pos, true, false, not, Option, none, some, ◌≡◌, refl, arith, ◌≤ℤ◌, is_empty,
  Bool-cases, Option-cases, inl, inr, List, [], ◌∷◌, all, any,
}
use disco.Dict.{Dict, lookup}
use disco.Net.{split_host_port}
use disco.Timesync.Floats.{Floats}
use disco.Config.{Config, DaemonConfig, DiscoveryConfig, NetworkConfig}
use disco.Config.Validation.{
  validate, validate_daemon, validate_network, validate_address, validate_discovery,
  validate_time_sync, is_port, validate_mapping, validate_service,
}

module _ (fl : Floats) where
  -- The parts of a configuration that passes have no error.
  validate_parts :
      (c : Config fl)
      → (validate fl c).1 ≡ none
      → (validate_daemon c.daemon ≡ none)
        × (validate_network c.network ≡ none)
        × (validate_discovery c.discovery ≡ none)
        × (validate_time_sync fl c.time_sync ≡ none)
  unfolding validate
  validate_parts c h = (ground arith, ground arith, ground arith, ground arith)

  daemon_bounds :
      (c : DaemonConfig)
      → validate_daemon c ≡ none
      → (is_empty c.socket_path ≡ false)
        × (pos 5000000000 ≤ℤ c.broadcast_interval)
        × (c.broadcast_interval ≤ℤ pos 3600000000000)
        × (pos 60000000000 ≤ℤ c.record_ttl)
        × (c.record_ttl ≤ℤ pos 86400000000000)
  unfolding validate_daemon
  daemon_bounds c h = (ground arith, ground arith, ground arith, ground arith, ground arith)

  rate_bounds :
      (c : NetworkConfig)
      → validate_network c ≡ none
      → (pos 1 ≤ℤ c.max_broadcast_rate) × (c.max_broadcast_rate ≤ℤ pos 100)
  unfolding validate_network validate_address
  rate_bounds c h = elim (Option-cases (split_host_port c.broadcast_addr)) [
    | inl e ↦ absurd (ground arith)
    | inr ((host, port), e) ↦ (ground arith, ground arith)
  ]

  -- The ports of a service.
  abbrev pub PortsValid : Option (List ℤ) → Type 0
  PortsValid none = Unit
  PortsValid (some ports) = all is_port ports ≡ true

  all_ports : (ports : List ℤ) → any (λ q. not (is_port q)) ports ≡ false → all is_port ports ≡ true
  all_ports [] h = refl
  all_ports (p ∷ ps) h = ground (arith, all_ports ps)

  service_ports :
      (name : Str) (ports : List ℤ) → validate_service name ports ≡ none → all is_port ports ≡ true
  unfolding validate_service
  service_ports name [] h = absurd (ground arith)
  service_ports name (p ∷ ps) h = all_ports (p ∷ ps) (ground arith)

  mapping_parts :
      (name : Str) (ports : List ℤ) (rest : Dict Str (List ℤ))
      → validate_mapping ((name, ports) ∷ rest) ≡ none
      → (validate_service name ports ≡ none) × (validate_mapping rest ≡ none)
  unfolding validate_mapping
  mapping_parts name ports rest h = (ground arith, ground arith)

  mapping_ports :
      (service : Str) (m : Dict Str (List ℤ))
      → validate_mapping m ≡ none
      → PortsValid (lookup service m)
  unfolding lookup
  mapping_ports service [] h = tt
  mapping_ports service ((name, ports) ∷ rest) h =
      let (first, others) = mapping_parts name ports rest h in
      elim (Bool-cases (name ≟ service)) [
        | inl same ↦ rw same (service_ports name ports first)
        | inr other ↦ rw other (mapping_ports service rest others)
      ]

  discovery_ports :
      (c : DiscoveryConfig) (service : Str)
      → validate_discovery c ≡ none
      → c.enabled ≡ true
      → PortsValid (lookup service c.service_port_mapping)
  unfolding validate_discovery
  discovery_ports c service h on = mapping_ports service c.service_port_mapping (ground arith)

  -- A configuration that passes has a socket path, a broadcast interval from five seconds to an
  -- hour, a record lifetime from a minute to a day, and a broadcast rate from 1 to 100.
  pub validate-bounds :
      (c : Config fl)
      → (validate fl c).1 ≡ none
      → (is_empty c.daemon.socket_path ≡ false)
        × (pos 5000000000 ≤ℤ c.daemon.broadcast_interval)
        × (c.daemon.broadcast_interval ≤ℤ pos 3600000000000)
        × (pos 60000000000 ≤ℤ c.daemon.record_ttl)
        × (c.daemon.record_ttl ≤ℤ pos 86400000000000)
        × (pos 1 ≤ℤ c.network.max_broadcast_rate)
        × (c.network.max_broadcast_rate ≤ℤ pos 100)
  validate-bounds c h =
      let (daemon, network, discovery, time) = validate_parts c h in
      let (path, a, b, x, y) = daemon_bounds c.daemon daemon in
      let (low, high) = rate_bounds c.network network in (path, a, b, x, y, low, high)

  -- With service discovery on, every port that a configuration that passes maps a service to is a
  -- number from 1 to 65535, whatever the service.
  pub validate-PortsValid :
      (c : Config fl) (service : Str)
      → (validate fl c).1 ≡ none
      → c.discovery.enabled ≡ true
      → PortsValid (lookup service c.discovery.service_port_mapping)
  validate-PortsValid c service h on =
      let (daemon, network, discovery, time) = validate_parts c h in
      discovery_ports c.discovery service discovery on

  pub validate-scan_interval :
      (c : Config fl)
      → (validate fl c).1 ≡ none
      → c.discovery.enabled ≡ true
      → pos 10000000000 ≤ℤ c.discovery.scan_interval
  unfolding validate_discovery
  validate-scan_interval c h on =
      let (daemon, network, discovery, time) = validate_parts c h in ground arith

  -- With the time synchronisation on, a configuration that passes needs at least one source and
  -- allows a spread that is not negative: what the choice of a time relies on.
  pub validate-time_sync :
      (c : Config fl)
      → (validate fl c).1 ≡ none
      → c.time_sync.enabled ≡ true
      → (pos 1 ≤ℤ c.time_sync.min_sources) × (pos 0 ≤ℤ c.time_sync.max_source_spread)
  unfolding validate_time_sync
  validate-time_sync c h on =
      let (daemon, network, discovery, time) = validate_parts c h in (ground arith, ground arith)
