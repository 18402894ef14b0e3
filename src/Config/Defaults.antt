-- ===== src/Config/Defaults.antt =====
-- The defaults of a configuration are set once.
use disco.Base.{
  Str, Str_eq, bytes, ℤ, pos, false, ◌≡◌, refl, arith, eqb_ℤ, is_empty, Bool-cases, inl, inr, List,
  [], ◌∷◌, if◌then◌else◌,
}
use disco.Health.{HealthConfig}
use disco.Timesync.Floats.{Floats}
use disco.Timesync.Service.{TimeSyncConfig}
use disco.Config.{
  Config, DaemonConfig, NetworkConfig, LoggingConfig, DnsConfig, or_default, or_text, or_addresses,
  set_defaults, daemon_defaults, network_defaults, logging_defaults, health_defaults, dns_defaults,
  time_sync_defaults,
}
use disco.Config.Validation.{◌fails◌then◌}

or_default_again :
    (d x : ℤ) → eqb_ℤ d (pos 0) ≡ false → or_default d (or_default d x) ≡ or_default d x
or_default_again d x h = ground arith

or_text_again : (d s : Str) → is_empty d ≡ false → or_text d (or_text d s) ≡ or_text d s
or_text_again d s h = elim (Bool-cases (is_empty s)) [
  | inl e ↦ rw (e, h) refl
  | inr e ↦ rw (e, e) refl
]

or_addresses_again : (xs : List Str) → or_addresses (or_addresses xs) ≡ or_addresses xs
or_addresses_again [] = refl
or_addresses_again (a ∷ rest) = refl

daemon_again : (c : DaemonConfig) → daemon_defaults (daemon_defaults c) ≡ daemon_defaults c
unfolding daemon_defaults
daemon_again c =
    rw
      (
        or_text_again (bytes "/run/disco/disco.sock") c.socket_path refl,
        or_default_again (pos 30000000000) c.broadcast_interval refl,
        or_default_again (pos 3600000000000) c.record_ttl refl,
      )
      refl

network_again : (c : NetworkConfig) → network_defaults (network_defaults c) ≡ network_defaults c
unfolding network_defaults
network_again c =
    rw
      (
        or_text_again (bytes "255.255.255.255:5354") c.broadcast_addr refl,
        or_default_again (pos 10) c.max_broadcast_rate refl,
      )
      refl

logging_again : (c : LoggingConfig) → logging_defaults (logging_defaults c) ≡ logging_defaults c
unfolding logging_defaults
logging_again c =
    rw (or_text_again (bytes "info") c.level refl, or_text_again (bytes "text") c.format refl) refl

health_again : (c : HealthConfig) → health_defaults (health_defaults c) ≡ health_defaults c
unfolding health_defaults
health_again c =
    rw
      (
        or_default_again (pos 60000000000) c.grace_period refl,
        or_default_again (pos 3600000000000) c.expire_after refl,
        or_default_again (pos 30000000000) c.cleanup_interval refl,
      )
      refl

dns_again : (c : DnsConfig) → dns_defaults (dns_defaults c) ≡ dns_defaults c
unfolding dns_defaults
dns_again c =
    rw
      (
        or_default_again (pos 53) c.port refl,
        or_text_again (bytes "disco") c.domain refl,
        or_addresses_again c.bind_addresses,
        or_default_again (pos 30) c.ttl_healthy refl,
        or_default_again (pos 10) c.ttl_stale refl,
      )
      refl

module _ (fl : Floats) where
  dispersion_again :
      (x : fl.Float)
      → (if fl.eq (if fl.eq x fl.zero then fl.one else x) fl.zero
          then fl.one
          else (if fl.eq x fl.zero then fl.one else x))
        ≡ (if fl.eq x fl.zero then fl.one else x)
  dispersion_again x = ground arith

  time_sync_again :
      (c : TimeSyncConfig fl)
      → time_sync_defaults fl (time_sync_defaults fl c) ≡ time_sync_defaults fl c
  unfolding time_sync_defaults
  time_sync_again c =
      rw
        (
          or_default_again (pos 2) c.min_sources refl,
          or_default_again (pos 100000000) c.max_source_spread refl,
          or_default_again (pos 30000000000) c.max_stale_age refl,
          dispersion_again c.max_dispersion,
          or_default_again (pos 128000000) c.step_threshold refl,
          or_default_again (pos 500000) c.slew_threshold refl,
          or_default_again (pos 60000000000) c.poll_interval refl,
        )
        refl

  -- Setting the defaults a second time changes nothing.
  pub set_defaults-set_defaults :
      (c : Config fl) → set_defaults fl (set_defaults fl c) ≡ set_defaults fl c
  unfolding set_defaults
  set_defaults-set_defaults c =
      rw
        (
          daemon_again c.daemon,
          network_again c.network,
          or_default_again (pos 60000000000) c.discovery.scan_interval refl,
          logging_again c.logging,
          time_sync_again c.time_sync,
          health_again c.health,
          dns_again c.dns,
        )
        refl
