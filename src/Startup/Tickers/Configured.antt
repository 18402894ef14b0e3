-- ===== src/Startup/Tickers/Configured.antt =====
-- The tickers of a daemon that New makes (internal/daemon/daemon.go): the intervals of its
-- configuration, before Run and after.
use disco.Base.{
  Str, bytes, Bool, not, ◌&&◌, is_none, pos, List, [], ◌∷◌, ◌++◌, Option, none, some, ◌≡◌, refl,
  sym, ◌∙◌, ap, subst, arith, if◌then◌else◌, Bool-cases, Option-cases, inl, inr,
}
use disco.Base.Options.{require, >>=-some, some_eq}
use disco.Clock.{Time, Duration}
use disco.Config.{Config}
use disco.Daemon.{Daemon, ServiceConfig, daemon_ips, self_register, first_ip}
use disco.Detector.{new_detector}
use disco.Discovery.Announcer.{
  Announcer, opened_announcer, new_announcer, get_local_ips, get_cached_interfaces, add_service,
}
use disco.Discovery.Interfaces.{Interface}
use disco.Discovery.Listener.{Listener, new_listener, open_listener}
use disco.Net.{split_host_port}
use disco.Security.{KeyManager}
use disco.Timesync.Floats.{Floats}
use disco.Startup.{
  Env, System, Discovering, new_time_sync_service, new_daemon, start_keys, start_discovery,
  system_of,
}
use disco.Startup.Run.{run_start, with_configured, add_configured}
use disco.Startup.Tickers.{
  announcer_tickers, listener_tickers, detector_tickers, time_tickers, tickers, cleanup_ticker,
}

interval-get_local_ips :
    (system : Option (List Interface)) (now : Time) (a : Announcer)
    → (get_local_ips system now a).0.interval ≡ a.interval
unfolding get_local_ips get_cached_interfaces
interval-get_local_ips system now a = ground arith

interval-add_configured :
    (system : Option (List Interface)) (now : Time) (svcs : List ServiceConfig) (a : Announcer)
    → (add_configured system now svcs a).interval ≡ a.interval
unfolding add_configured add_service
interval-add_configured system now [] a = refl
interval-add_configured system now (svc ∷ rest) a =
    let (a', ips) = get_local_ips system now a in
    interval-add_configured system now rest
      (add_service svc.name svc.port (first_ip ips) svc.aliases a')
    ∙ interval-get_local_ips system now a

-- Run changes no interval.
tickers-with_configured :
    (system : Option (List Interface)) (now : Time) (d : Daemon)
    → announcer_tickers (with_configured system now d).announcer ≡ announcer_tickers d.announcer
unfolding announcer_tickers with_configured
tickers-with_configured system now d = elim (Option-cases d.announcer) [
  | inl e ↦ rw e refl
  | inr (a, e) ↦ rw e (ap (λ x. x ∷ []) (interval-add_configured system now d.services a))
]

tickers-self_register :
    (system : Option (List Interface)) (now : Time) (d : Daemon)
    → announcer_tickers (self_register system now d).announcer ≡ announcer_tickers d.announcer
unfolding announcer_tickers self_register daemon_ips
tickers-self_register system now d = elim (Option-cases d.announcer) [
  | inl e ↦ rw e refl
  | inr (a, e) ↦ rw e (ap (λ x. x ∷ []) (interval-get_local_ips system now a))
]

module _ {fl : Floats} where
  pub tickers-run_start :
      (system : Option (List Interface)) (now : Time) (s : System fl)
      → tickers (run_start system now s) ≡ tickers s
  unfolding tickers run_start
  tickers-run_start system now s =
      ap
        (λ t.
          cleanup_ticker s.config.health.cleanup_interval
            ∷ (t ++ listener_tickers s.listener ++ detector_tickers s.detector)
          ++ time_tickers s.time_sync)
        (tickers-self_register system now (with_configured system now s.daemon)
          ∙ tickers-with_configured system now s.daemon)

interval-new_announcer :
    (resolve : Str → Option Str) (listens : Bool) (addr hostname machine_id : Str)
    (interval : Duration) (km : Option KeyManager) (interfaces : List Str) (now : Time)
    (a : Announcer)
    → new_announcer resolve listens addr hostname machine_id interval km interfaces now ≡ some a
    → a.interval ≡ interval
unfolding new_announcer opened_announcer
interval-new_announcer resolve listens addr hostname machine_id interval km interfaces now a h =
    ground arith

ttl-open_listener :
    (listens : Str → Bool) (addr : Str) (km : Option KeyManager) (signed : Bool) (l : Listener)
    → open_listener listens addr km signed ≡ some l
    → l.duplicate_filter.ttl ≡ pos 300000000000
unfolding open_listener new_listener
ttl-open_listener listens addr km signed l h =
    let (u, keyed, with_keys) = >>=-some (require (not (signed && is_none km))) _ h in
    let ((host, port), e, rest) = >>=-some (split_host_port addr) _ with_keys in
    let (w, listening, made) = >>=-some (require (listens (bytes "0.0.0.0:" ++ port))) _ rest in
    ap (λ x. x.duplicate_filter.ttl) (sym (some_eq made))

module _ {fl : Floats} where
  -- What the configuration asks for.
  abbrev pub running_tickers : Config fl → List Duration
  running_tickers cfg =
      cfg.daemon.broadcast_interval
      ∷ pos 300000000000
      ∷ (if cfg.discovery.detect_services
          then cfg.discovery.scan_interval ∷ pos 30000000000 ∷ []
          else [])

  abbrev pub discovery_tickers : Config fl → List Duration
  discovery_tickers cfg = if cfg.discovery.enabled then running_tickers cfg else []

  abbrev pub configured_tickers : Config fl → List Duration
  configured_tickers cfg =
      cleanup_ticker cfg.health.cleanup_interval ∷ discovery_tickers cfg
      ++ (if cfg.time_sync.enabled then cfg.time_sync.poll_interval ∷ [] else [])

  abbrev parts_tickers : Option (Discovering fl) → List Duration
  parts_tickers parts =
      announcer_tickers (elim parts [ none ↦ none | some p ↦ some p.announcer ])
      ++ listener_tickers (elim parts [ none ↦ none | some p ↦ some p.listener ])
      ++ detector_tickers (elim parts [ none ↦ none | some p ↦ p.detector ])

  tickers-made :
      (cfg : Config fl) (a : Announcer) (l : Listener)
      → a.interval ≡ cfg.daemon.broadcast_interval
      → l.duplicate_filter.ttl ≡ pos 300000000000
      → parts_tickers (
          some (record {
            announcer = a;
            listener = l;
            detector =
                if cfg.discovery.detect_services
                then some
                    (new_detector cfg.discovery.service_port_mapping cfg.discovery.scan_interval)
                else none;
          }))
        ≡ running_tickers cfg
  unfolding announcer_tickers listener_tickers detector_tickers new_detector
  tickers-made cfg a l every lasting = elim (Bool-cases cfg.discovery.detect_services) [
    | inl e ↦ rw e (λ i. every i ∷ lasting i ∷ cfg.discovery.scan_interval ∷ pos 30000000000 ∷ [])
    | inr e ↦ rw e (λ i. every i ∷ lasting i ∷ [])
  ]

  tickers-start_discovery :
      (env : Env) (cfg : Config fl) (hostname : Str) (km : Option KeyManager)
      (parts : Option (Discovering fl))
      → start_discovery fl env cfg hostname km ≡ some parts
      → parts_tickers parts ≡ discovery_tickers cfg
  unfolding start_discovery announcer_tickers listener_tickers detector_tickers new_detector
  tickers-start_discovery env cfg hostname km parts h = elim (Bool-cases cfg.discovery.enabled) [
    | inr off ↦
        rw off (subst (λ p. parts_tickers p ≡ []) (some_eq (rw (off, start_discovery) at h)) refl)
    | inl on ↦ rw on (
        let (a, announcing, rest) =
          >>=-some
            (new_announcer env.resolve env.opens cfg.network.broadcast_addr hostname env.machine_id
              cfg.daemon.broadcast_interval km cfg.network.interfaces env.now)
            _ (rw (on, start_discovery) at h) in
        let (l, listening, made) =
          >>=-some
            (open_listener env.listens cfg.network.broadcast_addr km cfg.security.require_signed) _
            rest in
        let every =
          interval-new_announcer env.resolve env.opens cfg.network.broadcast_addr hostname
            env.machine_id cfg.daemon.broadcast_interval km cfg.network.interfaces env.now a
            announcing in
        let lasting =
          ttl-open_listener env.listens cfg.network.broadcast_addr km cfg.security.require_signed l
            listening in
        subst (λ p. parts_tickers p ≡ running_tickers cfg) (some_eq made)
          (tickers-made cfg a l every lasting))
  ]

  time_tickers-system_of :
      (cfg : Config fl) (km : Option KeyManager)
      → time_tickers
          (if cfg.time_sync.enabled then some (new_time_sync_service fl cfg km) else none)
        ≡ (if cfg.time_sync.enabled then cfg.time_sync.poll_interval ∷ [] else [])
  unfolding time_tickers new_time_sync_service
  time_tickers-system_of cfg km = elim (Bool-cases cfg.time_sync.enabled) [
    | inl e ↦ rw e refl
    | inr e ↦ rw e refl
  ]

  -- A new daemon has the intervals of its configuration.
  pub tickers-new_daemon :
      (env : Env) (cfg : Config fl) (s : System fl)
      → new_daemon fl env cfg ≡ some s
      → tickers s ≡ configured_tickers cfg
  unfolding new_daemon system_of tickers
  tickers-new_daemon env cfg s made =
      let (hostname, named, with_name) = >>=-some env.hostname _ made in
      let (km, keyed, with_keys) = >>=-some (start_keys fl env cfg) _ with_name in
      let (parts, begun, built) = >>=-some (start_discovery fl env cfg hostname km) _ with_keys in
      let found = tickers-start_discovery env cfg hostname km parts begun in
      let timed = time_tickers-system_of cfg km in
      subst (λ x. tickers x ≡ configured_tickers cfg) (some_eq built)
        (λ i. cleanup_ticker cfg.health.cleanup_interval ∷ found i ++ timed i)
