-- ===== src/Entry/Lasting.antt =====
-- A running daemon under any events: cmd/daemon/main.go, the checks of the configuration, New, Run
-- and the goroutines of internal/daemon/daemon.go together.
use disco.Base.{
  Str, Str_eq, pos, Bool, true, List, [], Option, none, some, ◌≡◌, sym, ◌∙◌, ap, subst, arith, ◌≤ℤ◌,
  Bool-cases, inl, inr,
}
use disco.Base.Options.{>>=-some, some_eq}
use disco.Clock.{Time}
use disco.Config.{Config, set_defaults}
use disco.Config.Bounds.{validate-time_sync}
use disco.Config.Validation.{validate}
use disco.Dict.{lookup, IsUnique}
use disco.Health.{StaticHost, static_services}
use disco.Timesync.Floats.{Floats}
use disco.Discovery.{Codec}
use disco.Discovery.Interfaces.{Interface}
use disco.Logging.{Logging}
use disco.Store.{get}
use disco.Store.Static.{Serves}
use disco.Store.Valid.{IsValid}
use disco.Security.{KeyManager}
use disco.Startup.{
  Env, Discovering, System, new_daemon, new_time_sync_service, start_keys, start_discovery,
  system_of,
}
use disco.Startup.Events.{Event, on_events, run_goroutines}
use disco.Startup.Tickers.{tickers}
use disco.Entry.Ticking.{Positive-cleanup_ticker, all_start, start_daemon-tickers}
use disco.Startup.Lasting.{on_events-IsValid, on_events-static}
use disco.Socket.Needing.{Needs}
use disco.Startup.Live.{Lives-on_events}
use disco.Startup.Run.{run_start}
use disco.Entry.{running, start_daemon}
use disco.Entry.Composed.{Made-after_validation, config-new_daemon, config-run_start}

module _ {fl : Floats} where
  time_sync-validate :
      (c : Config fl) → (validate fl c).1 ≡ none → (validate fl c).0.time_sync ≡ c.time_sync
  unfolding validate
  time_sync-validate c h = ground arith

  Needs-system_of :
      (cfg : Config fl) (env : Env) (hostname : Str) (km : Option KeyManager)
      (parts : Option (Discovering fl))
      → (cfg.time_sync.enabled ≡ true → pos 1 ≤ℤ cfg.time_sync.min_sources)
      → Needs fl (system_of fl env cfg hostname km parts).time_sync
  unfolding system_of new_time_sync_service
  Needs-system_of cfg env hostname km parts h = elim (Bool-cases cfg.time_sync.enabled) [
    | inl e ↦ rw e (h e)
    | inr e ↦ rw e tt
  ]

  Needs-new_daemon :
      (env : Env) (cfg : Config fl) (s : System fl)
      → new_daemon fl env cfg ≡ some s
      → (cfg.time_sync.enabled ≡ true → pos 1 ≤ℤ cfg.time_sync.min_sources)
      → Needs fl s.time_sync
  unfolding new_daemon
  Needs-new_daemon env cfg s made h =
      let (hostname, named, with_name) = >>=-some env.hostname _ made in
      let (km, keyed, with_keys) = >>=-some (start_keys fl env cfg) _ with_name in
      let (parts, begun, built) = >>=-some (start_discovery fl env cfg hostname km) _ with_keys in
      subst (λ x. Needs fl x.time_sync) (some_eq built)
        (Needs-system_of cfg env hostname km parts h)

  -- A daemon that main gets to run, with a cleanup interval of zero or more, with a poll interval
  -- above zero if time synchronisation is on, and with no static host configured twice, runs on
  -- whatever packets its listener reads, and whatever queries, ticks and scans come: no ticker that it
  -- starts and no event makes it panic. Its store is well formed afterwards, and a configured static
  -- host is found under its name at any instant, with its configured addresses and services: no
  -- announcement replaces it, it never counts as lost, and neither the cleanup, nor a forget, nor a
  -- mark-lost touches it.
  pub start_daemon-lasts :
      (codec : Codec fl) (ifaces : Option (List Interface)) (resolves : Str → Bool)
      (text : Option Str) (starts : Bool) (opens : Str → Bool) (env : Env) (raw : Config fl)
      (s : System fl) (log : Logging) (es : List (Event fl))
      → start_daemon fl starts ifaces opens env (some raw) ≡ running s log
      → pos 0 ≤ℤ s.config.health.cleanup_interval
      → (s.config.time_sync.enabled ≡ true → pos 1 ≤ℤ s.config.time_sync.poll_interval)
      → IsUnique s.config.static_hosts
      → (s' : System fl) × (run_goroutines codec ifaces resolves text es s ≡ some s')
        × IsValid s'.daemon.store
        × ((now : Time) (k : Str) (sh : StaticHost)
            → lookup k s.config.static_hosts ≡ some sh
            → Serves sh.addresses (static_services sh.services []) (get s'.daemon.store now k))
  unfolding start_daemon run_start run_goroutines
  start_daemon-lasts codec ifaces resolves text starts opens env raw s log es h cleaning polling
        unique =
      let c = set_defaults fl raw in
      let (clean, (s0, made, ran)) =
        Made-after_validation starts ifaces opens env (validate fl c) log s h in
      let same : s.config ≡ (validate fl c).0 =
        ap (λ x. x.config) (sym ran)
        ∙ config-run_start ifaces env.now s0
        ∙ config-new_daemon env (validate fl c).0 s0 made in
      let enough : (validate fl c).0.time_sync.enabled ≡ true
          → pos 1 ≤ℤ (validate fl c).0.time_sync.min_sources =
        subst (λ t. t.enabled ≡ true → pos 1 ≤ℤ t.min_sources) (sym (time_sync-validate c clean))
          (λ on. (validate-time_sync fl c clean on).0) in
      let needs : Needs fl s.time_sync =
        subst (λ x. Needs fl x.time_sync) ran
          (Needs-new_daemon env (validate fl c).0 s0 made enough) in
      let (s', went, kept) = Lives-on_events codec ifaces resolves text es s needs in
      let starting = all_start (tickers s) (
        (start_daemon-tickers starts ifaces opens env raw s log h).1
          (Positive-cleanup_ticker s.config.health.cleanup_interval cleaning, polling)) in
      let from_start : on_events codec ifaces resolves text es (run_start ifaces env.now s0)
          ≡ some s' =
        subst (λ x. on_events codec ifaces resolves text es x ≡ some s') (sym ran) went in
      let once : IsUnique (validate fl c).0.static_hosts =
        subst (λ x. IsUnique x.static_hosts) same unique in
      (
        s',
        rw starting went,
        on_events-IsValid codec ifaces resolves text env (validate fl c).0 s0 s' env.now es made
            from_start once,
        λ now k sh found.
            on_events-static codec ifaces resolves text env (validate fl c).0 s0 s' env.now es made
              from_start once now k sh (subst (λ x. lookup k x.static_hosts ≡ some sh) same found),
      )
