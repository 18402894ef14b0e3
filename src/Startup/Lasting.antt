-- ===== src/Startup/Lasting.antt =====
-- A daemon that New makes of a configuration and that Run starts (internal/daemon/daemon.go), after
-- any events.
use disco.Base.{Str, Str_eq, Bool, List, [], Option, some, ◌≡◌, sym, ap, subst}
use disco.Base.Options.{>>=-some, some_eq}
use disco.Clock.{Time}
use disco.Config.{Config}
use disco.Dict.{lookup, IsUnique}
use disco.Health.{StaticHost, static_services}
use disco.Timesync.Floats.{Floats}
use disco.Discovery.{Codec}
use disco.Discovery.Interfaces.{Interface}
use disco.Store.{get, new_record_store}
use disco.Store.Initial.{run-start-IsValid, static_host_answers}
use disco.Store.Reaches.{Reaches, Reaches-trans}
use disco.Store.Static.{Serves}
use disco.Store.Valid.{IsValid}
use disco.Startup.{Env, System, new_daemon, system_of, start_keys, start_discovery}
use disco.Startup.Events.{Event, on_events}
use disco.Startup.Run.{run_start, with_configured}
use disco.Startup.Running.{Reaches-self_register, Reaches-on_events}

module _ {fl : Floats} where
  store-new_daemon :
      (env : Env) (cfg : Config fl) (s : System fl)
      → new_daemon fl env cfg ≡ some s
      → new_record_store cfg.daemon.record_ttl cfg.health cfg.static_hosts ≡ s.daemon.store
  unfolding new_daemon system_of
  store-new_daemon env cfg s made =
      let (hostname, named, with_name) = >>=-some env.hostname _ made in
      let (km, keyed, with_keys) = >>=-some (start_keys fl env cfg) _ with_name in
      let (parts, begun, built) = >>=-some (start_discovery fl env cfg hostname km) _ with_keys in
      ap (λ x. x.daemon.store) (some_eq built)

  Reaches-run_start :
      (system : Option (List Interface)) (now : Time) (s : System fl)
      → Reaches s.daemon.store (run_start system now s).daemon.store
  unfolding run_start with_configured
  Reaches-run_start system now s =
      Reaches-self_register system now (with_configured system now s.daemon)

  module _ (codec : Codec fl) (ifaces : Option (List Interface)) (resolves : Str → Bool)
      (text : Option Str) (env : Env) (cfg : Config fl) (s s' : System fl) (began : Time)
      (es : List (Event fl)) (made : new_daemon fl env cfg ≡ some s)
      (ran : on_events codec ifaces resolves text es (run_start ifaces began s) ≡ some s')
      (unique : IsUnique cfg.static_hosts) where
    configured-Reaches :
        Reaches (new_record_store cfg.daemon.record_ttl cfg.health cfg.static_hosts) s'.daemon.store
    configured-Reaches =
        subst (λ x. Reaches x s'.daemon.store) (sym (store-new_daemon env cfg s made))
          (Reaches-trans s.daemon.store (run_start ifaces began s).daemon.store s'.daemon.store
            (Reaches-run_start ifaces began s)
            (Reaches-on_events codec ifaces resolves text es (run_start ifaces began s) s' ran))

    -- A daemon of a configuration that names no static host twice, once started and after any
    -- packets, queries, ticks and scans, has a well-formed store: every record stands once and
    -- under its own hostname, every alias names a host that is there, and the static records are
    -- exactly those of the configured hosts.
    pub on_events-IsValid : IsValid s'.daemon.store
    on_events-IsValid =
        let (xs, e) = configured-Reaches in
        subst IsValid e
          (run-start-IsValid cfg.daemon.record_ttl cfg.health cfg.static_hosts unique xs)

    -- In a daemon of a configuration that names no static host twice, once started and after any
    -- packets, queries, ticks and scans, a configured static host is found under its name at any
    -- instant, with its configured addresses and services: no announcement replaces it, it never
    -- counts as lost, and neither the cleanup, nor a forget, nor a mark-lost touches it.
    pub on_events-static :
        (now : Time) (k : Str) (sh : StaticHost)
        → lookup k cfg.static_hosts ≡ some sh
        → Serves sh.addresses (static_services sh.services []) (get s'.daemon.store now k)
    on_events-static now k sh h =
        let (xs, e) = configured-Reaches in
        subst (λ x. Serves sh.addresses (static_services sh.services []) (get x now k)) e
          (static_host_answers cfg.daemon.record_ttl cfg.health cfg.static_hosts unique xs now k sh
            h)
