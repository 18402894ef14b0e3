-- ===== src/Tests/Running.antt =====
-- A daemon that starts with a static host, and what it is told then: cmd/daemon/main.go and
-- internal/daemon/daemon.go.
use disco.Base.{
  arith, All, ◌↔◌, negsuc, Str, Str_eq, bytes, pos, true, List, [], ◌∷◌, none, some, ◌≡◌, refl,
}
use disco.Clock.{Time}
use disco.Config.{Config, set_defaults}
use disco.Dict.{lookup, insert}
use disco.Discovery.Announcer.{new_announcer}
use disco.Discovery.Listener.{open_listener}
use disco.Daemon.{load_trusted_peers}
use disco.Health.{StaticHost, static_services}
use disco.Protocol.{Query, QueryType}
use disco.Security.{generate_keys, add_trusted_peer}
use disco.Security.Loading.{new_key_manager}
use disco.Store.{get}
use disco.Store.Static.{Serves}
use disco.Store.Valid.{IsValid}
use disco.Startup.{System, system_of, trusting, new_daemon, start_keys, start_discovery}
use disco.Startup.Events.{Event, packet, query, cleanup_tick, run_goroutines}
use disco.Startup.Run.{run_start}
use disco.Entry.{start_daemon, after_new, running, setup_logging}
use disco.Config.Validation.{validate}
use disco.Entry.Lasting
use disco.Entry.Ticking
use disco.Startup.Tickers.{tickers}
use disco.Logging.{setup, output_of, initial}
use disco.Tests.Network.{codec, ethernet}
use disco.Tests.Network
use disco.Tests.Settings.{program}
use disco.Tests.Starting.{at, cfg, env, system_with}
use disco.Tests.Time.{whole}

abbrev nas : StaticHost
nas = record { addresses = bytes "10.0.0.9" ∷ []; services = [] }

abbrev with_nas : Config whole
with_nas = record cfg { static_hosts = (bytes "nas", nas) ∷ [] }

abbrev started : System whole
started = run_start (some ethernet) (at 900) (system_with with_nas)

runs :
    start_daemon whole true (some ethernet) (λ path. true) env (some with_nas)
    ≡ running started (setup_logging (λ path. true) with_nas.logging).0
unfolding program new_daemon start_keys start_discovery new_key_manager generate_keys new_announcer
    open_listener insert start_daemon after_new setup_logging setup output_of initial trusting
    load_trusted_peers add_trusted_peer
runs = refl

abbrev forgetting : Query
forgetting = record {
  query_type = QueryType.hosts_forget;
  name = bytes "nas";
  addr = [];
  family = pos 2;
  port = pos 0;
  aliases = [];
  request_id = bytes "q1";
}

abbrev events : List (Event whole)
events =
    packet (at 1002) Network.packet
    ∷ query (at 1003) forgetting (λ call. none)
    ∷ cleanup_tick (at 9000)
    ∷ []

start_daemon-lasts_example :
    (s' : System whole) × (run_goroutines codec
        (some ethernet)
        (λ addr. true)
        (some (bytes "n1"))
        events
        started
      ≡ some s')
    × IsValid s'.daemon.store
    × ((now : Time) (k : Str) (sh : StaticHost)
        → lookup k started.config.static_hosts ≡ some sh
        → Serves sh.addresses (static_services sh.services []) (get s'.daemon.store now k))
unfolding run_start system_of lookup set_defaults
start_daemon-lasts_example =
    Lasting.start_daemon-lasts codec (some ethernet) (λ addr. true) (some (bytes "n1")) true
      (λ path. true) env with_nas started (setup_logging (λ path. true) with_nas.logging).0 events
      runs (omega arith) (λ on. omega arith) (refl, tt)

start_daemon-tickers_example :
    All Ticking.Positive (tickers started) ↔ Ticking.Unchecked started.config
start_daemon-tickers_example =
    Ticking.start_daemon-tickers true (some ethernet) (λ path. true) env with_nas started
      (setup_logging (λ path. true) with_nas.logging).0 runs

-- A cleanup interval below zero is accepted.
abbrev hasty : Config whole
hasty = record with_nas { health = record with_nas.health { cleanup_interval = negsuc 0 } }

accepted : (validate whole (set_defaults whole hasty)).1 ≡ none
unfolding program
accepted = refl
