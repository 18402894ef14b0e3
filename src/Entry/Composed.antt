-- ===== src/Entry/Composed.antt =====
-- What a running daemon has been through: cmd/daemon/main.go, the checks of the configuration, and
-- New and Run of internal/daemon/daemon.go together.
use disco.Base.{
  Str, pos, Bool, true, false, List, Option, none, some, ◌≡◌, refl, sym, ◌∙◌, ap, subst, All, arith,
  ◌≤ℤ◌,
}
use disco.Base.Options.{>>=-some, some_eq}
use disco.Clock.{Time}
use disco.Timesync.Floats.{Floats}
use disco.Config.{Config, set_defaults}
use disco.Config.Bounds.{validate-bounds}
use disco.Config.Validation.{ConfigError, validate}
use disco.Security.{KeyManager}
use disco.Discovery.{Codec}
use disco.Discovery.Delivery.{Authentic}
use disco.Discovery.Interfaces.{Interface}
use disco.Logging.{Logging}
use disco.Startup.{Env, System, new_daemon, start_keys, start_discovery, system_of}
use disco.Startup.Run.{run_start, on_packets}
use disco.Startup.Secured.{Requires, new_daemon-Requires, on_packets-Authentic}
use disco.Entry.{
  Outcome, running, exited, start_daemon, after_validation, after_setup, after_new, setup_logging,
}

module _ {fl : Floats} where
  abbrev system_in : Outcome fl → Option (System fl)
  system_in (exited e) = none
  system_in (running s log) = some s

  pub config-new_daemon :
      (env : Env) (cfg : Config fl) (s : System fl)
      → new_daemon fl env cfg ≡ some s
      → s.config ≡ cfg
  unfolding new_daemon system_of
  config-new_daemon env cfg s made =
      let (hostname, named, with_name) = >>=-some env.hostname _ made in
      let (km, keyed, with_keys) = >>=-some (start_keys fl env cfg) _ with_name in
      let (parts, started, built) = >>=-some (start_discovery fl env cfg hostname km) _ with_keys in
      ap (λ x. x.config) (sym (some_eq built))

  -- What New made of a configuration, once it runs.
  abbrev pub Made : Option (List Interface) → Env → Config fl → System fl → Type 0
  Made system env cfg s =
      (s0 : System fl) × (new_daemon fl env cfg ≡ some s0) × (run_start system env.now s0 ≡ s)

  Made-after_new :
      (starts : Bool) (system : Option (List Interface)) (now : Time) (log log' : Logging)
      (made : Option (System fl)) (s : System fl)
      → after_new fl starts system now log made ≡ running s log'
      → (s0 : System fl) × (made ≡ some s0) × (run_start system now s0 ≡ s)
  unfolding after_new
  Made-after_new starts system now log log' none s h = absurd (ground arith)
  Made-after_new true system now log log' (some s0) s h = (s0, refl, some_eq (ap system_in h))
  Made-after_new false system now log log' (some s0) s h = absurd (ground arith)

  Made-after_setup :
      (starts : Bool) (system : Option (List Interface)) (env : Env) (cfg : Config fl)
      (set : Logging × Bool) (log : Logging) (s : System fl)
      → after_setup fl starts system env cfg set ≡ running s log
      → Made system env cfg s
  unfolding after_setup
  Made-after_setup starts system env cfg (log', false) log s h = absurd (ground arith)
  Made-after_setup starts system env cfg (log', true) log s h =
      Made-after_new starts system env.now log' log (new_daemon fl env cfg) s h

  pub Made-after_validation :
      (starts : Bool) (system : Option (List Interface)) (opens : Str → Bool) (env : Env)
      (checked : Config fl × Option ConfigError) (log : Logging) (s : System fl)
      → after_validation fl starts system opens env checked ≡ running s log
      → (checked.1 ≡ none) × Made system env checked.0 s
  unfolding after_validation
  Made-after_validation starts system opens env (cfg, some e) log s h = absurd (ground arith)
  Made-after_validation starts system opens env (cfg, none) log s h =
      (refl, Made-after_setup starts system env cfg (setup_logging opens cfg.logging) log s h)

  Requires-run_start :
      (k : KeyManager) (system : Option (List Interface)) (now : Time) (s : System fl)
      → Requires k s
      → Requires k (run_start system now s)
  unfolding run_start
  Requires-run_start k system now s r = r

  pub config-run_start :
      (system : Option (List Interface)) (now : Time) (s : System fl)
      → (run_start system now s).config ≡ s.config
  unfolding run_start
  config-run_start system now s = refl

  daemon-validate : (c : Config fl) → (validate fl c).1 ≡ none → (validate fl c).0.daemon ≡ c.daemon
  unfolding validate
  daemon-validate c h = ground arith

  pub Bounded-validate :
      (c : Config fl)
      → (validate fl c).1 ≡ none
      → (pos 5000000000 ≤ℤ (validate fl c).0.daemon.broadcast_interval)
        × (pos 60000000000 ≤ℤ (validate fl c).0.daemon.record_ttl)
  Bounded-validate c h =
      let (path, low, high, ttl, long, slow, fast) = validate-bounds fl c h in
      let same = daemon-validate c h in
      (
        subst (λ d. pos 5000000000 ≤ℤ d.broadcast_interval) (sym same) low,
        subst (λ d. pos 60000000000 ≤ℤ d.record_ttl) (sym same) ttl,
      )

  -- A daemon that main gets to run with discovery on and signatures required has keys, and whatever
  -- packets come in, each announcement and each time message that its listener delivers is signed by a
  -- peer that it trusts, at most 300 seconds before it is heard and not after (or at a timestamp so
  -- far below zero that the int64 difference overflows).
  pub start_daemon-Authentic :
      (codec : Codec fl) (starts : Bool) (system : Option (List Interface)) (opens : Str → Bool)
      (env : Env) (raw : Config fl) (s : System fl) (log : Logging) (packets : List (Time × Str))
      → start_daemon fl starts system opens env (some raw) ≡ running s log
      → s.config.discovery.enabled ≡ true
      → s.config.security.require_signed ≡ true
      → (k : KeyManager) × Requires k s
        × All (λ p. Authentic codec k p.0 p.1) (on_packets codec packets s)
  unfolding start_daemon
  start_daemon-Authentic codec starts system opens env raw s log packets h on r =
      let c = set_defaults fl raw in
      let (clean, (s0, made, ran)) =
        Made-after_validation starts system opens env (validate fl c) log s h in
      let same : s.config ≡ (validate fl c).0 =
        ap (λ x. x.config) (sym ran)
        ∙ config-run_start system env.now s0
        ∙ config-new_daemon env (validate fl c).0 s0 made in
      let (k, requires) =
        new_daemon-Requires env (validate fl c).0 s0 made
          (subst (λ x. x.discovery.enabled ≡ true) same on)
          (subst (λ x. x.security.require_signed ≡ true) same r) in
      let still : Requires k s =
        subst (Requires k) ran (Requires-run_start k system env.now s0 requires) in
      (k, still, on_packets-Authentic codec k packets s still)
