-- ===== src/Entry/Ticking.antt =====
-- Whether the tickers of a daemon that main runs can start: cmd/daemon/main.go, the checks of the
-- configuration, and the tickers of Startup.Tickers.
use disco.Base.{
  Str, pos, Bool, true, false, List, [], ◌∷◌, ◌++◌, Option, none, some, ◌≡◌, ◌↔◌, refl, sym, ◌∙◌,
  ap, subst, All, arith, ◌≤ℤ◌, Bool-cases, inl, inr, if◌then◌else◌, all, ltb_ℤ,
}
use disco.Clock.{Duration}
use disco.Config.{Config, set_defaults}
use disco.Config.Bounds.{validate-scan_interval}
use disco.Config.Validation.{validate}
use disco.Discovery.Interfaces.{Interface}
use disco.Logging.{Logging}
use disco.Timesync.Floats.{Floats}
use disco.Startup.{Env, System}
use disco.Startup.Tickers.{tickers, cleanup_ticker}
use disco.Startup.Tickers.Configured.{
  tickers-run_start, tickers-new_daemon, configured_tickers, discovery_tickers,
}
use disco.Entry.{running, start_daemon}
use disco.Entry.Composed.{
  Made-after_validation, config-new_daemon, config-run_start, Bounded-validate,
}

-- NewTicker does not panic.
abbrev pub Positive : Duration → Type 0
Positive d = pos 1 ≤ℤ d

-- Every NewTicker gets through.
pub all_start :
    (ds : List Duration) → All Positive ds → all (λ interval. ltb_ℤ (pos 0) interval) ds ≡ true
all_start [] a = refl
all_start (d ∷ ds) a = ground (arith, all_start ds a.1, a.0)

-- An interval of zero stands for half a minute.
pub Positive-cleanup_ticker : (d : Duration) → pos 0 ≤ℤ d → Positive (cleanup_ticker d)
unfolding cleanup_ticker
Positive-cleanup_ticker d h = ground arith

All-append :
    (P : Duration → Type 0) (xs ys : List Duration) → All P (xs ++ ys) ↔ (All P xs × All P ys)
All-append P [] ys = (λ p. (tt, p), λ p. p.1)
All-append P (x ∷ xs) ys =
    let (apart, together) = All-append P xs ys in
    (λ p. ((p.0, (apart p.1).0), (apart p.1).1), λ p. (p.0.0, together (p.0.1, p.1)))

Positive-time :
    (on : Bool) (d : Duration) → All Positive (if on then d ∷ [] else []) ↔ (on ≡ true → Positive d)
Positive-time true d = (λ p e. p.0, λ f. (f refl, tt))
Positive-time false d = (λ p e. absurd (ground arith), λ f. tt)

module _ {fl : Floats} where
  -- The two intervals that the checks do not look at.
  abbrev pub Unchecked : Config fl → Type 0
  Unchecked cfg =
      Positive (cleanup_ticker cfg.health.cleanup_interval)
      × (cfg.time_sync.enabled ≡ true → Positive cfg.time_sync.poll_interval)

  discovery-validate :
      (c : Config fl) → (validate fl c).1 ≡ none → (validate fl c).0.discovery ≡ c.discovery
  unfolding validate
  discovery-validate c h = ground arith

  Positive-discovery :
      (cfg : Config fl)
      → pos 5000000000 ≤ℤ cfg.daemon.broadcast_interval
      → (cfg.discovery.enabled ≡ true → pos 10000000000 ≤ℤ cfg.discovery.scan_interval)
      → All Positive (discovery_tickers cfg)
  Positive-discovery cfg every scans = elim (Bool-cases cfg.discovery.enabled) [
    | inr off ↦ rw off tt
    | inl on ↦ elim (Bool-cases cfg.discovery.detect_services) [
      | inl e ↦
          rw (on, e)
            (let scan = scans on in
              (ground arith, (ground arith, (ground arith, (ground arith, tt)))))
      | inr e ↦ rw (on, e) (ground arith, (ground arith, tt))
    ]
  ]

  Positive-configured :
      (cfg : Config fl)
      → pos 5000000000 ≤ℤ cfg.daemon.broadcast_interval
      → (cfg.discovery.enabled ≡ true → pos 10000000000 ≤ℤ cfg.discovery.scan_interval)
      → All Positive (configured_tickers cfg) ↔ Unchecked cfg
  Positive-configured cfg every scans =
      let (apart, together) =
        All-append Positive (discovery_tickers cfg)
          (if cfg.time_sync.enabled then cfg.time_sync.poll_interval ∷ [] else []) in
      let (timed, untimed) = Positive-time cfg.time_sync.enabled cfg.time_sync.poll_interval in
      (
        λ p. (p.0, timed (apart p.1).1),
        λ p. (p.0, together (Positive-discovery cfg every scans, untimed p.1)),
      )

  -- In a daemon that main gets to run, the intervals of all tickers are positive exactly if that of the
  -- cleanup is (where zero stands for half a minute), and that of the time service too where it is
  -- on: the checks of the configuration keep every other interval positive.
  pub start_daemon-tickers :
      (starts : Bool) (system : Option (List Interface)) (opens : Str → Bool) (env : Env)
      (raw : Config fl) (s : System fl) (log : Logging)
      → start_daemon fl starts system opens env (some raw) ≡ running s log
      → All Positive (tickers s) ↔ Unchecked s.config
  unfolding start_daemon
  start_daemon-tickers starts system opens env raw s log h =
      let c = set_defaults fl raw in
      let (clean, (s0, made, ran)) =
        Made-after_validation starts system opens env (validate fl c) log s h in
      let same : s.config ≡ (validate fl c).0 =
        ap (λ x. x.config) (sym ran)
        ∙ config-run_start system env.now s0
        ∙ config-new_daemon env (validate fl c).0 s0 made in
      let asked : tickers s ≡ configured_tickers (validate fl c).0 =
        ap tickers (sym ran)
        ∙ tickers-run_start system env.now s0
        ∙ tickers-new_daemon env (validate fl c).0 s0 made in
      let (interval, ttl) = Bounded-validate c clean in
      let scans =
        subst (λ d. d.enabled ≡ true → pos 10000000000 ≤ℤ d.scan_interval)
          (sym (discovery-validate c clean)) (validate-scan_interval fl c clean) in
      subst (λ x. All Positive x ↔ Unchecked s.config) (sym asked)
        (subst (λ x. All Positive (configured_tickers (validate fl c).0) ↔ Unchecked x) (sym same)
          (Positive-configured (validate fl c).0 interval scans))
