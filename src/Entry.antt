-- ===== src/Entry.antt =====
-- cmd/daemon/main.go: from the configuration file to the running daemon. What the file is decoded to
-- is an argument (`none` if it cannot be read or decoded), and so is whether the log file can be
-- opened and the socket server started. The flags are left to the caller.
pub mod Composed
pub mod Lasting
pub mod Ticking
use disco.Base.{Str, Bool, true, false, List, Option, none, some, if◌then◌else◌}
use disco.Clock.{Time}
use disco.Timesync.Floats.{Floats}
use disco.Config.{Config, LoggingConfig, set_defaults}
use disco.Config.Validation.{ConfigError, validate}
use disco.Discovery.Interfaces.{Interface}
use disco.Logging.{Logging, LogConfig, parse_log_level, setup, initial}
use disco.Startup.{Env, System, new_daemon}
use disco.Startup.Run.{run_start}

-- setupLogging
unfoldable pub setup_logging : (Str → Bool) → LoggingConfig → Logging × Bool
setup_logging opens cfg =
    setup opens (record { level = parse_log_level cfg.level; format = cfg.format; file = cfg.file })
      initial

-- Why the program exits.
pub data Exit : Type 0 where
  load_failed logging_failed creation_failed run_failed : Exit
  config_invalid : ConfigError → Exit

module _ (fl : Floats) where
  -- Up to where Run waits for a signal.
  pub data Outcome : Type 0 where
    exited : Exit → Outcome
    running : System fl → Logging → Outcome

  -- Run, with what the system lists as interfaces, and whether the socket server starts.
  unfoldable pub after_new :
      Bool → Option (List Interface) → Time → Logging → Option (System fl) → Outcome
  after_new socket_starts system now log none = exited creation_failed
  after_new socket_starts system now log (some s) =
      if socket_starts then running (run_start system now s) log else exited run_failed

  unfoldable pub after_setup :
      Bool → Option (List Interface) → Env → Config fl → Logging × Bool → Outcome
  unfolding after_new
  after_setup socket_starts system env cfg (log, false) = exited logging_failed
  after_setup socket_starts system env cfg (log, true) =
      after_new socket_starts system env.now log (new_daemon fl env cfg)

  unfoldable pub after_validation :
      Bool → Option (List Interface) → (Str → Bool) → Env → Config fl × Option ConfigError → Outcome
  unfolding after_setup setup_logging
  after_validation socket_starts system opens env (cfg, some e) = exited (config_invalid e)
  after_validation socket_starts system opens env (cfg, none) =
      after_setup socket_starts system env cfg (setup_logging opens cfg.logging)

  -- `main`
  unfoldable pub start_daemon :
      Bool → Option (List Interface) → (Str → Bool) → Env → Option (Config fl) → Outcome
  unfolding after_validation
  start_daemon socket_starts system opens env none = exited load_failed
  start_daemon socket_starts system opens env (some raw) =
      after_validation socket_starts system opens env (validate fl (set_defaults fl raw))
