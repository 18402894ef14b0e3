-- ===== src/Timesync/Service.antt =====
-- internal/timesync/service.go: TimeSyncService. The answers of the system to clock calls are an
-- argument (an error text, or none); log lines are left out.
use disco.Base.{
  Str, ℕ, ℤ, pos, Bool, true, false, ◌&&◌, is_none, not, if◌then◌else◌, Option, none, some,
}
use disco.Clock.{Time, Duration}
use disco.Security.{KeyManager}
use disco.Timesync.Adjustment.{
  AdjustmentMethod, ClockConfig, ClockCall, no_call, calculate_adjustment, clock_call,
}
use disco.Timesync.Floats.{Floats}
use disco.Timesync.Selection.{SelectError, Outcome, TimeUpdate, select_best_time}
use disco.Timesync.Sources.{TimeAnnounceMessage, TimeSourceStore, add, get_valid_sources}

-- The error texts of the status and of a forced update.
pub data SyncError : Type 0 where
  no_error : SyncError
  selection : SelectError → SyncError
  system : Str → SyncError

module _ (fl : Floats) where
  open fl use {Float}

  -- config.TimeSyncConfig; nothing reads max_dispersion.
  pub record TimeSyncConfig : Type 0 where
    pub enabled : Bool
    pub min_sources : ℤ
    pub max_source_spread : Duration
    pub max_stale_age : Duration
    pub max_dispersion : Float
    pub step_threshold : Duration
    pub slew_threshold : Duration
    pub poll_interval : Duration
    pub require_signed : Bool
    pub allow_step_backward : Bool

  pub record SyncStatus : Type 0 where
    pub synced : Bool
    pub source_count : ℕ
    pub last_offset : Float
    pub last_sync_time : Time
    pub last_error : SyncError

  pub record TimeSyncService : Type 0 where
    pub config : TimeSyncConfig
    pub key_manager : Option KeyManager
    pub store : TimeSourceStore fl
    pub status : SyncStatus

  pub record ForceUpdateResult : Type 0 where
    pub success : Bool
    pub offset : Float
    pub method : Option AdjustmentMethod
    pub source_count : ℕ
    pub error : SyncError

  unfoldable pub process_message : Time → TimeAnnounceMessage fl → TimeSyncService → TimeSyncService
  process_message now msg s =
      if not s.config.enabled
      then s
      else if s.config.require_signed && is_none msg.signature && not (is_none s.key_manager)
      then s
      else record s { store = add fl now msg s.store }

  unfoldable pub clock_config : TimeSyncConfig → ClockConfig
  clock_config cfg = record {
    step_threshold = cfg.step_threshold;
    slew_threshold = cfg.slew_threshold;
    allow_step_backward = cfg.allow_step_backward;
  }

  -- The clock configuration of a forced update: a millisecond and a microsecond.
  unfoldable pub forced_config : Bool → ClockConfig
  forced_config allow_backward = record {
    step_threshold = pos 1000000;
    slew_threshold = pos 1000;
    allow_step_backward = allow_backward;
  }

  -- The status after a successful selection.
  unfoldable pub synced_status : Time → TimeUpdate fl → SyncStatus → SyncStatus
  synced_status now update st = record st {
    synced = true;
    source_count = update.source_count;
    last_offset = update.offset;
    last_sync_time = now;
    last_error = no_error;
  }

  -- The answer of the system to a call; none is made without an adjustment.
  abbrev pub System : Type 0
  System = ClockCall → Option Str

  unfoldable pub answer : System → ClockCall → Option Str
  answer sys no_call = none
  answer sys (ClockCall.settimeofday t) = sys (ClockCall.settimeofday t)
  answer sys (ClockCall.adjtimex d) = sys (ClockCall.adjtimex d)

  -- The adjustment of an update, the status that is set before the clock is called, and the one
  -- that an error of the system leaves.
  unfoldable pub adjusted :
      System
      → Time
      → ClockConfig
      → TimeUpdate fl
      → TimeSyncService
      → TimeSyncService × ClockCall × Option Str
  unfolding synced_status answer clock_call
  adjusted sys now cfg update s =
      let call = clock_call (calculate_adjustment fl now update.offset cfg) in
      let st = synced_status now update s.status in
      elim (answer sys call) [
        | none ↦ (record s { status = st }, call, none)
        | some e ↦ (record s { status = record st { last_error = system e } }, call, some e)
      ]

  -- `evaluateAndAdjust`; `none` is the panic of the selection.
  unfoldable pub evaluate_and_adjust :
      System → Time → TimeSyncService → Option (TimeSyncService × ClockCall)
  unfolding adjusted clock_config
  evaluate_and_adjust sys now s =
      elim (select_best_time fl now (get_valid_sources fl s.store now) s.config.min_sources
        s.config.max_source_spread) [
          | Outcome.chosen update ↦
              let (s', call, e) = adjusted sys now (clock_config s.config) update s in
              some (s', call)
          | Outcome.refused e ↦ some (
            record s { status = record s.status { synced = false; last_error = selection e } },
            no_call,
          )
          | Outcome.panicked ↦ none
        ]

  unfoldable pub failed_update : SyncError → ForceUpdateResult
  failed_update e = record {
    success = false;
    offset = fl.zero;
    method = none;
    source_count = 0;
    error = e;
  }

  -- `ForceUpdate`
  unfoldable pub force_update :
      System
      → Time
      → Bool
      → TimeSyncService
      → Option (TimeSyncService × ClockCall × ForceUpdateResult)
  unfolding adjusted forced_config failed_update
  force_update sys now allow_backward s =
      elim (select_best_time fl now (get_valid_sources fl s.store now) s.config.min_sources
        s.config.max_source_spread) [
          | Outcome.refused e ↦ some (s, no_call, failed_update (selection e))
          | Outcome.panicked ↦ none
          | Outcome.chosen update ↦
              let cfg = forced_config allow_backward in
              let (s', call, e) = adjusted sys now cfg update s in
              elim e [
                | some text ↦ some (s', call, failed_update (system text))
                | none ↦ some (
                  s',
                  call,
                  record {
                    success = true;
                    offset = update.offset;
                    method = some (calculate_adjustment fl now update.offset cfg).method;
                    source_count = update.source_count;
                    error = no_error;
                  },
                )
              ]
        ]
