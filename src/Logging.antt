-- ===== src/Logging.antt =====
-- internal/logging/logging.go, and the setup of cmd/daemon/main.go. A log call is seen as the lines
-- that it writes and where; the text of a JSON entry (`encode`), the time of day and the header of
-- package log are left to the environment. A field is given by the text that `%v` prints.
pub mod Destinations
use disco.Base.{
  Str, Str_eq, bytes, ℕ, ℤ, pos, Bool, true, false, not, ◌&&◌, List, [], ◌∷◌, ◌++◌, Option, none,
  some, if◌then◌else◌, ltb_ℤ, eqb_ℤ, is_empty, ◌≟◌, ◌+ℤ◌,
}
use disco.Dict.{Dict, insert}

-- A LogLevel is an int.
abbrev pub debug : ℤ
debug = pos 0

abbrev pub info : ℤ
info = pos 1

abbrev pub warn : ℤ
warn = pos 2

abbrev pub error : ℤ
error = pos 3

abbrev pub fatal : ℤ
fatal = pos 4

unfoldable pub level_string : ℤ → Str
level_string l =
    if eqb_ℤ l debug
    then bytes "DEBUG"
    else if eqb_ℤ l info
    then bytes "INFO"
    else if eqb_ℤ l warn
    then bytes "WARN"
    else if eqb_ℤ l error
    then bytes "ERROR"
    else if eqb_ℤ l fatal
    then bytes "FATAL"
    else bytes "UNKNOWN"

-- parseLogLevel of cmd/daemon/main.go.
unfoldable pub parse_log_level : Str → ℤ
parse_log_level level =
    if level ≟ bytes "debug"
    then debug
    else if level ≟ bytes "info"
    then info
    else if level ≟ bytes "warn"
    then warn
    else if level ≟ bytes "error"
    then error
    else if level ≟ bytes "fatal"
    then fatal
    else info

pub record LogConfig : Type 0 where
  pub level : ℤ
  pub format : Str
  pub file : Str

-- Package log writes to the standard error.
pub data Output : Type 0 where
  stdout stderr : Output
  file : Str → Output

-- The variables of the package.
pub record Logging : Type 0 where
  pub current_level : ℤ
  pub json_log : Option Output

unfoldable pub initial : Logging
initial = record { current_level = info; json_log = none }

-- The output of Setup: `opens` says whether the file can be opened.
unfoldable pub output_of : (Str → Bool) → Str → Option Output
output_of opens path =
    if is_empty path then some stdout else if opens path then some (file path) else none

-- Setup: the variables, and whether there is no error.
unfoldable pub setup : (Str → Bool) → LogConfig → Logging → Logging × Bool
unfolding output_of
setup opens cfg s = elim (output_of opens cfg.file) [
  | none ↦ (record s { current_level = cfg.level }, false)
  | some output ↦ (
    record {
      current_level = cfg.level;
      json_log = if cfg.format ≟ bytes "json" then some output else s.json_log;
    },
    true,
  )
]

-- formatMessage
unfoldable pub field_texts : Bool → Dict Str Str → Str
field_texts first [] = []
field_texts first ((k, v) ∷ fields) =
    (if first then [] else bytes ", ") ++ k ++ bytes "=" ++ v ++ field_texts false fields

unfoldable pub format_message : Str → Dict Str Str → Str
unfolding field_texts
format_message msg [] = msg
format_message msg (f ∷ fields) = msg ++ bytes " [" ++ field_texts true (f ∷ fields) ++ bytes "]"

-- `for k, v := range fields { entry[k] = v }`
unfoldable pub with_fields : Dict Str Str → Dict Str Str → Dict Str Str
with_fields entry [] = entry
with_fields entry ((k, v) ∷ fields) = with_fields (insert k v entry) fields

abbrev pub Line : Type 0
Line = Output × Str

module _ (encode : Dict Str Str → Str) where
  -- The entry of jsonLogger.Log.
  unfoldable pub json_entry : Str → ℤ → Str → Dict Str Str → Dict Str Str
  unfolding level_string with_fields
  json_entry timestamp level msg fields =
      with_fields
        ((bytes "timestamp", timestamp)
          ∷ (bytes "level", level_string level)
          ∷ (bytes "message", msg)
          ∷ [])
        fields

  -- A line at a level, by the JSON logger if there is one, else by package log.
  unfoldable pub log_line : Logging → Str → ℤ → Str → Dict Str Str → Line
  unfolding json_entry format_message level_string
  log_line s timestamp level msg fields = elim s.json_log [
    | some output ↦ (output, encode (json_entry timestamp level msg fields))
    | none ↦ (stderr, bytes "[" ++ level_string level ++ bytes "] " ++ format_message msg fields)
  ]

  -- Debug, Info and Warn, by their level; and Error, whose error is one more field.
  unfoldable pub log : Logging → Str → ℤ → Str → Dict Str Str → List Line
  unfolding log_line
  log s timestamp level msg fields =
      if ltb_ℤ level s.current_level then [] else log_line s timestamp level msg fields ∷ []

  unfoldable pub with_error : Option Str → Dict Str Str → Dict Str Str
  with_error none fields = fields
  with_error (some text) fields = insert (bytes "error") text fields

  unfoldable pub log_error : Logging → Str → Str → Option Str → Dict Str Str → List Line
  unfolding log with_error with_fields
  log_error s timestamp msg err fields =
      log s timestamp error msg (with_error err (with_fields [] fields))

  -- Fatal, before it exits: no level keeps its line back.
  unfoldable pub log_fatal : Logging → Str → Str → Option Str → Line
  unfolding json_entry with_error
  log_fatal s timestamp msg err = elim s.json_log [
    | some output ↦ (output, encode (json_entry timestamp fatal msg (with_error err [])))
    | none ↦ (
      stderr,
      bytes "[FATAL] " ++ msg ++ bytes " " ++ elim err [ none ↦ bytes "<nil>" | some text ↦ text ],
    )
  ]
