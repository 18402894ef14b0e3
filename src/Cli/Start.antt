-- ===== src/Cli/Start.antt =====
-- cmd/disco/commands/start.go: which arguments are passed on to the daemon.
use disco.Base.{
  Str, Str_eq, bytes, not, List, [], ◌∷◌, ◌++◌, Option, none, some, if◌then◌else◌, any, ◌≟◌,
}
use disco.Cli.Validation.{Invalid}

abbrev pub allowed_daemon_flags : List Str
allowed_daemon_flags =
    bytes "-config" ∷ bytes "-v" ∷ bytes "-verbose" ∷ bytes "-help" ∷ bytes "--help" ∷ []

pub data StartError : Type 0 where
  disallowed_flag : Str → StartError
  invalid_config : Invalid → StartError

pub data Outcome : Type 0 where
  passed : List Str → Outcome
  refused : StartError → Outcome

abbrev pub passing : List Str → Outcome → Outcome
passing args (passed rest) = passed (args ++ rest)
passing args (refused e) = refused e

-- A checked path, before what follows.
abbrev pub checked : Option Invalid → Outcome → Outcome
checked none rest = rest
checked (some e) rest = refused (invalid_config e)

-- The loop over the arguments: what is passed on, or the first error. `check` is
-- ValidateConfigPath. The argument after `-config` is its path, and is not looked at as a flag.
unfoldable pub validated_args : (Str → Option Invalid) → List Str → Outcome
validated_args check [] = passed []
validated_args check (flag ∷ []) =
    if any (λ f. f ≟ flag) allowed_daemon_flags
    then passed (flag ∷ [])
    else refused (disallowed_flag flag)
validated_args check (flag ∷ next ∷ args) =
    let after_path = validated_args check args in
    let after_flag = validated_args check (next ∷ args) in
    if not (any (λ f. f ≟ flag) allowed_daemon_flags)
    then refused (disallowed_flag flag)
    else if flag ≟ bytes "-config"
    then checked (check next) (passing (flag ∷ next ∷ []) after_path)
    else passing (flag ∷ []) after_flag
