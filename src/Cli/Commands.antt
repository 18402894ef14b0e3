-- ===== src/Cli/Commands.antt =====
-- cmd/disco/commands/lookup.go, hosts.go (forget, mark-lost), services.go, location.go, time.go,
-- key.go and config.go: what the commands ask, and what they end with. `ask` sends a query and gives
-- the answer, or none for an error; printing is left to the caller.
pub mod Looked
use disco.Base.{
  Str, Str_eq, bytes, ℕ, ℤ, Bool, true, false, List, [], ◌∷◌, Option, none, some, if◌then◌else◌,
  is_empty, ◌≟◌,
}
use disco.Timesync.Floats.{Floats}
use disco.Config.{Config, set_defaults}
use disco.Config.Validation.{ConfigError, validate}
use disco.Client.{ForceUpdateResult}
use disco.Protocol.{
  Query, QueryType, Response, ResponseType, response_not_found, ServiceHealth, LocationHealth,
}
use disco.Cli.Hosts.{name_query}
use disco.Cli.Keys.{Keys, KeyError, already_trusted, add_trusted_peer, generate, load}
use disco.Cli.Output.{Table, new_table, add_row, truncate, join_strings}
use disco.Cli.Ping.{handle_response}
use disco.Cli.Validation.{Invalid, validate_hostname, validate_hex_key}

-- What a command ends with: a result, or an exit.
pub data Ending {ℓ} (A : Type ℓ) : Type ℓ where
  done : A → Ending A
  invalid : Invalid → Ending A
  failed not_found : Ending A

-- The check of the argument, before what follows.
abbrev pub unless_invalid {ℓ} : {A : Type ℓ} → Option Invalid → Ending A → Ending A
unless_invalid none rest = rest
unless_invalid (some e) rest = invalid e

-- checkError, twice: on the query, and on the error that the daemon answers with.
abbrev pub answered {ℓ} :
    {fl : Floats} {A : Type ℓ} → Option (Response fl) → (Response fl → Ending A) → Ending A
answered none next = failed
answered (some r) next = next r

module _ (fl : Floats) (ask : Query → Option (Response fl)) (id : Str) where
  unfoldable pub addresses_of : Response fl → Ending (List Str)
  addresses_of r = elim r.response_type [ response_not_found ↦ not_found | _ ↦ done r.addrs ]

  unfoldable pub do_lookup : Str → Ending (List Str)
  unfolding addresses_of
  do_lookup hostname = unless_invalid (validate_hostname hostname) (
      answered (handle_response fl (ask (name_query QueryType.query_by_name hostname id)))
        addresses_of)

  unfoldable pub forget_host : Str → Ending (Unit {0})
  forget_host hostname = unless_invalid (validate_hostname hostname) (
      answered (handle_response fl (ask (name_query QueryType.hosts_forget hostname id)))
        λ r. done tt)

  unfoldable pub mark_lost_host : Str → Ending (Unit {0})
  mark_lost_host hostname = unless_invalid (validate_hostname hostname) (
      answered (handle_response fl (ask (name_query QueryType.hosts_mark_lost hostname id)))
        λ r. done tt)

  -- `response.Type == nss.ResponseNotFound || len(response.Services) == 0`, else the first service.
  unfoldable pub service_of : Response fl → Ending ServiceHealth
  service_of r = elim r.response_type [
    | response_not_found ↦ not_found
    | _ ↦ elim r.services [ [] ↦ not_found | s ∷ rest ↦ done s ]
  ]

  unfoldable pub show_service : Str → Ending ServiceHealth
  unfolding service_of
  show_service name =
      answered (handle_response fl (ask (name_query QueryType.services_show name id))) service_of

  unfoldable pub location_of : Response fl → Ending (LocationHealth fl)
  location_of r = elim r.locations [ [] ↦ not_found | l ∷ rest ↦ done l ]

  unfoldable pub show_location : Str → Ending (LocationHealth fl)
  unfolding location_of
  show_location name =
      answered (handle_response fl (ask (name_query QueryType.location_show name id))) location_of

-- The table of listServices; `none` is the panic of Truncate.
unfoldable pub service_rows : List ServiceHealth → Table → Option Table
service_rows [] t = some t
service_rows (s ∷ rest) t = elim (truncate (join_strings s.hosts (bytes ", ")) 38) [
  | none ↦ none
  | some hosts ↦ service_rows rest (add_row (s.name ∷ s.protocol ∷ hosts ∷ []) t)
]

unfoldable pub services_table : List ServiceHealth → Option Table
unfolding service_rows
services_table services =
    service_rows services (new_table (bytes "SERVICE" ∷ bytes "PROTOCOL" ∷ bytes "HOSTS" ∷ []))

-- The error of forceTimeUpdate, where the update is no success.
unfoldable pub force_error : {fl : Floats} → ForceUpdateResult fl → Option Str
force_error result =
    if result.success
    then none
    else if is_empty result.error
    then some (bytes "unknown error")
    else some result.error

-- What addTrustedKey ends with, and the keys that it saves.
pub data AddKey : Type 0 where
  saves : Keys → AddKey
  already : AddKey
  wrong_key : Invalid → AddKey
  refused : KeyError → AddKey
  not_loaded : AddKey

abbrev pub after_add : Keys × Option KeyError → AddKey
after_add (k, none) = saves k
after_add (k, some already_trusted) = already
after_add (k, some e) = refused e

unfoldable pub add_trusted_key : Str → Option Keys → AddKey
unfolding add_trusted_peer
add_trusted_key pub_key read = elim (validate_hex_key pub_key 64) [
  | some e ↦ wrong_key e
  | none ↦ elim (load read) [ none ↦ not_loaded | some k ↦ after_add (add_trusted_peer pub_key k) ]
]

-- What validateConfig ends with, for a path that is checked and a file that is decoded.
pub data ConfigCheck : Type 0 where
  bad_path : Invalid → ConfigCheck
  no_config : ConfigCheck
  bad_config : ConfigError → ConfigCheck
  ready : ConfigCheck

unfoldable pub validate_config : (fl : Floats) → Option Invalid → Option (Config fl) → ConfigCheck
validate_config fl (some e) loaded = bad_path e
validate_config fl none none = no_config
validate_config fl none (some raw) = elim (validate fl (set_defaults fl raw)).1 [
  | some e ↦ bad_config e
  | none ↦ ready
]
