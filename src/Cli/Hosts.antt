-- ===== src/Cli/Hosts.antt =====
-- cmd/disco/commands/hosts.go (list, show), services.go and status.go: what the commands show of the
-- daemon's answers. `ask` sends a query and gives the answer, or none for an error.
pub mod Prefixes
use disco.Base.{
  Str, Str_eq, bytes, ℕ, ℤ, pos, suc, Bool, true, false, not, ◌&&◌, ◌||◌, List, [], ◌∷◌, ◌++◌,
  Option, none, some, if◌then◌else◌, leb, is_none, is_empty, ◌≟◌, map, select, length,
}
use disco.Dict.{Dict}
use disco.Timesync.Floats.{Floats}
use disco.Protocol.{
  HostHealth, ServiceHealth, Query, QueryType, Response, ResponseType, response_not_found,
}
use disco.Cli.Output.{prefix, truncate, join_strings, colorize_status, Table, new_table, add_row}
use disco.Cli.Ping.{has_prefix, handle_response}
use disco.Cli.Validation.{Invalid, is_hex_prefix, validate_hex_key, validate_hostname}

-- The id that the tables show: eight characters at most.
unfoldable pub short_id : Str → Str
short_id id = if is_empty id then bytes "-" else if leb (length id) 8 then id else prefix 8 id

abbrev pub keys {ℓ} : {A : Type ℓ} → Dict Str A → List Str
keys [] = []
keys ((k, v) ∷ m) = k ∷ keys m

abbrev pub or_dash : Str → Str
or_dash s = if is_empty s then bytes "-" else s

-- A row of listHosts; `none` is the panic of Truncate.
unfoldable pub host_row : Bool → HostHealth → Option (List Str)
host_row terminal h = elim (truncate (join_strings h.addresses (bytes ", ")) 34) [
  | none ↦ none
  | some addrs ↦ elim (truncate (join_strings (keys h.services) (bytes ", ")) 18) [
    | none ↦ none
    | some svcs ↦ some (
        short_id h.machine_id
        ∷ h.hostname
        ∷ addrs
        ∷ colorize_status terminal h.status
        ∷ or_dash svcs
        ∷ h.last_seen_ago
        ∷ [])
  ]
]

unfoldable pub host_rows : Bool → List HostHealth → Table → Option Table
unfolding host_row
host_rows terminal [] t = some t
host_rows terminal (h ∷ hosts) t = elim (host_row terminal h) [
  | none ↦ none
  | some row ↦ host_rows terminal hosts (add_row row t)
]

unfoldable pub hosts_table : Bool → List HostHealth → Option Table
unfolding host_rows
hosts_table terminal hosts = host_rows terminal hosts (
    new_table (
      bytes "ID"
      ∷ bytes "HOSTNAME"
      ∷ bytes "ADDRESSES"
      ∷ bytes "STATUS"
      ∷ bytes "SERVICES"
      ∷ bytes "LAST SEEN"
      ∷ []))

-- The counts of doStatus: healthy, stale, lost, static.
unfoldable pub status_counts : List HostHealth → ℕ × ℕ × ℕ × ℕ
status_counts [] = (0, 0, 0, 0)
status_counts (h ∷ hosts) =
    let (healthy, stale, lost, static) = status_counts hosts in
    if h.status ≟ bytes "healthy"
    then (suc healthy, stale, lost, static)
    else if h.status ≟ bytes "stale"
    then (healthy, suc stale, lost, static)
    else if h.status ≟ bytes "lost"
    then (healthy, stale, suc lost, static)
    else if h.status ≟ bytes "static"
    then (healthy, stale, lost, suc static)
    else (healthy, stale, lost, static)

-- What `disco hosts show` ends with.
pub data Shown : Type 0 where
  detail : HostHealth → Shown
  invalid : Invalid → Shown
  failed not_found : Shown
  ambiguous : List HostHealth → Shown

-- The hosts whose machine id starts with the text, and the switch on their number.
unfoldable pub by_prefix : Str → List HostHealth → List HostHealth
by_prefix name hosts = select (λ h. has_prefix name h.machine_id) hosts

unfoldable pub choose : List HostHealth → Shown
choose [] = not_found
choose (h ∷ []) = detail h
choose (h ∷ next ∷ hosts) = ambiguous (h ∷ next ∷ hosts)

-- A query with a name, and no more.
abbrev pub name_query : QueryType → Str → Str → Query
name_query type name id = record {
  query_type = type;
  name = name;
  addr = [];
  family = pos 0;
  port = pos 0;
  aliases = [];
  request_id = id;
}

module _ (fl : Floats) where
  -- `response.Type != nss.ResponseNotFound && len(response.Hosts) > 0`, with the first host.
  unfoldable pub exact_host : Response fl → Option HostHealth
  exact_host r = elim r.response_type [
    | response_not_found ↦ none
    | _ ↦ elim r.hosts [ [] ↦ none | h ∷ hosts ↦ some h ]
  ]

  -- The fallback: all hosts, matched by prefix.
  unfoldable pub show_by_prefix : Option (Response fl) → Str → Shown
  unfolding by_prefix choose
  show_by_prefix listed name = elim (handle_response fl listed) [
    | none ↦ failed
    | some r ↦ choose (by_prefix name r.hosts)
  ]

  -- The check of the argument of showHost.
  unfoldable pub name_error : Str → Option Invalid
  name_error name =
      if is_hex_prefix name || is_none (validate_hex_key name 32)
      then none
      else validate_hostname name

  unfoldable pub show_host : (Query → Option (Response fl)) → Str → Str → Str → Shown
  unfolding exact_host show_by_prefix name_error
  show_host ask id prefix_id name = elim (name_error name) [
    | some e ↦ invalid e
    | none ↦ elim (handle_response fl (ask (name_query QueryType.hosts_show name id))) [
      | none ↦ failed
      | some r ↦ elim (exact_host r) [
        | some h ↦ detail h
        | none ↦
            (if is_hex_prefix name
              then show_by_prefix (ask (name_query QueryType.hosts_list [] prefix_id)) name
              else not_found)
      ]
    ]
  ]
