-- ===== src/Protocol.antt =====
-- internal/nss/protocol.go: the queries and responses of the daemon's socket; and formatDuration of
-- internal/daemon/socket.go. The JSON texts in a response's Records are the data that is encoded.
use disco.Base.{
  Str, bytes, ℕ, ℤ, pos, Bool, List, [], ◌++◌, ltb_ℤ, if◌then◌else◌, sub_ℕ, pos_part, neg_part, ◌/◌,
  ◌%◌,
}
use disco.Clock.{Duration, whole_seconds}
use disco.Dict.{Dict}
use disco.Net.{format_int}
use disco.Timesync.Floats.{Floats}
use disco.Timesync.Service.{SyncStatus, ForceUpdateResult}

-- The message types, of which a response has one of the last three.
pub data QueryType : Type 0 where
  query_by_name query_by_addr query_list query_list_hosts query_list_services : QueryType
  hosts_list hosts_show hosts_forget hosts_mark_lost : QueryType
  services_list services_show services_forget service_announce : QueryType
  location_list location_show time_status time_force_update : QueryType
  other : Str → QueryType

pub data ResponseType : Type 0 where
  response_ok response_not_found response_error : ResponseType

pub record Query : Type 0 where
  pub query_type : QueryType
  pub name : Str
  pub addr : Str
  pub family : ℤ
  pub port : ℤ
  pub aliases : List Str
  pub request_id : Str

pub record HostHealth : Type 0 where
  pub hostname : Str
  pub machine_id : Str
  pub addresses : List Str
  pub status : Str
  pub services : Dict Str Str
  pub last_seen : ℤ
  pub last_seen_ago : Str
  pub is_static : Bool

-- Port and Aliases, which no handler sets, are left out.
pub record ServiceHealth : Type 0 where
  pub name : Str
  pub protocol : Str
  pub hosts : List Str
  pub status : Str

-- The structs of the three query handlers that are encoded.
pub record RecordInfo : Type 0 where
  pub hostname : Str
  pub addresses : List Str
  pub services : Dict Str Str
  pub timestamp : ℤ
  pub ttl : ℤ

pub record HostInfo : Type 0 where
  pub hostname : Str
  pub addresses : List Str
  pub services : List Str
  pub first_seen : ℤ
  pub last_seen : ℤ
  pub ttl : ℤ
  pub expires_in : ℤ

pub record ServiceHost : Type 0 where
  pub hostname : Str
  pub address : Str
  pub port : ℤ

-- `t / unit` on a time.Duration as `int(d.Minutes())` gives it: truncated towards zero.
abbrev pub whole : ℕ → Duration → ℤ
whole unit d = sub_ℕ (pos_part d / unit) (neg_part d / unit)

abbrev pub minute : ℕ
minute = 60000000000

abbrev pub hour : ℕ
hour = 3600000000000

unfoldable pub format_duration : Duration → Str
format_duration d =
    if ltb_ℤ d (pos minute)
    then format_int (whole_seconds d) ++ bytes "s"
    else if ltb_ℤ d (pos hour)
    then format_int (whole minute d) ++ bytes "m"
    else format_int (whole hour d)
      ++ bytes "h"
      ++ format_int (pos (pos_part (whole minute d) % 60))
      ++ bytes "m"

module _ (fl : Floats) where
  open fl use {Float}

  pub record LocationHealth : Type 0 where
    pub source_id : Str
    pub latitude : Float
    pub longitude : Float
    pub altitude : Float
    pub satellites : ℤ
    pub fixed : Bool
    pub last_seen : ℤ
    pub last_seen_ago : Str

  pub data Payload : Type 0 where
    no_records : Payload
    record_list : List RecordInfo → Payload
    host_list : List HostInfo → Payload
    service_map : Dict Str (List ServiceHost) → Payload
    sync_status : SyncStatus fl → Payload
    update_result : ForceUpdateResult fl → Payload

  -- The fields that no handler sets (Aliases, AddrType, AddrLen) are left out.
  pub record Response : Type 0 where
    pub response_type : ResponseType
    pub request_id : Str
    pub name : Str
    pub addrs : List Str
    pub error : Str
    pub records : Payload
    pub count : ℕ
    pub hosts : List HostHealth
    pub services : List ServiceHealth
    pub locations : List LocationHealth

  -- An OK response with nothing but the id, and the constructors of the package.
  unfoldable pub ok_response : Str → Response
  ok_response request_id = record {
    response_type = response_ok;
    request_id = request_id;
    name = [];
    addrs = [];
    error = [];
    records = no_records;
    count = 0;
    hosts = [];
    services = [];
    locations = [];
  }

  unfoldable pub new_ok_response : Str → Str → List Str → Response
  unfolding ok_response
  new_ok_response request_id name addrs = record (ok_response request_id) {
    name = name;
    addrs = addrs;
  }

  unfoldable pub new_not_found_response : Str → Response
  new_not_found_response request_id = record (ok_response request_id) {
    response_type = response_not_found;
  }

  unfoldable pub new_error_response : Str → Str → Response
  new_error_response request_id message = record (ok_response request_id) {
    response_type = response_error;
    error = message;
  }
