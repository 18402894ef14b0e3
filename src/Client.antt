-- ===== src/Client.antt =====
-- internal/client/client.go, the client of the time commands, and how its JSON objects meet those of
-- internal/nss/protocol.go. The connection is an argument: it gives the object that the daemon
-- answers with, or none for an error.
pub mod Answered
use disco.Base.{
  Str, Str_eq, bytes, ℕ, ℤ, pos, Bool, true, false, List, [], ◌∷◌, Option, none, some,
  if◌then◌else◌, ◌≟◌, is_empty, ◌==◌, eqb_ℤ,
}
use disco.Dict.{Dict, lookup}
use disco.Timesync.Floats.{Floats}
use disco.Protocol.{
  Query, QueryType, query_by_name, query_by_addr, query_list, query_list_hosts, query_list_services,
  hosts_list, hosts_show, hosts_forget, hosts_mark_lost, services_list, services_show,
  services_forget, service_announce, location_list, location_show, time_status, time_force_update,
  other, ResponseType, response_ok, response_not_found, response_error, Payload, no_records,
  Response,
}

-- The texts of the message types of a query; the time queries are literals in the daemon.
unfoldable pub query_type_of : Str → QueryType
query_type_of s =
    if s ≟ bytes "QUERY_BY_NAME"
    then query_by_name
    else if s ≟ bytes "QUERY_BY_ADDR"
    then query_by_addr
    else if s ≟ bytes "LIST"
    then query_list
    else if s ≟ bytes "LIST_HOSTS"
    then query_list_hosts
    else if s ≟ bytes "LIST_SERVICES"
    then query_list_services
    else if s ≟ bytes "HOSTS_LIST"
    then hosts_list
    else if s ≟ bytes "HOSTS_SHOW"
    then hosts_show
    else if s ≟ bytes "HOSTS_FORGET"
    then hosts_forget
    else if s ≟ bytes "HOSTS_MARK_LOST"
    then hosts_mark_lost
    else if s ≟ bytes "SERVICES_LIST"
    then services_list
    else if s ≟ bytes "SERVICES_SHOW"
    then services_show
    else if s ≟ bytes "SERVICES_FORGET"
    then services_forget
    else if s ≟ bytes "SERVICE_ANNOUNCE"
    then service_announce
    else if s ≟ bytes "LOCATION_LIST"
    then location_list
    else if s ≟ bytes "LOCATION_SHOW"
    then location_show
    else if s ≟ bytes "TIME_STATUS"
    then time_status
    else if s ≟ bytes "TIME_FORCE_UPDATE"
    then time_force_update
    else other s

unfoldable pub response_type_text : ResponseType → Str
response_type_text response_ok = bytes "OK"
response_type_text response_not_found = bytes "NOTFOUND"
response_type_text response_error = bytes "ERROR"

module _ (fl : Floats) where
  open fl use {Float}

  -- A JSON value, as encoding/json decodes it into an interface{}.
  pub data Value : Type 0 where
    boolean : Bool → Value
    number : Float → Value
    text : Str → Value
    texts : List Str → Value
    composite : Value

  abbrev pub Object : Type 0
  Object = Dict Str Value

  abbrev pub as_bool : Option Value → Bool
  as_bool (some (boolean b)) = b
  as_bool _ = false

  abbrev pub as_number : Option Value → Float
  as_number (some (number x)) = x
  as_number _ = fl.zero

  abbrev pub as_int : Option Value → ℤ
  as_int (some (number x)) = fl.to_int x
  as_int _ = pos 0

  abbrev pub as_text : Option Value → Str
  as_text (some (text s)) = s
  as_text _ = []

  abbrev pub as_texts : Option Value → List Str
  as_texts (some (texts ss)) = ss
  as_texts _ = []

  pub record TimeStatus : Type 0 where
    pub synced : Bool
    pub source_count : ℤ
    pub last_offset : Float
    pub last_sync_time : Str
    pub last_error : Str

  pub record ForceUpdateResult : Type 0 where
    pub success : Bool
    pub offset : Float
    pub method : Str
    pub source_count : ℤ
    pub error : Str

  unfoldable pub status_request : Str → Object
  status_request id =
      (bytes "type", text (bytes "TIME_STATUS")) ∷ (bytes "request_id", text id) ∷ []

  unfoldable pub status_of : Object → TimeStatus
  status_of resp = record {
    synced = as_bool (lookup (bytes "synced") resp);
    source_count = as_int (lookup (bytes "source_count") resp);
    last_offset = as_number (lookup (bytes "last_offset") resp);
    last_sync_time = as_text (lookup (bytes "last_sync_time") resp);
    last_error = as_text (lookup (bytes "last_error") resp);
  }

  -- GetTimeStatus
  unfoldable pub get_time_status : (Object → Option Object) → Str → Option TimeStatus
  unfolding status_request status_of
  get_time_status connection id = elim (connection (status_request id)) [
    | none ↦ none
    | some resp ↦ some (status_of resp)
  ]

  unfoldable pub force_request : Bool → Str → Object
  force_request allow_backward id =
      (bytes "type", text (bytes "TIME_FORCE_UPDATE"))
      ∷ (bytes "request_id", text id)
      ∷ (bytes "allow_backward", boolean allow_backward)
      ∷ []

  unfoldable pub force_result_of : Object → ForceUpdateResult
  force_result_of resp = record {
    success = as_bool (lookup (bytes "success") resp);
    offset = as_number (lookup (bytes "offset") resp);
    method = as_text (lookup (bytes "method") resp);
    source_count = as_int (lookup (bytes "source_count") resp);
    error = as_text (lookup (bytes "error") resp);
  }

  -- ForceTimeUpdate
  unfoldable pub force_time_update :
      (Object → Option Object) → Bool → Str → Option ForceUpdateResult
  unfolding force_request force_result_of
  force_time_update connection allow_backward id =
      elim (connection (force_request allow_backward id)) [
        | none ↦ none
        | some resp ↦ some (force_result_of resp)
      ]

  -- UnmarshalQuery: a field that the object does not have is empty.
  unfoldable pub unmarshal_query : Object → Query
  unfolding query_type_of
  unmarshal_query o = record {
    query_type = query_type_of (as_text (lookup (bytes "type") o));
    name = as_text (lookup (bytes "name") o);
    addr = as_text (lookup (bytes "addr") o);
    family = as_int (lookup (bytes "family") o);
    port = as_int (lookup (bytes "port") o);
    aliases = as_texts (lookup (bytes "aliases") o);
    request_id = as_text (lookup (bytes "request_id") o);
  }

  -- A field of a struct with its JSON key, and whether `omitempty` leaves it out.
  pub record Field : Type 0 where
    pub key : Str
    pub omitted : Bool
    pub value : Value

  unfoldable pub object_of : List Field → Object
  object_of [] = []
  object_of (f ∷ fields) =
      if f.omitted then object_of fields else (f.key, f.value) ∷ object_of fields

  abbrev pub is_nil {ℓ} : {A : Type ℓ} → List A → Bool
  is_nil [] = true
  is_nil (x ∷ xs) = false

  abbrev pub has_no_records : Payload fl → Bool
  has_no_records no_records = true
  has_no_records _ = false

  abbrev pub field : Str → Bool → Value → Field
  field key omitted value = record { key = key; omitted = omitted; value = value }

  unfoldable pub response_fields : (Payload fl → Str) → Response fl → List Field
  unfolding response_type_text
  response_fields encode_records r =
      field (bytes "type") false (text (response_type_text r.response_type))
      ∷ field (bytes "request_id") false (text r.request_id)
      ∷ field (bytes "name") (is_empty r.name) (text r.name)
      ∷ field (bytes "addrs") (is_nil r.addrs) (texts r.addrs)
      ∷ field (bytes "error") (is_empty r.error) (text r.error)
      ∷ field (bytes "records") (has_no_records r.records) (text (encode_records r.records))
      ∷ field (bytes "count") (r.count == 0) (number (fl.of_int (pos r.count)))
      ∷ field (bytes "hosts") (is_nil r.hosts) composite
      ∷ field (bytes "services") (is_nil r.services) composite
      ∷ field (bytes "locations") (is_nil r.locations) composite
      ∷ []

  -- MarshalResponse, as an object: the records are bytes, which encoding/json writes as one base64
  -- text (`encode_records`).
  unfoldable pub marshal_response : (Payload fl → Str) → Response fl → Object
  unfolding object_of response_fields
  marshal_response encode_records r = object_of (response_fields encode_records r)
