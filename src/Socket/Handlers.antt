-- ===== src/Socket/Handlers.antt =====
-- internal/daemon/socket.go: handleQuery and the handlers. `none` is the panic of a time selection.
use disco.Base.{
  Str_eq, bytes, pos, ◌||◌, [], ◌∷◌, Option, none, some, if◌then◌else◌, ltb_ℤ, leb_ℤ, is_empty, ◌≟◌,
  map, length, find,
}
use disco.Clock.{Time}
use disco.Dict.{values}
use disco.Nss.{Record}
use disco.Protocol.{
  Query, QueryType, Response, Payload, ServiceHealth, ok_response, new_ok_response,
  new_not_found_response, new_error_response,
}
use disco.Store.{RecordStore, get, get_by_addr, list, list_all, forget, mark_lost}
use disco.Timesync.Floats.{Floats}
use disco.Timesync.Service.{TimeSyncService, System, force_update}
use disco.Locations.{LocationStore, get_location, list_locations}
use disco.Socket.{SocketServer, Announce}
use disco.Socket.Views.{
  record_info, host_info, host_health, is_named, service_hosts, services_health, show_service,
}

module _ (fl : Floats) (now : Time) (q : Query) where
  unfoldable pub answer_record : Option Record → Response fl
  answer_record none = new_not_found_response fl q.request_id
  answer_record (some r) = new_ok_response fl q.request_id r.hostname r.addresses

  unfoldable pub handle_query_by_name : RecordStore → Response fl
  unfolding answer_record
  handle_query_by_name s = answer_record (get s now q.name)

  unfoldable pub handle_query_by_addr : RecordStore → Response fl
  unfolding answer_record
  handle_query_by_addr s = answer_record (get_by_addr s now q.addr)

  unfoldable pub handle_query_list : RecordStore → Response fl
  handle_query_list s = record (ok_response fl q.request_id) {
    records = Payload.record_list (map record_info (list s now));
  }

  unfoldable pub handle_query_list_hosts : RecordStore → Response fl
  handle_query_list_hosts s = record (ok_response fl q.request_id) {
    records = Payload.host_list (map (host_info now) (list s now));
    count = length (list s now);
  }

  unfoldable pub handle_query_list_services : RecordStore → Response fl
  handle_query_list_services s =
      let services = service_hosts (list s now) [] in
      record (ok_response fl q.request_id) {
        records = Payload.service_map services;
        count = length services;
      }

  unfoldable pub handle_hosts_list : RecordStore → RecordStore × Response fl
  handle_hosts_list s =
      let (s', records) = list_all now s in
      (
        s',
        record (ok_response fl q.request_id) {
          hosts = map (host_health now) records;
          count = length records;
        },
      )

  unfoldable pub handle_hosts_show : RecordStore → RecordStore × Response fl
  handle_hosts_show s =
      if is_empty q.name
      then (s, new_error_response fl q.request_id (bytes "hostname or machine ID required"))
      else let (s', records) = list_all now s in
        (
          s',
          elim (find (is_named q.name) records) [
            | none ↦ new_not_found_response fl q.request_id
            | some r ↦ record (ok_response fl q.request_id) {
              hosts = host_health now r ∷ [];
              count = 1;
            }
          ],
        )

  unfoldable pub handle_hosts_forget : RecordStore → RecordStore × Response fl
  handle_hosts_forget s =
      if is_empty q.name
      then (s, new_error_response fl q.request_id (bytes "hostname required"))
      else (forget q.name s, new_ok_response fl q.request_id q.name [])

  unfoldable pub handle_hosts_mark_lost : RecordStore → RecordStore × Response fl
  handle_hosts_mark_lost s =
      if is_empty q.name
      then (s, new_error_response fl q.request_id (bytes "hostname required"))
      else (mark_lost q.name s, new_ok_response fl q.request_id q.name [])

  unfoldable pub handle_services_list : RecordStore → RecordStore × Response fl
  handle_services_list s =
      let (s', records) = list_all now s in
      let services = values (services_health records []) in
      (s', record (ok_response fl q.request_id) { services = services; count = length services })

  -- The service before the loop of handleServicesShow.
  unfoldable pub unseen_service : ServiceHealth
  unseen_service = record { name = q.name; protocol = []; hosts = []; status = [] }

  unfoldable pub handle_services_show : RecordStore → RecordStore × Response fl
  unfolding unseen_service
  handle_services_show s =
      if is_empty q.name
      then (s, new_error_response fl q.request_id (bytes "service name required"))
      else let (s', records) = list_all now s in
        let svc = show_service q.name records unseen_service in
        (
          s',
          elim svc.hosts [
            | [] ↦ new_not_found_response fl q.request_id
            | host ∷ rest ↦ record (ok_response fl q.request_id) { services = svc ∷ []; count = 1 }
          ],
        )

  unfoldable pub handle_service_announce : Option Announce → RecordStore → RecordStore × Response fl
  handle_service_announce none s =
      (s, new_error_response fl q.request_id (bytes "service announcements not available"))
  handle_service_announce (some announce) s =
      let (s', e) = announce q.name q.port q.aliases s in
      if is_empty q.name
      then (s, new_error_response fl q.request_id (bytes "service name required"))
      else if leb_ℤ q.port (pos 0) || ltb_ℤ (pos 65535) q.port
      then (s, new_error_response fl q.request_id (bytes "valid port required"))
      else (
        s',
        elim e [
          | some text ↦ new_error_response fl q.request_id text
          | none ↦ new_ok_response fl q.request_id q.name []
        ],
      )

  unfoldable pub handle_location_list : Option (LocationStore fl) → Response fl
  handle_location_list none = ok_response fl q.request_id
  handle_location_list (some ls) = record (ok_response fl q.request_id) {
    locations = list_locations fl now ls;
    count = length (list_locations fl now ls);
  }

  unfoldable pub show_location : Option (LocationStore fl) → Response fl
  show_location none = new_not_found_response fl q.request_id
  show_location (some ls) = elim (get_location fl now q.name ls) [
    | none ↦ new_not_found_response fl q.request_id
    | some r ↦ record (ok_response fl q.request_id) { locations = r ∷ []; count = 1 }
  ]

  unfoldable pub handle_location_show : Option (LocationStore fl) → Response fl
  unfolding show_location
  handle_location_show o =
      if is_empty q.name
      then new_error_response fl q.request_id (bytes "source ID required")
      else show_location o

  unfoldable pub handle_time_status : Option (TimeSyncService fl) → Response fl
  handle_time_status none = new_error_response fl q.request_id (bytes "time sync not enabled")
  handle_time_status (some ts) = record (ok_response fl q.request_id) {
    records = Payload.sync_status ts.status;
  }

  unfoldable pub handle_time_force_update :
      System fl → Option (TimeSyncService fl) → Option (Option (TimeSyncService fl) × Response fl)
  handle_time_force_update sys none =
      some (none, new_error_response fl q.request_id (bytes "time sync not enabled"))
  handle_time_force_update sys (some ts) =
      elim (force_update fl sys now ((q.name ≟ bytes "true") || (q.name ≟ bytes "1")) ts) [
        | none ↦ none
        | some (ts', call, result) ↦ some (
          some ts',
          record (ok_response fl q.request_id) { records = Payload.update_result result },
        )
      ]

  -- A response that leaves the server as it is, and one that comes with the store.
  abbrev pub reply : SocketServer fl → Response fl → Option (SocketServer fl × Response fl)
  reply s r = some (s, r)

  abbrev pub store_reply :
      SocketServer fl → RecordStore × Response fl → Option (SocketServer fl × Response fl)
  store_reply s (store, r) = some (record s { store = store }, r)

  unfoldable pub handle_query :
      System fl → Option Announce → SocketServer fl → Option (SocketServer fl × Response fl)
  handle_query sys announce s = elim q.query_type [
    | QueryType.query_by_name ↦ reply s (handle_query_by_name s.store)
    | QueryType.query_by_addr ↦ reply s (handle_query_by_addr s.store)
    | QueryType.query_list ↦ reply s (handle_query_list s.store)
    | QueryType.query_list_hosts ↦ reply s (handle_query_list_hosts s.store)
    | QueryType.query_list_services ↦ reply s (handle_query_list_services s.store)
    | QueryType.time_status ↦ reply s (handle_time_status s.time_sync)
    | QueryType.time_force_update ↦ elim (handle_time_force_update sys s.time_sync) [
      | none ↦ none
      | some (ts, r) ↦ some (record s { time_sync = ts }, r)
    ]
    | QueryType.hosts_list ↦ store_reply s (handle_hosts_list s.store)
    | QueryType.hosts_show ↦ store_reply s (handle_hosts_show s.store)
    | QueryType.hosts_forget ↦ store_reply s (handle_hosts_forget s.store)
    | QueryType.hosts_mark_lost ↦ store_reply s (handle_hosts_mark_lost s.store)
    | QueryType.services_list ↦ store_reply s (handle_services_list s.store)
    | QueryType.services_show ↦ store_reply s (handle_services_show s.store)
    | QueryType.services_forget ↦
        reply s
          (new_error_response fl q.request_id (bytes "not implemented: services are tied to hosts"))
    | QueryType.service_announce ↦ store_reply s (handle_service_announce announce s.store)
    | QueryType.location_list ↦ reply s (handle_location_list s.location_store)
    | QueryType.location_show ↦ reply s (handle_location_show s.location_store)
    | QueryType.other text ↦
        reply s (new_error_response fl q.request_id (bytes "unknown query type"))
  ]
