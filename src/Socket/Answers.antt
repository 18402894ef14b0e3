-- ===== src/Socket/Answers.antt =====
-- The answers of handleQuery (internal/daemon/socket.go), one by one.
use disco.Base.{
  Str, Str_eq, bytes, pos, false, ◌||◌, Option, none, some, ◌≡◌, ◌≢◌, refl, arith, Option-cases,
  inl, inr, ◌≤ℤ◌, subst, ◌≟◌, is_none,
}
use disco.Clock.{Time}
use disco.Timesync.Total.{force_update-total}
use disco.Protocol.{
  Query, QueryType, Response, ok_response, new_ok_response, new_not_found_response,
  new_error_response,
}
use disco.Nss.{Record}
use disco.Locations.{LocationStore}
use disco.Store.{RecordStore}
use disco.Timesync.Floats.{Floats}
use disco.Timesync.Service.{System, TimeSyncService, force_update}
use disco.Socket.{SocketServer, Announce}
use disco.Socket.Handlers.{
  handle_query, handle_service_announce, handle_time_force_update, answer_record,
  handle_query_by_name, handle_query_by_addr, handle_query_list, handle_query_list_hosts,
  handle_query_list_services, handle_hosts_list, handle_hosts_show, handle_hosts_forget,
  handle_hosts_mark_lost, handle_services_list, handle_services_show, handle_location_list,
  handle_location_show, show_location, handle_time_status,
}

-- The answer has the id, if there is one.
abbrev HasId : {fl : Floats} → Str → Option (SocketServer fl × Response fl) → Type 0
HasId id none = Unit
HasId id (some (s, r)) = r.request_id ≡ id

abbrev typed : Query → QueryType → Query
typed q x = record q { query_type = x }

module _ (fl : Floats) (now : Time) (q : Query) where
  answer_record_id : (o : Option Record) → (answer_record fl now q o).request_id ≡ q.request_id
  unfolding answer_record new_ok_response new_not_found_response ok_response
  answer_record_id none = refl
  answer_record_id (some r) = refl

  show_id : (s : RecordStore) → (handle_hosts_show fl now q s).1.request_id ≡ q.request_id
  unfolding handle_hosts_show new_not_found_response new_error_response ok_response
  show_id s = ground arith

  forget_id : (s : RecordStore) → (handle_hosts_forget fl now q s).1.request_id ≡ q.request_id
  unfolding handle_hosts_forget new_ok_response new_error_response ok_response
  forget_id s = ground arith

  mark_id : (s : RecordStore) → (handle_hosts_mark_lost fl now q s).1.request_id ≡ q.request_id
  unfolding handle_hosts_mark_lost new_ok_response new_error_response ok_response
  mark_id s = ground arith

  services_show_id :
      (s : RecordStore) → (handle_services_show fl now q s).1.request_id ≡ q.request_id
  unfolding handle_services_show new_not_found_response new_error_response ok_response
  services_show_id s = ground arith

  announce_id :
      (announce : Option Announce) (s : RecordStore)
      → (handle_service_announce fl now q announce s).1.request_id ≡ q.request_id
  unfolding handle_service_announce new_ok_response new_error_response ok_response
  announce_id none s = refl
  announce_id (some announce) s = ground arith

  location_list_id :
      (o : Option (LocationStore fl)) → (handle_location_list fl now q o).request_id ≡ q.request_id
  unfolding handle_location_list ok_response
  location_list_id none = refl
  location_list_id (some ls) = refl

  location_show_id :
      (o : Option (LocationStore fl)) → (handle_location_show fl now q o).request_id ≡ q.request_id
  unfolding handle_location_show show_location new_not_found_response new_error_response ok_response
  location_show_id none = ground arith
  location_show_id (some ls) = ground arith

  time_status_id :
      (o : Option (TimeSyncService fl)) → (handle_time_status fl now q o).request_id ≡ q.request_id
  unfolding handle_time_status new_error_response ok_response
  time_status_id none = refl
  time_status_id (some ts) = refl

  -- The answer of a forced update has the id, if there is one.
  abbrev ForcedId : Option (Option (TimeSyncService fl) × Response fl) → Type 0
  ForcedId none = Unit
  ForcedId (some (ts, r)) = r.request_id ≡ q.request_id

  forced_id :
      (sys : System fl) (o : Option (TimeSyncService fl))
      → ForcedId (handle_time_force_update fl now q sys o)
  unfolding handle_time_force_update new_error_response ok_response
  forced_id sys none = refl
  forced_id sys (some ts) =
      elim (Option-cases
        (force_update fl sys now ((q.name ≟ bytes "true") || (q.name ≟ bytes "1")) ts)) [
          | inl e ↦ rw (e, handle_time_force_update) tt
          | inr ((ts', call, result), e) ↦ rw (e, handle_time_force_update) refl
        ]

module _ (fl : Floats) (now : Time) (q : Query) where
  force_id :
      (sys : System fl) (announce : Option Announce) (srv : SocketServer fl)
      → HasId q.request_id
          (handle_query fl now (typed q QueryType.time_force_update) sys announce srv)
  unfolding handle_query
  force_id sys announce srv =
      let forced = typed q QueryType.time_force_update in
      elim (Option-cases (handle_time_force_update fl now forced sys srv.time_sync)) [
        | inl e ↦ rw (e, handle_query) tt
        | inr ((ts, r), e) ↦
            rw (e, handle_query)
              (subst (ForcedId fl now forced) e (forced_id fl now forced sys srv.time_sync))
      ]

  typed_id :
      (sys : System fl) (announce : Option Announce) (srv : SocketServer fl) (x : QueryType)
      → HasId q.request_id (handle_query fl now (typed q x) sys announce srv)
  unfolding handle_query handle_query_by_name handle_query_by_addr handle_query_list
      handle_query_list_hosts handle_query_list_services handle_hosts_list handle_services_list
      new_error_response ok_response
  typed_id sys announce srv QueryType.query_by_name = answer_record_id fl now q _
  typed_id sys announce srv QueryType.query_by_addr = answer_record_id fl now q _
  typed_id sys announce srv QueryType.query_list = refl
  typed_id sys announce srv QueryType.query_list_hosts = refl
  typed_id sys announce srv QueryType.query_list_services = refl
  typed_id sys announce srv QueryType.hosts_list = refl
  typed_id sys announce srv QueryType.hosts_show =
      show_id fl now (typed q QueryType.hosts_show) srv.store
  typed_id sys announce srv QueryType.hosts_forget =
      forget_id fl now (typed q QueryType.hosts_forget) srv.store
  typed_id sys announce srv QueryType.hosts_mark_lost =
      mark_id fl now (typed q QueryType.hosts_mark_lost) srv.store
  typed_id sys announce srv QueryType.services_list = refl
  typed_id sys announce srv QueryType.services_show =
      services_show_id fl now (typed q QueryType.services_show) srv.store
  typed_id sys announce srv QueryType.services_forget = refl
  typed_id sys announce srv QueryType.service_announce =
      announce_id fl now (typed q QueryType.service_announce) announce srv.store
  typed_id sys announce srv QueryType.location_list =
      location_list_id fl now (typed q QueryType.location_list) srv.location_store
  typed_id sys announce srv QueryType.location_show =
      location_show_id fl now (typed q QueryType.location_show) srv.location_store
  typed_id sys announce srv QueryType.time_status =
      time_status_id fl now (typed q QueryType.time_status) srv.time_sync
  typed_id sys announce srv QueryType.time_force_update = force_id sys announce srv
  typed_id sys announce srv (QueryType.other text) = refl

  -- The time service needs at least one source, where there is one.
  abbrev pub NeedsSources : Option (TimeSyncService fl) → Type 0
  NeedsSources none = Unit
  NeedsSources (some ts) = pos 1 ≤ℤ ts.config.min_sources

  force_some :
      (sys : System fl) (announce : Option Announce) (srv : SocketServer fl)
      → NeedsSources srv.time_sync
      → is_none (handle_query fl now (typed q QueryType.time_force_update) sys announce srv) ≡ false
  unfolding handle_query handle_time_force_update
  force_some sys announce srv h =
      let forced = typed q QueryType.time_force_update in
      elim (Option-cases (handle_time_force_update fl now forced sys srv.time_sync)) [
        | inl e ↦ absurd (handled srv.time_sync h e)
        | inr ((ts, r), e) ↦ rw (e, handle_query) refl
      ]
    where
      handled :
          (o : Option (TimeSyncService fl))
          → NeedsSources o
          → handle_time_force_update fl now (typed q QueryType.time_force_update) sys o ≢ none
      handled none h p = absurd (ground arith)
      handled (some ts) h p =
          let back = (q.name ≟ bytes "true") || (q.name ≟ bytes "1") in
          elim (Option-cases (force_update fl sys now back ts)) [
            | inl e ↦ force_update-total fl sys now back ts h e
            | inr ((ts', call, result), e) ↦ absurd (ground arith)
          ]

  typed_some :
      (sys : System fl) (announce : Option Announce) (srv : SocketServer fl) (x : QueryType)
      → NeedsSources srv.time_sync
      → is_none (handle_query fl now (typed q x) sys announce srv) ≡ false
  unfolding handle_query
  typed_some sys announce srv QueryType.query_by_name h = refl
  typed_some sys announce srv QueryType.query_by_addr h = refl
  typed_some sys announce srv QueryType.query_list h = refl
  typed_some sys announce srv QueryType.query_list_hosts h = refl
  typed_some sys announce srv QueryType.query_list_services h = refl
  typed_some sys announce srv QueryType.hosts_list h = refl
  typed_some sys announce srv QueryType.hosts_show h = refl
  typed_some sys announce srv QueryType.hosts_forget h = refl
  typed_some sys announce srv QueryType.hosts_mark_lost h = refl
  typed_some sys announce srv QueryType.services_list h = refl
  typed_some sys announce srv QueryType.services_show h = refl
  typed_some sys announce srv QueryType.services_forget h = refl
  typed_some sys announce srv QueryType.service_announce h = refl
  typed_some sys announce srv QueryType.location_list h = refl
  typed_some sys announce srv QueryType.location_show h = refl
  typed_some sys announce srv QueryType.time_status h = refl
  typed_some sys announce srv QueryType.time_force_update h = force_some sys announce srv h
  typed_some sys announce srv (QueryType.other text) h = refl

  -- Every query is answered, with the id of the query, if the time service, where there is one,
  -- needs at least one source.
  pub handle_query-answers :
      (sys : System fl) (announce : Option Announce) (srv : SocketServer fl)
      → NeedsSources srv.time_sync
      → (out : SocketServer fl × Response fl) × (handle_query fl now q sys announce srv ≡ some out)
        × (out.1.request_id ≡ q.request_id)
  handle_query-answers sys announce srv h =
      elim (Option-cases (handle_query fl now q sys announce srv)) [
        | inl e ↦
            let some_answer : is_none (handle_query fl now q sys announce srv) ≡ false =
              typed_some sys announce srv q.query_type h in
            absurd (ground arith)
        | inr (out, e) ↦
            (out, e, subst (HasId q.request_id) e (typed_id sys announce srv q.query_type))
      ]
