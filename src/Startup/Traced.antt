-- ===== src/Startup/Traced.antt =====
-- What any events make of the store of the daemon (internal/daemon/daemon.go): steps of Store.Steps.
use disco.Base.{
  Str, Str_eq, ℤ, pos, List, Option, none, some, ◌||◌, leb_ℤ, ltb_ℤ, is_empty, Option-cases,
  Bool-cases, inl, inr,
}
use disco.Clock.{Time}
use disco.Timesync.Floats.{Floats}
use disco.Timesync.Service.{System as TimeSystem}
use disco.Protocol.{Query, QueryType, Response}
use disco.Socket.{SocketServer, Announce}
use disco.Socket.Handlers.{
  handle_query, handle_hosts_list, handle_hosts_show, handle_hosts_mark_lost, handle_hosts_forget,
  handle_services_list, handle_services_show, handle_service_announce, handle_time_force_update,
}
use disco.Nss.{Record}
use disco.Store.{RecordStore, add_or_update}
use disco.Store.Reaches.{Reaches, Reaches-refl, Reaches-step}
use disco.Store.Steps.{Step, step}

-- The store that a query leaves, if it is not a panic.
abbrev pub Reached : {fl : Floats} → RecordStore → Option (SocketServer fl × Response fl) → Type 0
Reached s none = Unit
Reached s (some (srv, r)) = Reaches s srv.store

pub Reaches-add_or_update :
    (now : Time) (r : Record) (s : RecordStore) → Reaches s (add_or_update now r s)
unfolding step
Reaches-add_or_update now r s = Reaches-step (Step.announced now r) s

abbrev typed : Query → QueryType → Query
typed q x = record q { query_type = x }

module _ (fl : Floats) (now : Time) (q : Query) where
  show-Reaches : (s : RecordStore) → Reaches s (handle_hosts_show fl now q s).0
  unfolding handle_hosts_show step
  show-Reaches s = elim (Bool-cases (is_empty q.name)) [
    | inl e ↦ rw e (Reaches-refl s)
    | inr e ↦ rw e (Reaches-step (Step.listed now) s)
  ]

  services-Reaches : (s : RecordStore) → Reaches s (handle_services_show fl now q s).0
  unfolding handle_services_show step
  services-Reaches s = elim (Bool-cases (is_empty q.name)) [
    | inl e ↦ rw e (Reaches-refl s)
    | inr e ↦ rw e (Reaches-step (Step.listed now) s)
  ]

  mark-Reaches : (s : RecordStore) → Reaches s (handle_hosts_mark_lost fl now q s).0
  unfolding handle_hosts_mark_lost step
  mark-Reaches s = elim (Bool-cases (is_empty q.name)) [
    | inl e ↦ rw e (Reaches-refl s)
    | inr e ↦ rw e (Reaches-step (Step.marked q.name) s)
  ]

  forget-Reaches : (s : RecordStore) → Reaches s (handle_hosts_forget fl now q s).0
  unfolding handle_hosts_forget step
  forget-Reaches s = elim (Bool-cases (is_empty q.name)) [
    | inl e ↦ rw e (Reaches-refl s)
    | inr e ↦ rw e (Reaches-step (Step.forgotten q.name) s)
  ]

  announce-Reaches :
      (announce : Announce) (s : RecordStore)
      → ((name : Str) (port : ℤ) (aliases : List Str) → Reaches s (announce name port aliases s).0)
      → Reaches s (handle_service_announce fl now q (some announce) s).0
  unfolding handle_service_announce
  announce-Reaches announce s h = elim (Bool-cases (is_empty q.name)) [
    | inl e ↦ rw e (Reaches-refl s)
    | inr e ↦ elim (Bool-cases (leb_ℤ q.port (pos 0) || ltb_ℤ (pos 65535) q.port)) [
      | inl g ↦ rw (e, g) (Reaches-refl s)
      | inr g ↦ rw (e, g) (h q.name q.port q.aliases)
    ]
  ]

module _ {fl : Floats} (now : Time) (q : Query) (sys : TimeSystem fl) (announce : Announce)
    (srv : SocketServer fl)
    (h : (name : Str) (port : ℤ) (aliases : List Str)
      → Reaches srv.store (announce name port aliases srv.store).0) where
  force-Reached :
      Reached srv.store
        (handle_query fl now (typed q QueryType.time_force_update) sys (some announce) srv)
  unfolding handle_query
  force-Reached =
      elim (Option-cases
        (handle_time_force_update fl now (typed q QueryType.time_force_update) sys srv.time_sync)) [
          | inl e ↦ rw (e, handle_query) tt
          | inr ((ts, r), e) ↦ rw (e, handle_query) (Reaches-refl srv.store)
        ]

  pub typed-Reached :
      (x : QueryType) → Reached srv.store (handle_query fl now (typed q x) sys (some announce) srv)
  unfolding handle_query handle_hosts_list handle_services_list step
  typed-Reached QueryType.query_by_name = Reaches-refl srv.store
  typed-Reached QueryType.query_by_addr = Reaches-refl srv.store
  typed-Reached QueryType.query_list = Reaches-refl srv.store
  typed-Reached QueryType.query_list_hosts = Reaches-refl srv.store
  typed-Reached QueryType.query_list_services = Reaches-refl srv.store
  typed-Reached QueryType.hosts_list = Reaches-step (Step.listed now) srv.store
  typed-Reached QueryType.hosts_show = show-Reaches fl now (typed q QueryType.hosts_show) srv.store
  typed-Reached QueryType.hosts_forget =
      forget-Reaches fl now (typed q QueryType.hosts_forget) srv.store
  typed-Reached QueryType.hosts_mark_lost =
      mark-Reaches fl now (typed q QueryType.hosts_mark_lost) srv.store
  typed-Reached QueryType.services_list = Reaches-step (Step.listed now) srv.store
  typed-Reached QueryType.services_show =
      services-Reaches fl now (typed q QueryType.services_show) srv.store
  typed-Reached QueryType.services_forget = Reaches-refl srv.store
  typed-Reached QueryType.service_announce =
      announce-Reaches fl now (typed q QueryType.service_announce) announce srv.store h
  typed-Reached QueryType.location_list = Reaches-refl srv.store
  typed-Reached QueryType.location_show = Reaches-refl srv.store
  typed-Reached QueryType.time_status = Reaches-refl srv.store
  typed-Reached QueryType.time_force_update = force-Reached
  typed-Reached (QueryType.other text) = Reaches-refl srv.store
