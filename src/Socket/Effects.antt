-- ===== src/Socket/Effects.antt =====
-- What the queries do to the names that the store answers.
use disco.Base.{
  Str_eq, Bool, true, false, Option, none, some, ◌≡◌, arith, Option-cases, Bool-cases, inl, inr,
  subst, is_empty,
}
use disco.Clock.{Time}
use disco.Protocol.{Query, QueryType, Response}
use disco.Store.{RecordStore}
use disco.Timesync.Floats.{Floats}
use disco.Timesync.Service.{System}
use disco.Socket.{SocketServer, Announce}
use disco.Socket.Handlers.{
  handle_query_by_name, handle_query, handle_hosts_list, handle_hosts_show, handle_hosts_mark_lost,
  handle_services_list, handle_services_show, handle_time_force_update,
}
use disco.Socket.Statuses.{Agree, Agree-answer, Agree-refl, Agree-list_all, Agree-mark_lost}

-- A query that is not HOSTS_FORGET or SERVICE_ANNOUNCE.
abbrev pub keeps_names : QueryType → Bool
keeps_names QueryType.hosts_forget = false
keeps_names QueryType.service_announce = false
keeps_names _ = true

-- The store that a query leaves, if it is not a panic.
abbrev Left : {fl : Floats} → Option (SocketServer fl × Response fl) → RecordStore → Type 0
Left none s = Unit
Left (some (srv, r)) s = Agree s srv.store

-- The query of a type.
abbrev typed : Query → QueryType → Query
typed q x = record q { query_type = x }

module _ (fl : Floats) (now : Time) (q : Query) where
  show_left : (s : RecordStore) → Agree s (handle_hosts_show fl now q s).0
  unfolding handle_hosts_show
  show_left s = elim (Bool-cases (is_empty q.name)) [
    | inl e ↦ rw e (Agree-refl s)
    | inr e ↦ rw e (Agree-list_all s now)
  ]

  services_left : (s : RecordStore) → Agree s (handle_services_show fl now q s).0
  unfolding handle_services_show
  services_left s = elim (Bool-cases (is_empty q.name)) [
    | inl e ↦ rw e (Agree-refl s)
    | inr e ↦ rw e (Agree-list_all s now)
  ]

  mark_left : (s : RecordStore) → Agree s (handle_hosts_mark_lost fl now q s).0
  unfolding handle_hosts_mark_lost
  mark_left s = elim (Bool-cases (is_empty q.name)) [
    | inl e ↦ rw e (Agree-refl s)
    | inr e ↦ rw e (Agree-mark_lost s q.name)
  ]

  force-Left :
      (sys : System fl) (announce : Option Announce) (srv : SocketServer fl)
      → Left (handle_query fl now (typed q QueryType.time_force_update) sys announce srv) srv.store
  unfolding handle_query
  force-Left sys announce srv =
      elim (Option-cases
        (handle_time_force_update fl now (typed q QueryType.time_force_update) sys srv.time_sync)) [
          | inl e ↦ rw (e, handle_query) tt
          | inr ((ts, r), e) ↦ rw (e, handle_query) (Agree-refl srv.store)
        ]

module _ {fl : Floats} (now : Time) (q : Query) (sys : System fl) (announce : Option Announce)
    (srv : SocketServer fl) where
  typed-Left :
      (x : QueryType)
      → keeps_names x ≡ true
      → Left (handle_query fl now (typed q x) sys announce srv) srv.store
  unfolding handle_query handle_hosts_list handle_services_list
  typed-Left QueryType.query_by_name h = Agree-refl srv.store
  typed-Left QueryType.query_by_addr h = Agree-refl srv.store
  typed-Left QueryType.query_list h = Agree-refl srv.store
  typed-Left QueryType.query_list_hosts h = Agree-refl srv.store
  typed-Left QueryType.query_list_services h = Agree-refl srv.store
  typed-Left QueryType.hosts_list h = Agree-list_all srv.store now
  typed-Left QueryType.hosts_show h = show_left fl now (typed q QueryType.hosts_show) srv.store
  typed-Left QueryType.hosts_forget h = absurd (ground arith)
  typed-Left QueryType.hosts_mark_lost h =
      mark_left fl now (typed q QueryType.hosts_mark_lost) srv.store
  typed-Left QueryType.services_list h = Agree-list_all srv.store now
  typed-Left QueryType.services_show h =
      services_left fl now (typed q QueryType.services_show) srv.store
  typed-Left QueryType.services_forget h = Agree-refl srv.store
  typed-Left QueryType.service_announce h = absurd (ground arith)
  typed-Left QueryType.location_list h = Agree-refl srv.store
  typed-Left QueryType.location_show h = Agree-refl srv.store
  typed-Left QueryType.time_status h = Agree-refl srv.store
  typed-Left QueryType.time_force_update h = force-Left fl now q sys announce srv
  typed-Left (QueryType.other text) h = Agree-refl srv.store

  -- Only HOSTS_FORGET and SERVICE_ANNOUNCE can change what the daemon answers for a name: after any
  -- other query, HOSTS_MARK_LOST included, each query by name is answered as before.
  pub handle_query-keeps_names :
      {srv' : SocketServer fl} {r : Response fl} (t : Time) (p : Query)
      → keeps_names q.query_type ≡ true
      → handle_query fl now q sys announce srv ≡ some (srv', r)
      → handle_query_by_name fl t p srv'.store ≡ handle_query_by_name fl t p srv.store
  handle_query-keeps_names {srv'} t p h e =
      Agree-answer fl srv.store srv'.store t p
        (subst (λ o. Left o srv.store) e (typed-Left q.query_type h))
