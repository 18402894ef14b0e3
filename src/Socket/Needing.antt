-- ===== src/Socket/Needing.antt =====
-- The sources that the time service needs (internal/timesync/service.go), under its own operations and
-- under the queries of internal/daemon/socket.go.
use disco.Base.{
  Str_eq, Bool, bytes, pos, Option, none, some, ◌≡◌, sym, subst, arith, Option-cases, inl, inr,
  ◌≤ℤ◌, ◌||◌, ◌≟◌,
}
use disco.Base.Options.{some_eq}
use disco.Clock.{Time}
use disco.Timesync.Floats.{Floats}
use disco.Timesync.Selection.{TimeUpdate}
use disco.Timesync.Service.{
  System as TimeSystem, TimeSyncService, process_message, force_update, evaluate_and_adjust,
  adjusted, ForceUpdateResult,
}
use disco.Timesync.Adjustment.{ClockConfig, ClockCall}
use disco.Timesync.Sources.{TimeAnnounceMessage}
use disco.Protocol.{Query, QueryType, Response}
use disco.Socket.{SocketServer, Announce}
use disco.Socket.Handlers.{handle_query, handle_time_force_update}

module _ (fl : Floats) where
  abbrev pub Needs : Option (TimeSyncService fl) → Type 0
  Needs none = Unit
  Needs (some ts) = pos 1 ≤ℤ ts.config.min_sources

  pub config-process_message :
      (now : Time) (msg : TimeAnnounceMessage fl) (ts : TimeSyncService fl)
      → (process_message fl now msg ts).config ≡ ts.config
  unfolding process_message
  config-process_message now msg ts = ground arith

  config-adjusted :
      (sys : TimeSystem fl) (now : Time) (cfg : ClockConfig) (update : TimeUpdate fl)
      (ts : TimeSyncService fl)
      → (adjusted fl sys now cfg update ts).0.config ≡ ts.config
  unfolding adjusted
  config-adjusted sys now cfg update ts = ground arith

  config-force_update :
      (sys : TimeSystem fl) (now : Time) (back : Bool) (ts ts' : TimeSyncService fl)
      (call : ClockCall) (result : ForceUpdateResult fl)
      → force_update fl sys now back ts ≡ some (ts', call, result)
      → ts'.config ≡ ts.config
  unfolding force_update
  config-force_update sys now back ts ts' call result h = grind (arith, config-adjusted)

  pub config-evaluate_and_adjust :
      (sys : TimeSystem fl) (now : Time) (ts ts' : TimeSyncService fl) (call : ClockCall)
      → evaluate_and_adjust fl sys now ts ≡ some (ts', call)
      → ts'.config ≡ ts.config
  unfolding evaluate_and_adjust
  config-evaluate_and_adjust sys now ts ts' call h = grind (arith, config-adjusted)

  -- The time service that a query leaves, if it is not a panic.
  abbrev pub Left : Option (SocketServer fl × Response fl) → Type 0
  Left none = Unit
  Left (some (srv, r)) = Needs srv.time_sync

abbrev forced : Query → Query
forced q = record q { query_type = QueryType.time_force_update }

module _ {fl : Floats} (now : Time) (q : Query) (sys : TimeSystem fl) (announce : Option Announce)
    (srv : SocketServer fl) (h : Needs fl srv.time_sync) where
  Needs-forced :
      (o : Option (TimeSyncService fl))
      → Needs fl o
      → (o' : Option (TimeSyncService fl)) (r : Response fl)
      → handle_time_force_update fl now (forced q) sys o ≡ some (o', r)
      → Needs fl o'
  unfolding handle_time_force_update
  Needs-forced none n o' r e = subst (λ p. Needs fl p.0) (some_eq e) tt
  Needs-forced (some ts) n o' r e =
      let back = (q.name ≟ bytes "true") || (q.name ≟ bytes "1") in
      elim (Option-cases (force_update fl sys now back ts)) [
        | inl f ↦ absurd (ground arith)
        | inr ((ts', call, result), f) ↦
            let same = config-force_update fl sys now back ts ts' call result f in
            let kept : Needs fl (some ts') = subst (λ c. pos 1 ≤ℤ c.min_sources) (sym same) n in
            subst (λ p. Needs fl p.0) (some_eq (rw (f, handle_time_force_update) at e)) kept
      ]

  forced-Left : Left fl (handle_query fl now (forced q) sys announce srv)
  unfolding handle_query
  forced-Left = elim (Option-cases (handle_time_force_update fl now (forced q) sys srv.time_sync)) [
    | inl e ↦ rw (e, handle_query) tt
    | inr ((ts, r), e) ↦ rw (e, handle_query) (Needs-forced srv.time_sync h ts r e)
  ]

  pub typed-Left :
      (x : QueryType) → Left fl (handle_query fl now (record q { query_type = x }) sys announce srv)
  unfolding handle_query
  typed-Left QueryType.query_by_name = h
  typed-Left QueryType.time_force_update = forced-Left
  typed-Left _ = h
