-- ===== src/Startup/Live.antt =====
-- No event stops a daemon (internal/daemon/daemon.go) whose time service needs at least one source.
use disco.Base.{
  Str, Str_eq, Bool, pos, List, [], ◌∷◌, Option, none, some, ◌≡◌, refl, sym, subst, Option-cases,
  inl, inr, ◌≤ℤ◌,
}
use disco.Clock.{Time}
use disco.Timesync.Floats.{Floats}
use disco.Timesync.Service.{
  System as TimeSystem, TimeSyncService, process_message, evaluate_and_adjust,
}
use disco.Timesync.Total.{evaluate_and_adjust-total}
use disco.Timesync.Sources.{TimeAnnounceMessage}
use disco.Protocol.{Query, Response}
use disco.Discovery.{Codec}
use disco.Discovery.Interfaces.{Interface}
use disco.Discovery.Listener.{Listener, Delivery, receive}
use disco.Socket.Answers.{NeedsSources, handle_query-answers}
use disco.Startup.{System, socket_of}
use disco.Startup.Events.{
  Event, packet, query, cleanup_tick, announcements_tick, scan_tick, filter_tick, broadcast_tick,
  sync_tick, on_sync, callback, on_query, on_event, on_events,
}
use disco.Startup.Run.{
  on_packet, heard, process_delivered, process_delivery, update_service_announcements,
}
use disco.Socket.Needing.{
  Needs, Left, typed-Left, config-process_message, config-evaluate_and_adjust,
}

module _ {fl : Floats} (codec : Codec fl) (ifaces : Option (List Interface)) (resolves : Str → Bool)
    (text : Option Str) where
  -- The daemon is there after the event, and its time service needs a source still.
  abbrev Lives : Option (System fl) → Type 0
  Lives o = (s : System fl) × (o ≡ some s) × Needs fl s.time_sync

  Needs-answers :
      (now : Time) (q : Query) (o : Option (TimeSyncService fl))
      → Needs fl o
      → NeedsSources fl now q o
  Needs-answers now q none h = h
  Needs-answers now q (some ts) h = h

  on_query-runs :
      (now : Time) (q : Query) (sys : TimeSystem fl) (s : System fl)
      → Needs fl s.time_sync
      → (p : System fl × Response fl) × (on_query codec ifaces resolves text now q sys s ≡ some p)
        × Needs fl p.0.time_sync
  unfolding on_query socket_of
  on_query-runs now q sys s h =
      let announce = some (callback codec ifaces resolves text now s.daemon) in
      let ((srv, r), e, same_id) =
        handle_query-answers fl now q sys announce (socket_of fl s)
          (Needs-answers now q s.time_sync h) in
      let kept : Needs fl srv.time_sync =
        subst (Left fl) e (typed-Left now q sys announce (socket_of fl s) h q.query_type) in
      rw (e, on_query) (_, refl, kept)

  Lives-on_query :
      (now : Time) (q : Query) (sys : TimeSystem fl) (s : System fl)
      → Needs fl s.time_sync
      → Lives (on_event codec ifaces resolves text (query now q sys) s)
  unfolding on_event
  Lives-on_query now q sys s h =
      let (p, e, kept) = on_query-runs now q sys s h in rw e (p.0, refl, kept)

  Needs-processed :
      (now : Time) (msg : TimeAnnounceMessage fl) (s : System fl) (o : Option (TimeSyncService fl))
      → Needs fl s.time_sync
      → Needs fl o
      → Needs fl (
          let s' : System fl = elim o [
            | none ↦ s
            | some ts ↦ record s { time_sync = some (process_message fl now msg ts) }
          ] in
          s'.time_sync)
  Needs-processed now msg s none h n = h
  Needs-processed now msg s (some ts) h n =
      subst (λ c. pos 1 ≤ℤ c.min_sources) (sym (config-process_message fl now msg ts)) n

  Needs-process_delivered :
      (now : Time) (d : Option (Delivery fl)) (s : System fl)
      → Needs fl s.time_sync
      → Needs fl (process_delivered now d s).time_sync
  unfolding process_delivered process_delivery
  Needs-process_delivered now none s h = h
  Needs-process_delivered now (some (Delivery.announcement msg)) s h = h
  Needs-process_delivered now (some (Delivery.time_message msg)) s h =
      Needs-processed now msg s s.time_sync h h
  Needs-process_delivered now (some (Delivery.location_message msg)) s h = h

  Needs-heard :
      (now : Time) (bytes_read : Str) (s : System fl) (o : Option Listener)
      → Needs fl s.time_sync
      → Needs fl (heard codec now bytes_read s o).0.time_sync
  unfolding heard
  Needs-heard now bytes_read s none h = h
  Needs-heard now bytes_read s (some l) h =
      let (l', delivered) = receive codec now bytes_read l in
      Needs-process_delivered now delivered (record s { listener = some l' }) h

  time_sync-update : (s : System fl) → (update_service_announcements s).time_sync ≡ s.time_sync
  unfolding update_service_announcements
  time_sync-update s = elim (Option-cases s.detector) [
    | inl e ↦ rw e refl
    | inr (det, e) ↦ rw e refl
  ]

  Lives-on_sync :
      (now : Time) (sys : TimeSystem fl) (s : System fl) (o : Option (TimeSyncService fl))
      → Needs fl s.time_sync
      → Needs fl o
      → Lives (on_sync codec ifaces resolves text now sys s o)
  unfolding on_sync
  Lives-on_sync now sys s none h n = (s, refl, h)
  Lives-on_sync now sys s (some ts) h n = elim (Option-cases (evaluate_and_adjust fl sys now ts)) [
    | inl e ↦ absurd (evaluate_and_adjust-total fl sys now ts n e)
    | inr ((ts', call), e) ↦
        let same = config-evaluate_and_adjust fl sys now ts ts' call e in
        let kept : Needs fl (some ts') = subst (λ c. pos 1 ≤ℤ c.min_sources) (sym same) n in
        rw e (_, refl, kept)
  ]

  Lives-on_event :
      (e : Event fl) (s : System fl)
      → Needs fl s.time_sync
      → Lives (on_event codec ifaces resolves text e s)
  unfolding on_event on_packet
  Lives-on_event (packet now bytes_read) s h = (_, refl, Needs-heard now bytes_read s s.listener h)
  Lives-on_event (query now q sys) s h = Lives-on_query now q sys s h
  Lives-on_event (cleanup_tick now) s h = (_, refl, h)
  Lives-on_event announcements_tick s h = (_, refl, subst (Needs fl) (sym (time_sync-update s)) h)
  Lives-on_event (scan_tick check) s h = (_, refl, h)
  Lives-on_event (filter_tick now) s h = (_, refl, h)
  Lives-on_event (broadcast_tick now) s h = (_, refl, h)
  Lives-on_event (sync_tick now sys) s h = Lives-on_sync now sys s s.time_sync h h

  -- Where the time service, if there is one, needs at least one source, the daemon runs on whatever
  -- packets, queries, ticks and scans come.
  pub Lives-on_events :
      (es : List (Event fl)) (s : System fl)
      → Needs fl s.time_sync
      → Lives (on_events codec ifaces resolves text es s)
  unfolding on_events
  Lives-on_events [] s h = (s, refl, h)
  Lives-on_events (e ∷ es) s h =
      let (t, step, kept) = Lives-on_event e s h in rw step (Lives-on_events es t kept)
