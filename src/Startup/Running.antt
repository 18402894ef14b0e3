-- ===== src/Startup/Running.antt =====
-- The store of the daemon (internal/daemon/daemon.go) under any events: from where Run starts it.
use disco.Base.{
  Str, Str_eq, List, [], ◌∷◌, ◌++◌, arith, Option, none, some, ◌≡◌, refl, sym, subst, Bool,
  Option-cases, inl, inr,
}
use disco.Base.Options.{>>=-some, some_eq}
use disco.Clock.{Time}
use disco.Timesync.Floats.{Floats}
use disco.Timesync.Service.{System as TimeSystem, TimeSyncService, evaluate_and_adjust}
use disco.Protocol.{Query, Response}
use disco.Discovery.{Codec}
use disco.Discovery.Interfaces.{Interface}
use disco.Discovery.Listener.{Listener, Delivery, receive}
use disco.Socket.Handlers.{handle_query}
use disco.Store.Reaches.{Reaches, Reaches-refl, Reaches-step, Reaches-trans}
use disco.Store.Steps.{Step, step}
use disco.Daemon.{
  Daemon, ServiceConfig, announce_service, announced, self_register, handle_discovery_message,
}
use disco.Startup.{System, socket_of}
use disco.Startup.Events.{
  Event, packet, query, cleanup_tick, announcements_tick, scan_tick, filter_tick, broadcast_tick,
  sync_tick, on_sync, callback, on_query, on_event, on_events,
}
use disco.Startup.Named.{store-self_register}
use disco.Startup.Run.{
  on_packet, heard, process_delivered, process_delivery, update_service_announcements,
}
use disco.Startup.Traced.{Reached, Reaches-add_or_update, typed-Reached}

pub Reaches-self_register :
    (system : Option (List Interface)) (now : Time) (d : Daemon)
    → Reaches d.store (self_register system now d).store
Reaches-self_register system now d =
    subst (Reaches d.store) (sym (store-self_register system now d))
      (Reaches-add_or_update now _ d.store)

module _ {fl : Floats} (codec : Codec fl) (ifaces : Option (List Interface)) (resolves : Str → Bool)
    (text : Option Str) where
  store-announced :
      (now : Time) (svc : ServiceConfig) (d : Daemon)
      → (announced codec ifaces resolves text now svc d).0.store ≡ d.store
  unfolding announced
  store-announced now svc d = elim (Option-cases d.announcer) [
    | inl e ↦ rw e refl
    | inr (a, e) ↦ rw e refl
  ]

  Reaches-announce_service :
      (now : Time) (svc : ServiceConfig) (d : Daemon)
      → Reaches d.store (announce_service codec ifaces resolves text now svc d).0.store
  unfolding announce_service
  Reaches-announce_service now svc d =
      let d' = record d { dynamic_services = d.dynamic_services ++ svc ∷ [] } in
      let (d'', sent) = announced codec ifaces resolves text now svc d' in
      subst (λ x. Reaches x (self_register ifaces now d'').store) (store-announced now svc d')
        (Reaches-self_register ifaces now d'')

  Reaches-on_query :
      (now : Time) (q : Query) (sys : TimeSystem fl) (s s' : System fl) (r : Response fl)
      → on_query codec ifaces resolves text now q sys s ≡ some (s', r)
      → Reaches s.daemon.store s'.daemon.store
  unfolding on_query callback socket_of
  Reaches-on_query now q sys s s' r h =
      let announce = callback codec ifaces resolves text now s.daemon in
      elim (Option-cases (handle_query fl now q sys (some announce) (socket_of fl s))) [
        | inl e ↦ let none_left = rw (e, on_query) at h in absurd (ground arith)
        | inr ((srv, answer), e) ↦
            let reached : Reached s.daemon.store (some (srv, answer)) =
              subst (Reached s.daemon.store) e (
                typed-Reached now q sys announce (socket_of fl s)
                  (λ name port aliases. Reaches-announce_service now _ s.daemon) q.query_type) in
            subst (λ p. Reaches s.daemon.store p.0.daemon.store) (some_eq (rw (e, on_query) at h))
              reached
      ]

  Reaches-process_delivered :
      (now : Time) (d : Option (Delivery fl)) (s : System fl)
      → Reaches s.daemon.store (process_delivered now d s).daemon.store
  unfolding process_delivered process_delivery handle_discovery_message
  Reaches-process_delivered now none s = Reaches-refl s.daemon.store
  Reaches-process_delivered now (some (Delivery.announcement msg)) s =
      Reaches-add_or_update now _ s.daemon.store
  Reaches-process_delivered now (some (Delivery.time_message msg)) s =
      elim (Option-cases s.time_sync) [
        | inl e ↦ rw e (Reaches-refl s.daemon.store)
        | inr (ts, e) ↦ rw e (Reaches-refl s.daemon.store)
      ]
  Reaches-process_delivered now (some (Delivery.location_message msg)) s =
      Reaches-refl s.daemon.store

  Reaches-heard :
      (now : Time) (bytes_read : Str) (s : System fl) (o : Option Listener)
      → Reaches s.daemon.store (heard codec now bytes_read s o).0.daemon.store
  unfolding heard
  Reaches-heard now bytes_read s none = Reaches-refl s.daemon.store
  Reaches-heard now bytes_read s (some l) =
      let (l', delivered) = receive codec now bytes_read l in
      Reaches-process_delivered now delivered (record s { listener = some l' })

  store-update_service_announcements :
      (s : System fl) → (update_service_announcements s).daemon.store ≡ s.daemon.store
  unfolding update_service_announcements
  store-update_service_announcements s = elim (Option-cases s.detector) [
    | inl e ↦ rw e refl
    | inr (det, e) ↦ rw e refl
  ]

  Reaches-on_sync :
      (now : Time) (sys : TimeSystem fl) (s : System fl) (o : Option (TimeSyncService fl))
      (s' : System fl)
      → on_sync codec ifaces resolves text now sys s o ≡ some s'
      → Reaches s.daemon.store s'.daemon.store
  unfolding on_sync
  Reaches-on_sync now sys s none s' h =
      subst (λ x. Reaches s.daemon.store x.daemon.store) (some_eq h) (Reaches-refl s.daemon.store)
  Reaches-on_sync now sys s (some ts) s' h =
      let (p, e, same) = >>=-some (evaluate_and_adjust fl sys now ts) _ h in
      subst (λ x. Reaches s.daemon.store x.daemon.store) (some_eq same)
        (Reaches-refl s.daemon.store)

  Reaches-on_event :
      (e : Event fl) (s s' : System fl)
      → on_event codec ifaces resolves text e s ≡ some s'
      → Reaches s.daemon.store s'.daemon.store
  unfolding on_event on_packet step
  Reaches-on_event (packet now bytes_read) s s' h =
      subst (λ x. Reaches s.daemon.store x.daemon.store) (some_eq h)
        (Reaches-heard now bytes_read s s.listener)
  Reaches-on_event (query now q sys) s s' h =
      let ((s'', r), e, same) = >>=-some (on_query codec ifaces resolves text now q sys s) _ h in
      subst (λ x. Reaches s.daemon.store x.daemon.store) (some_eq same)
        (Reaches-on_query now q sys s s'' r e)
  Reaches-on_event (cleanup_tick now) s s' h =
      subst (λ x. Reaches s.daemon.store x.daemon.store) (some_eq h)
        (Reaches-step (Step.ticked now) s.daemon.store)
  Reaches-on_event announcements_tick s s' h =
      subst (λ x. Reaches s.daemon.store x.daemon.store) (some_eq h)
        (subst (Reaches s.daemon.store) (sym (store-update_service_announcements s))
          (Reaches-refl s.daemon.store))
  Reaches-on_event (scan_tick check) s s' h =
      subst (λ x. Reaches s.daemon.store x.daemon.store) (some_eq h) (Reaches-refl s.daemon.store)
  Reaches-on_event (filter_tick now) s s' h =
      subst (λ x. Reaches s.daemon.store x.daemon.store) (some_eq h) (Reaches-refl s.daemon.store)
  Reaches-on_event (broadcast_tick now) s s' h =
      subst (λ x. Reaches s.daemon.store x.daemon.store) (some_eq h) (Reaches-refl s.daemon.store)
  Reaches-on_event (sync_tick now sys) s s' h = Reaches-on_sync now sys s s.time_sync s' h

  pub Reaches-on_events :
      (es : List (Event fl)) (s s' : System fl)
      → on_events codec ifaces resolves text es s ≡ some s'
      → Reaches s.daemon.store s'.daemon.store
  unfolding on_events
  Reaches-on_events [] s s' h =
      subst (λ x. Reaches s.daemon.store x.daemon.store) (some_eq h) (Reaches-refl s.daemon.store)
  Reaches-on_events (e ∷ es) s s' h =
      let (t, first, rest) = >>=-some (on_event codec ifaces resolves text e s) _ h in
      Reaches-trans s.daemon.store t.daemon.store s'.daemon.store (Reaches-on_event e s t first)
        (Reaches-on_events es t s' rest)
