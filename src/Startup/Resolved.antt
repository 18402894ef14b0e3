-- ===== src/Startup/Resolved.antt =====
-- From the announcement of one daemon to the answer of another: the announcer, the packet, the
-- listener, the store and the socket server together.
use disco.Base.{
  Str, Str_eq, Bool, true, false, List, Option, none, some, ◌≡◌, refl, sym, ◌∙◌, ap, subst, ◌⊎◌,
  any, ◌≟◌, ltb_ℤ, ◌≤ℤ◌, ◌+ℤ◌, arith,
}
use disco.Base.Options.{some_eq}
use disco.Clock.{Time, unix, unix_time, sub_time}
use disco.Dict.{lookup, values}
use disco.Nss.{Record}
use disco.Health.{is_static_host}
use disco.Timesync.Floats.{Floats}
use disco.Timesync.Service.{System as ClockSystem}
use disco.Protocol.{Query, QueryType, new_ok_response}
use disco.Security.{KeyManager, replay_ttl}
use disco.Discovery.{BroadcastMessage, Codec}
use disco.Discovery.Announcer.{
  Announcer, create_announcement, send_announcement, get_local_ips, unsigned_announcement,
  with_signature,
}
use disco.Discovery.Delivery.{Decodes, receive-send_announcement}
use disco.Discovery.Interfaces.{Interface}
use disco.Discovery.Listener.{Listener, Delivery, receive}
use disco.Store.{get}
use disco.Daemon.{handle_discovery_message}
use disco.Daemon.Announced.{told, all_aliases, get-handle_discovery_message}
use disco.Socket.{Announce}
use disco.Socket.Handlers.{answer_record, handle_query, handle_query_by_name}
use disco.Startup.{System, socket_of}
use disco.Startup.Run.{on_packet, heard, process_delivered, process_delivery}

module _ {fl : Floats} (codec : Codec fl) where
  store-process_delivered :
      (now : Time) (d : Option (Delivery fl)) (msg : BroadcastMessage) (s : System fl)
      → d ≡ some (Delivery.announcement msg)
      → (process_delivered now d s).daemon.store ≡ handle_discovery_message now msg s.daemon.store
  unfolding process_delivered process_delivery
  store-process_delivered now d msg s e = rw e refl

  store-on_packet :
      (now : Time) (packet : Str) (s : System fl) (l : Listener) (msg : BroadcastMessage)
      → s.listener ≡ some l
      → (receive codec now packet l).1 ≡ some (Delivery.announcement msg)
      → (on_packet codec now packet s).0.daemon.store
        ≡ handle_discovery_message now msg s.daemon.store
  unfolding on_packet heard
  store-on_packet now packet s l msg listening delivered =
      subst
        (λ o.
          (heard codec now packet s o).0.daemon.store
          ≡ handle_discovery_message now msg s.daemon.store)
        (sym listening)
        (store-process_delivered now (receive codec now packet l).1 msg
          (record s { listener = some (receive codec now packet l).0 }) delivered)

  answer_record-told :
      (now : Time) (q : Query) (o : Option Record) (name : Str) (addrs : List Str)
      → told o ≡ some (name, addrs)
      → answer_record fl now q o ≡ new_ok_response fl q.request_id name addrs
  unfolding answer_record
  answer_record-told now q none name addrs h = absurd (ground arith)
  answer_record-told now q (some r) name addrs h =
      ap (λ (p : Str × List Str). new_ok_response fl q.request_id p.0 p.1) (some_eq h)

  -- The parts of a message that the receiver makes a record of.
  Carries : BroadcastMessage → BroadcastMessage → Type 0
  Carries m n =
      (m.hostname ≡ n.hostname)
      × (m.ips ≡ n.ips)
      × (all_aliases m.services ≡ all_aliases n.services)

  Carries-with_signature :
      (km : Option KeyManager) (random : Option Str) (sent : Time) (msg : BroadcastMessage)
      → Carries (with_signature codec km random sent msg) msg
  unfolding Carries with_signature
  Carries-with_signature none random sent msg = (refl, refl, refl)
  Carries-with_signature (some km) none sent msg = (refl, refl, refl)
  Carries-with_signature (some km) (some random) sent msg = (refl, refl, refl)

  Carries-create_announcement :
      (system : Option (List Interface)) (random : Option Str) (sent : Time) (a : Announcer)
      → ((create_announcement codec system random sent a).1.hostname ≡ a.hostname)
        × ((create_announcement codec system random sent a).1.ips ≡ (get_local_ips system sent a).1)
        × (all_aliases (create_announcement codec system random sent a).1.services
            ≡ all_aliases (values a.services))
  unfolding Carries create_announcement unsigned_announcement
  Carries-create_announcement system random sent a =
      Carries-with_signature a.key_manager random sent
        (unsigned_announcement codec (get_local_ips system sent a).1 sent a)

  -- A client that asks a daemon for the name of another host, or for an alias of one of its services
  -- that names no record of the daemon, is answered with the name and the addresses of that host once
  -- the daemon has heard its announcement, if the daemon has keys and trusts the key that signed the
  -- announcement, hears it at most 300 seconds after it was signed by a clock that is not behind, the
  -- packet decodes to what was encoded, the id of the message is new to it, it has no static host of
  -- that name, and the grace period since the packet is not past. The query changes nothing.
  pub handle_query-on_packet :
      (sys : ClockSystem fl) (announce : Option Announce) (a : Announcer) (km receiver : KeyManager)
      (system : Option (List Interface)) (resolves : Str → Bool) (random : Str) (sent now t : Time)
      (s : System fl) (l : Listener) (q : Query)
      → a.key_manager ≡ some km
      → s.listener ≡ some l
      → l.key_manager ≡ some receiver
      → lookup km.node_id receiver.trusted_peers ≡ some km.shared_secret
      → unix sent ≤ℤ unix now
      → unix now ≤ℤ unix sent +ℤ replay_ttl
      → Decodes codec (create_announcement codec system (some random) sent a).1
      → lookup
          (create_announcement codec system (some random) sent a).1.message_id
          l.duplicate_filter.seen_ids
        ≡ none
      → is_static_host s.daemon.store.health a.hostname ≡ false
      → q.query_type ≡ QueryType.query_by_name
      → ((a.hostname ≟ q.name) ≡ true)
        ⊎ ((any (λ x. x ≟ q.name) (all_aliases (values a.services)) ≡ true)
            × (lookup q.name s.daemon.store.records ≡ none))
      → ltb_ℤ (sub_time t (unix_time now.sec)) s.daemon.store.health.config.grace_period ≡ true
      → handle_query fl t q sys announce (
          socket_of fl
            (on_packet codec now
              (send_announcement codec system resolves (some random) sent a).1
              s).0)
        ≡ some (
          socket_of fl
              (on_packet codec now
                (send_announcement codec system resolves (some random) sent a).1
                s).0,
          new_ok_response fl q.request_id a.hostname (get_local_ips system sent a).1,
        )
  unfolding Carries handle_query handle_query_by_name socket_of
  handle_query-on_packet sys announce a km receiver system resolves random sent now t s l q ka
        listening kl trust early late d unseen dynamic kind named within =
      let msg = (create_announcement codec system (some random) sent a).1 in
      let packet = (send_announcement codec system resolves (some random) sent a).1 in
      let (host, ips, aliases) = Carries-create_announcement system (some random) sent a in
      let stored = store-on_packet now packet s l msg listening (
        receive-send_announcement codec a km system resolves random sent now l receiver ka kl trust
          early late d unseen) in
      let heard_name : ((msg.hostname ≟ q.name) ≡ true)
          ⊎ ((any (λ x. x ≟ q.name) (all_aliases msg.services) ≡ true)
              × (lookup q.name s.daemon.store.records ≡ none)) =
        rw (host, aliases) named in
      let found : told (get (on_packet codec now packet s).0.daemon.store t q.name)
          ≡ some (a.hostname, (get_local_ips system sent a).1) =
        rw stored (
          get-handle_discovery_message s.daemon.store now t msg q.name (rw host dynamic) heard_name
            within
          ∙ rw (host, ips) refl) in
      rw (kind, handle_query)
        (ap (λ r. some (socket_of fl (on_packet codec now packet s).0, r))
          (answer_record-told t q _ a.hostname (get_local_ips system sent a).1 found))
