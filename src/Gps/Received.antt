-- ===== src/Gps/Received.antt =====
-- What becomes of a time message of the GPS broadcaster: where it goes, and what the daemon that
-- hears it does with it.
use disco.Base.{
  Str, Str_eq, str_eq, beq_refl, pos, true, false, Bool, not, List, [], ◌∷◌, Option, none, some,
  ◌≡◌, refl, ◌∙◌, sym, ap, if◌then◌else◌, Bool-cases, Option-cases, inl, inr, arith,
}
use disco.Clock.{Time}
use disco.Dict.{lookup}
use disco.Dict.Laws.{lookup-insert}
use disco.Net.{split_host_port}
use disco.Timesync.Floats.{Floats}
use disco.Timesync.Sources.{TimeAnnounceMessage, TimeSource, TimeSourceStore, add}
use disco.Timesync.Selection.{is_usable}
use disco.RateLimit.{seen}
use disco.Discovery.{Codec}
use disco.Discovery.Listener.{Listener, Delivery, receive, dispatch, handle_time_message, passes}
use disco.Discovery.Interfaces.{
  Interface, UdpConn, write, write_to, write_all, target_texts, targets,
}
use disco.Gps.Broadcaster.{
  Broadcaster, new_broadcaster, broadcast, broadcast_to_interfaces, time_message,
}

write_to_connected :
    (o : Option Str) (peer address : Str)
    → o ≡ some peer
    → write_to (record { peer = o }) address ≡ []
unfolding write_to
write_to_connected o peer address h = rw h refl

write_connected :
    (o : Option Str) (peer : Str) → o ≡ some peer → write (record { peer = o }) ≡ peer ∷ []
unfolding write
write_connected o peer h = rw h refl

write_all_connected :
    (conn : UdpConn) (peer : Str) (addresses : List Str)
    → conn.peer ≡ some peer
    → write_all conn addresses ≡ []
unfolding write_all
write_all_connected conn peer [] h = refl
write_all_connected conn peer (a ∷ rest) h =
    rw (write_to_connected conn.peer peer a h) (write_all_connected conn peer rest h)

interfaces_unreached :
    (system : Option (List Interface)) (resolves : Str → Bool) (b : Broadcaster) (peer : Str)
    → b.conn.peer ≡ some peer
    → broadcast_to_interfaces system resolves b ≡ []
unfolding broadcast_to_interfaces
interfaces_unreached system resolves b peer h = unreached (split_host_port b.broadcast_addr) system
  where
    unreached :
        (o : Option (Str × Str)) (sys : Option (List Interface))
        → elim o as (λ x. List Str) [
          | none ↦ []
          | some (host, port) ↦ elim sys as (λ x. List Str) [
            | none ↦ []
            | some ifaces ↦
                write_all b.conn (target_texts resolves port (targets b.interfaces ifaces))
          ]
        ]
          ≡ []
    unreached none sys = refl
    unreached (some (host, port)) none = refl
    unreached (some (host, port)) (some ifaces) = write_all_connected b.conn peer _ h

abbrev peer_of : Option Broadcaster → Option Str
peer_of none = none
peer_of (some b) = b.conn.peer

-- What NewBroadcaster makes is connected to the resolved address.
connected :
    (resolve : Str → Option Str) (dials : Str → Bool) (broadcast_addr source_id : Str)
    (interfaces : List Str) (b : Broadcaster)
    → new_broadcaster resolve dials broadcast_addr source_id interfaces ≡ some b
    → (addr : Str) × (resolve broadcast_addr ≡ some addr) × (b.conn.peer ≡ some addr)
unfolding new_broadcaster
connected resolve dials broadcast_addr source_id interfaces b h =
    elim (Option-cases (resolve broadcast_addr)) [
      | inl e ↦ absurd (ground arith)
      | inr (addr, e) ↦ elim (Bool-cases (dials addr)) [
        | inl d ↦
            let made : some (record {
              broadcast_addr = broadcast_addr;
              interfaces = interfaces;
              source_id = source_id;
              conn = record { peer = some addr };
            })
                ≡ some b =
              ground arith in
            (addr, e, sym (ap peer_of made))
        | inr d ↦ absurd (ground arith)
      ]
    ]

module _ (fl : Floats) where
  -- A packet of a broadcaster that NewBroadcaster made goes to the resolved broadcast address and
  -- nowhere else, whatever interfaces there are.
  pub broadcast-only :
      (resolve : Str → Option Str) (dials : Str → Bool) (broadcast_addr source_id : Str)
      (interfaces : List Str) (b : Broadcaster) (encode : TimeAnnounceMessage fl → Str)
      (system : Option (List Interface)) (resolves : Str → Bool) (now gps_time : Time)
      → new_broadcaster resolve dials broadcast_addr source_id interfaces ≡ some b
      → (addr : Str) × (resolve broadcast_addr ≡ some addr)
        × (broadcast fl encode true system resolves now gps_time b
            ≡ some (encode (time_message fl now gps_time b), addr ∷ []))
  unfolding broadcast
  broadcast-only resolve dials broadcast_addr source_id interfaces b encode system resolves now t
        h =
      let (addr, e, peer) = connected resolve dials broadcast_addr source_id interfaces b h in
      (
        addr,
        e,
        rw (write_connected b.conn.peer addr peer, interfaces_unreached system resolves b addr peer)
            refl,
      )

  unsigned :
      (b : Bool) (msg : TimeAnnounceMessage fl)
      → (if not b then some (Delivery.time_message msg) else none)
        ≡ (if b then none else some (Delivery.time_message msg))
  unsigned true msg = refl
  unsigned false msg = refl

  module _ (codec : Codec fl) where
    -- What the JSON text of the message is decoded to.
    abbrev pub Decodes : Str → TimeAnnounceMessage fl → Type 0
    Decodes packet msg =
        (codec.decode_time packet ≡ some msg)
        × (codec.decode_raw packet
            ≡ some (record { message_type = msg.message_type; message_id = msg.message_id }))

    -- A time message of the broadcaster, decoded by a listener that has not seen its id, is
    -- delivered just if the listener does not require signatures; the source that the time service
    -- then stores is usable if 0.0001 is not greater than 1.
    pub receive-time_message :
        (b : Broadcaster) (now gps_time heard : Time) (l : Listener) (packet : Str)
        (s : TimeSourceStore fl)
        → Decodes packet (time_message fl now gps_time b)
        → lookup (time_message fl now gps_time b).message_id l.duplicate_filter.seen_ids ≡ none
        → fl.gt fl.tiny fl.one ≡ false
        → ((receive codec heard packet l).1 ≡ (
            if l.require_signed
            then none
            else some (Delivery.time_message (time_message fl now gps_time b))))
          × ((src : TimeSource fl) × (lookup b.source_id
                  (add fl heard (time_message fl now gps_time b) s).sources
                ≡ some src)
              × (is_usable fl src ≡ true))
    unfolding receive dispatch handle_time_message time_message passes seen str_eq add is_usable
    receive-time_message b now gps_time heard l packet s d unseen small =
        let msg = time_message fl now gps_time b in
        let stored : TimeSource fl = record {
          source_id = b.source_id;
          timestamp = msg.timestamp;
          received_at = heard;
          clock_info = msg.clock_info;
          leap_indicator = pos 0;
        } in
        (
          rw (d.1, receive, unseen, seen)
              (rw (d.0, handle_time_message) (unsigned l.require_signed _)),
          (
            stored,
            lookup-insert b.source_id b.source_id stored s.sources ∙ rw (beq_refl b.source_id) refl,
            rw small refl,
          ),
        )
