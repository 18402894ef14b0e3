-- ===== src/Discovery/Delivery.antt =====
-- What the listener of internal/discovery/broadcast.go delivers.
use disco.Base.{
  Bool, Str, Str_eq, str_eq, true, Option, none, some, ◌≡◌, refl, arith, ◌++◌, ◌≤ℤ◌, ◌+ℤ◌,
  Option-cases, Bool-cases, inl, inr, List,
}
use disco.Clock.{Time, unix}
use disco.Dict.{lookup}
use disco.Timesync.Floats.{Floats}
use disco.Security.{KeyManager, MessageSecurity, verify, sign, replay_ttl}
use disco.Security.Checks.{InWindow, verify_sound, verify-sign}
use disco.RateLimit.{seen}
use disco.Discovery.{
  BroadcastMessage, RawMessage, Codec, signed_fields, signed_time_fields, message_announce,
  message_time_announce, message_location_announce,
}
use disco.Discovery.Interfaces.{Interface}
use disco.Discovery.Announcer.{
  Announcer, create_announcement, with_signature, unsigned_announcement, send_announcement,
  get_local_ips,
}
use disco.Discovery.Listener.{
  Listener, Delivery, passes, handle_time_message, handle_location_message, handle_announcement,
  dispatch, receive,
}

module _ {fl : Floats} (codec : Codec fl) where
  -- The text is signed, under the secret that the receiver holds for the signer, in the window of
  -- 300 seconds.
  abbrev pub Signed : KeyManager → Time → Str → Option MessageSecurity → Type 0
  Signed km now text none = ⊥
  Signed km now text (some ms) =
      (secret : Str) × (lookup ms.signer km.trusted_peers ≡ some secret)
      × (ms.signature ≡ codec.mac secret (ms.nonce ++ text))
      × InWindow (unix now) ms.timestamp

  -- Announcements and time messages are signed; nothing is said of location messages.
  abbrev pub Authentic : KeyManager → Time → Option (Delivery fl) → Type 0
  Authentic km now none = Unit
  Authentic km now (some (Delivery.announcement msg)) =
      Signed km now (codec.encode_signed (signed_fields msg)) msg.signature
  Authentic km now (some (Delivery.time_message msg)) =
      Signed km now (codec.encode_signed_time (signed_time_fields fl msg)) msg.signature
  Authentic km now (some (Delivery.location_message msg)) = Unit

  passes-Signed :
      (km : KeyManager) (l : Listener) (now : Time) (text : Str) (o : Option MessageSecurity)
      → l.key_manager ≡ some km
      → l.require_signed ≡ true
      → passes codec l now text o ≡ true
      → Signed km now text o
  unfolding passes
  passes-Signed km l now text none k r h = absurd (ground arith)
  passes-Signed km l now text (some ms) k r h =
      let accepted : verify codec.mac km now text (some ms) ≡ true = ground arith in
      verify_sound codec.mac km now text ms accepted

  time-Authentic :
      (km : KeyManager) (l : Listener) (now : Time) (packet : Str)
      → l.key_manager ≡ some km
      → l.require_signed ≡ true
      → Authentic km now (handle_time_message codec l now packet)
  unfolding handle_time_message
  time-Authentic km l now packet k r = elim (Option-cases (codec.decode_time packet)) [
    | inl e ↦ rw (e, handle_time_message) tt
    | inr (msg, e) ↦
        elim (Bool-cases (
          passes codec l now (codec.encode_signed_time (signed_time_fields fl msg))
            msg.signature)) [
              | inl p ↦
                  rw (e, handle_time_message, p) (passes-Signed km l now _ msg.signature k r p)
              | inr p ↦ rw (e, handle_time_message, p) tt
            ]
  ]

  location-Authentic :
      (km : KeyManager) (now : Time) (packet : Str)
      → Authentic km now (handle_location_message codec packet)
  unfolding handle_location_message
  location-Authentic km now packet = elim (Option-cases (codec.decode_location packet)) [
    | inl e ↦ rw (e, handle_location_message) tt
    | inr (msg, e) ↦ rw (e, handle_location_message) tt
  ]

  announcement-Authentic :
      (km : KeyManager) (l : Listener) (now : Time) (packet : Str)
      → l.key_manager ≡ some km
      → l.require_signed ≡ true
      → Authentic km now (handle_announcement codec l now packet)
  unfolding handle_announcement
  announcement-Authentic km l now packet k r = elim (Option-cases (codec.decode packet)) [
    | inl e ↦ rw (e, handle_announcement) tt
    | inr (msg, e) ↦
        elim (Bool-cases
          (passes codec l now (codec.encode_signed (signed_fields msg)) msg.signature)) [
            | inl p ↦ rw (e, handle_announcement, p) (passes-Signed km l now _ msg.signature k r p)
            | inr p ↦ rw (e, handle_announcement, p) tt
          ]
  ]

  dispatch-Authentic :
      (km : KeyManager) (l : Listener) (now : Time) (raw : RawMessage) (packet : Str)
      → l.key_manager ≡ some km
      → l.require_signed ≡ true
      → Authentic km now (dispatch codec l now raw packet)
  unfolding dispatch
  dispatch-Authentic km l now raw packet k r =
      elim (Bool-cases (str_eq raw.message_type message_time_announce)) [
        | inl t ↦ rw t (time-Authentic km l now packet k r)
        | inr t ↦ elim (Bool-cases (str_eq raw.message_type message_location_announce)) [
          | inl u ↦ rw (t, u) (location-Authentic km now packet)
          | inr u ↦ rw (t, u) (announcement-Authentic km l now packet k r)
        ]
      ]

  -- With a key manager and required signatures, the announcements and the time messages that the
  -- listener delivers are signed by a trusted peer: the signature is the MAC of the nonce and the
  -- signed fields of the message under the secret held for the signer, and its timestamp is not after
  -- the instant and at most 300 seconds before it, or else so far below zero, at least 2^63 seconds
  -- before it, that the int64 difference overflows.
  pub receive-Authentic :
      (km : KeyManager) (l : Listener) (now : Time) (packet : Str)
      → l.key_manager ≡ some km
      → l.require_signed ≡ true
      → Authentic km now (receive codec now packet l).1
  unfolding receive
  receive-Authentic km l now packet k r = elim (Option-cases (codec.decode_raw packet)) [
    | inl e ↦ rw (e, receive) tt
    | inr (raw, e) ↦ elim (Bool-cases (seen now raw.message_id l.duplicate_filter).1) [
      | inl known ↦ rw (e, receive, known) tt
      | inr fresh ↦ rw (e, receive, fresh) (dispatch-Authentic km l now raw packet k r)
    ]
  ]

  -- What is encoded is what is decoded, for the message.
  abbrev pub Decodes : BroadcastMessage → Type 0
  Decodes msg =
      (codec.decode (codec.encode msg) ≡ some msg)
      × (codec.decode_raw (codec.encode msg)
          ≡ some (record { message_type = msg.message_type; message_id = msg.message_id }))

  receive-announcement :
      (l : Listener) (heard : Time) (msg : BroadcastMessage)
      → Decodes msg
      → msg.message_type ≡ message_announce
      → lookup msg.message_id l.duplicate_filter.seen_ids ≡ none
      → passes codec l heard (codec.encode_signed (signed_fields msg)) msg.signature ≡ true
      → (receive codec heard (codec.encode msg) l).1 ≡ some (Delivery.announcement msg)
  unfolding receive dispatch handle_announcement seen str_eq
  receive-announcement l heard msg d kind unseen p =
      rw (d.1, receive, unseen, seen) (simp kind (rw (d.0, handle_announcement, p) refl))

  -- The announcement of an announcer with keys and a nonce.
  abbrev signed_announcement : KeyManager → Str → Time → BroadcastMessage → BroadcastMessage
  signed_announcement km text sent msg = record msg {
    signature = some (sign codec.mac km text sent (codec.encode_signed (signed_fields msg)));
  }

  create_announcement_signed :
      (a : Announcer) (km : KeyManager) (system : Option (List Interface)) (text : Str)
      (sent : Time)
      → a.key_manager ≡ some km
      → (create_announcement codec system (some text) sent a).1
        ≡ signed_announcement km text sent
            (unsigned_announcement codec (get_local_ips system sent a).1 sent a)
  unfolding create_announcement with_signature
  create_announcement_signed a km system text sent h = simp h refl

  passes-sign :
      (l : Listener) (km receiver : KeyManager) (text message : Str) (sent heard : Time)
      → l.key_manager ≡ some receiver
      → lookup km.node_id receiver.trusted_peers ≡ some km.shared_secret
      → unix sent ≤ℤ unix heard
      → unix heard ≤ℤ unix sent +ℤ replay_ttl
      → passes codec l heard message (some (sign codec.mac km text sent message)) ≡ true
  unfolding passes
  passes-sign l km receiver text message sent heard k trust early late =
      rw (k, passes) (verify-sign codec.mac km receiver text message sent heard trust early late)

  -- An announcement that an announcer with keys makes and signs is delivered, unchanged, by each
  -- listener that trusts its key, has not seen its id, and hears it at most 300 seconds after it
  -- was signed, by a clock that is not behind, if the packet decodes to what was encoded.
  pub receive-send_announcement :
      (a : Announcer) (km : KeyManager) (system : Option (List Interface)) (resolves : Str → Bool)
      (text : Str) (sent heard : Time) (l : Listener) (receiver : KeyManager)
      → a.key_manager ≡ some km
      → l.key_manager ≡ some receiver
      → lookup km.node_id receiver.trusted_peers ≡ some km.shared_secret
      → unix sent ≤ℤ unix heard
      → unix heard ≤ℤ unix sent +ℤ replay_ttl
      → Decodes (create_announcement codec system (some text) sent a).1
      → lookup
          (create_announcement codec system (some text) sent a).1.message_id
          l.duplicate_filter.seen_ids
        ≡ none
      → (receive codec heard (send_announcement codec system resolves (some text) sent a).1 l).1
        ≡ some (Delivery.announcement (create_announcement codec system (some text) sent a).1)
  unfolding send_announcement unsigned_announcement signed_fields
  receive-send_announcement a km system resolves text sent heard l receiver ka kl trust early late d
        unseen =
      receive-announcement l heard _ d
        (rw (create_announcement_signed a km system text sent ka) refl) unseen
        (rw (create_announcement_signed a km system text sent ka)
          (passes-sign l km receiver text _ sent heard kl trust early late))
