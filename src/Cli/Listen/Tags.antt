-- ===== src/Cli/Listen/Tags.antt =====
-- The tags of `disco listen` (cmd/disco/commands/listen.go) and the checks of the listener.
use disco.Base.{
  Str, true, false, Option, none, some, ◌≡◌, refl, subst, ◌∙◌, ap, ◌↔◌, arith, is_empty, str_eq,
  Option-cases, Bool-cases, inl, inr,
}
use disco.Clock.{Time}
use disco.Timesync.Floats.{Floats}
use disco.Security.{KeyManager, MessageSecurity, verify}
use disco.RateLimit.{seen}
use disco.Discovery.{
  BroadcastMessage, Codec, RawMessage, signed_fields, signed_time_fields, message_time_announce,
  message_location_announce,
}
use disco.Discovery.Listener.{
  Listener, Delivery, passes, receive, dispatch, handle_announcement, handle_time_message,
  handle_location_message,
}
use disco.Cli.Listen.{verified, sig_tag}

module _ {fl : Floats} (codec : Codec fl) where
  -- What an announcement that is delivered is to a receiver with keys.
  abbrev Verified : KeyManager → Time → Option (Delivery fl) → Type 0
  Verified km now (some (Delivery.announcement msg)) =
      (ms : MessageSecurity)
      → msg.signature ≡ some ms
      → verify codec.mac km now (codec.encode_signed (signed_fields msg)) (some ms) ≡ true
  Verified km now _ = Unit

  passes-verify :
      (l : Listener) (km : KeyManager) (now : Time) (text : Str) (o : Option MessageSecurity)
      (ms : MessageSecurity)
      → l.key_manager ≡ some km
      → passes codec l now text o ≡ true
      → o ≡ some ms
      → verify codec.mac km now text (some ms) ≡ true
  unfolding passes
  passes-verify l km now text none ms k p e = absurd (ground arith)
  passes-verify l km now text (some other) ms k p e =
      subst (λ o. verify codec.mac km now text o ≡ true) e (rw (k, passes) at p)

  Verified-announcement :
      (l : Listener) (km : KeyManager) (now : Time) (packet : Str)
      → l.key_manager ≡ some km
      → Verified km now (handle_announcement codec l now packet)
  unfolding handle_announcement
  Verified-announcement l km now packet k = elim (Option-cases (codec.decode packet)) [
    | inl e ↦ rw (e, handle_announcement) tt
    | inr (msg, e) ↦
        let text = codec.encode_signed (signed_fields msg) in
        elim (Bool-cases (passes codec l now text msg.signature)) [
          | inl p ↦
              rw (e, handle_announcement, p)
                λ ms f. passes-verify l km now text msg.signature ms k p f
          | inr p ↦ rw (e, handle_announcement, p) tt
        ]
  ]

  Verified-time :
      (l : Listener) (km : KeyManager) (now : Time) (packet : Str)
      → Verified km now (handle_time_message codec l now packet)
  unfolding handle_time_message
  Verified-time l km now packet = elim (Option-cases (codec.decode_time packet)) [
    | inl e ↦ rw (e, handle_time_message) tt
    | inr (msg, e) ↦
        elim (Bool-cases (
          passes codec l now (codec.encode_signed_time (signed_time_fields fl msg))
            msg.signature)) [
              | inl p ↦ rw (e, handle_time_message, p) tt
              | inr p ↦ rw (e, handle_time_message, p) tt
            ]
  ]

  Verified-location :
      (km : KeyManager) (now : Time) (packet : Str)
      → Verified km now (handle_location_message codec packet)
  unfolding handle_location_message
  Verified-location km now packet = elim (Option-cases (codec.decode_location packet)) [
    | inl e ↦ rw (e, handle_location_message) tt
    | inr (msg, e) ↦ rw (e, handle_location_message) tt
  ]

  Verified-dispatch :
      (l : Listener) (km : KeyManager) (now : Time) (raw : RawMessage) (packet : Str)
      → l.key_manager ≡ some km
      → Verified km now (dispatch codec l now raw packet)
  unfolding dispatch
  Verified-dispatch l km now raw packet k =
      elim (Bool-cases (str_eq raw.message_type message_time_announce)) [
        | inl t ↦ rw t (Verified-time l km now packet)
        | inr t ↦ elim (Bool-cases (str_eq raw.message_type message_location_announce)) [
          | inl u ↦ rw (t, u) (Verified-location km now packet)
          | inr u ↦ rw (t, u) (Verified-announcement l km now packet k)
        ]
      ]

  Verified-receive :
      (l : Listener) (km : KeyManager) (now : Time) (packet : Str)
      → l.key_manager ≡ some km
      → Verified km now (receive codec now packet l).1
  unfolding receive
  Verified-receive l km now packet k = elim (Option-cases (codec.decode_raw packet)) [
    | inl e ↦ rw (e, receive) tt
    | inr (raw, e) ↦ elim (Bool-cases (seen now raw.message_id l.duplicate_filter).1) [
      | inl known ↦ rw (e, receive, known) tt
      | inr fresh ↦ rw (e, receive, fresh) (Verified-dispatch l km now raw packet k)
    ]
  ]

  verified_signature :
      (key_file : Str) (o : Option MessageSecurity)
      → sig_tag key_file o ≡ verified
      → (ms : MessageSecurity) × (o ≡ some ms)
  unfolding sig_tag
  verified_signature key_file none h = absurd (ground arith)
  verified_signature key_file (some ms) h = (ms, refl)

  -- With a key file, an announcement that `disco listen` shows has the tag for verified messages just
  -- if it has a signature, and this signature verifies under the keys of the file.
  pub sig_tag-verified :
      (l : Listener) (km : KeyManager) (now : Time) (packet key_file : Str) (msg : BroadcastMessage)
      → l.key_manager ≡ some km
      → is_empty key_file ≡ false
      → (receive codec now packet l).1 ≡ some (Delivery.announcement msg)
      → (sig_tag key_file msg.signature ≡ verified) ↔ (
          (ms : MessageSecurity) × (msg.signature ≡ some ms)
          × (verify codec.mac km now (codec.encode_signed (signed_fields msg)) (some ms) ≡ true))
  unfolding sig_tag
  sig_tag-verified l km now packet key_file msg k named shown =
      let checked : Verified km now (some (Delivery.announcement msg)) =
        subst (Verified km now) shown (Verified-receive l km now packet k) in
      (
        λ tag.
            (let (ms, e) = verified_signature key_file msg.signature tag in (ms, e, checked ms e)),
        λ s. ap (sig_tag key_file) s.1 ∙ rw named refl,
      )
