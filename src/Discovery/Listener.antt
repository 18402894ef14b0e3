-- ===== src/Discovery/Listener.antt =====
-- The Listener of internal/discovery/broadcast.go: what the loop of `Start` does with one packet.
-- A message that is delivered goes to the channel of its kind. (Stopping is left out.)
use disco.Base.{
  Str, Str_eq, str_eq, bytes, Bool, true, not, ◌&&◌, ◌++◌, Option, none, some, is_none,
  if◌then◌else◌, pos,
}
use disco.Base.Options.{◌>>=◌, ◌>>◌, require}
use disco.Net.{split_host_port}
use disco.Clock.{Time}
use disco.Timesync.Floats.{Floats}
use disco.Timesync.Sources.{TimeAnnounceMessage}
use disco.Security.{KeyManager, MessageSecurity, verify}
use disco.RateLimit.{DuplicateFilter, new_duplicate_filter, seen}
use disco.Discovery.{
  BroadcastMessage, LocationAnnounceMessage, RawMessage, Codec, signed_fields, signed_time_fields,
  message_time_announce, message_location_announce,
}

pub record Listener : Type 0 where
  pub duplicate_filter : DuplicateFilter
  pub key_manager : Option KeyManager
  pub require_signed : Bool

-- What NewListener makes once its socket is open.
unfoldable pub new_listener : Option KeyManager → Bool → Listener
new_listener key_manager require_signed = record {
  duplicate_filter = new_duplicate_filter (pos 300000000000);
  key_manager = key_manager;
  require_signed = require_signed;
}

-- NewListener, where `listens` says of the text of an address whether it is resolved and can be
-- listened on; an error is `none`.
unfoldable pub open_listener : (Str → Bool) → Str → Option KeyManager → Bool → Option Listener
unfolding new_listener
open_listener listens broadcast_addr key_manager require_signed = do
  require (not (require_signed && is_none key_manager))
  (host, port) ← split_host_port broadcast_addr
  require (listens (bytes "0.0.0.0:" ++ port))
  some (new_listener key_manager require_signed)

pub data Delivery (fl : Floats) : Type 0 where
  announcement : BroadcastMessage → Delivery fl
  time_message : TimeAnnounceMessage fl → Delivery fl
  location_message : LocationAnnounceMessage fl → Delivery fl

module _ {fl : Floats} (codec : Codec fl) where
  -- The two tests on a signature over the text, of announcements and time messages.
  unfoldable pub passes : Listener → Time → Str → Option MessageSecurity → Bool
  passes l now text none = not l.require_signed
  passes l now text (some ms) = elim l.key_manager [
    | none ↦ true
    | some km ↦ verify codec.mac km now text (some ms)
  ]

  unfoldable pub handle_time_message : Listener → Time → Str → Option (Delivery fl)
  unfolding passes
  handle_time_message l now packet = elim (codec.decode_time packet) [
    | none ↦ none
    | some msg ↦
        (if passes l now (codec.encode_signed_time (signed_time_fields fl msg)) msg.signature
          then some (Delivery.time_message msg)
          else none)
  ]

  unfoldable pub handle_location_message : Str → Option (Delivery fl)
  handle_location_message packet = elim (codec.decode_location packet) [
    | none ↦ none
    | some msg ↦ some (Delivery.location_message msg)
  ]

  -- The rest of the loop, for every other type of message.
  unfoldable pub handle_announcement : Listener → Time → Str → Option (Delivery fl)
  unfolding passes
  handle_announcement l now packet = elim (codec.decode packet) [
    | none ↦ none
    | some msg ↦
        (if passes l now (codec.encode_signed (signed_fields msg)) msg.signature
          then some (Delivery.announcement msg)
          else none)
  ]

  unfoldable pub dispatch : Listener → Time → RawMessage → Str → Option (Delivery fl)
  unfolding handle_time_message handle_location_message handle_announcement
  dispatch l now raw packet =
      if str_eq raw.message_type message_time_announce
      then handle_time_message l now packet
      else if str_eq raw.message_type message_location_announce
      then handle_location_message packet
      else handle_announcement l now packet

  -- What the listener does with what it has read: at most 4096 bytes, the rest of a longer packet is cut
  -- off by the read before.
  unfoldable pub receive : Time → Str → Listener → Listener × Option (Delivery fl)
  unfolding dispatch
  receive now packet l = elim (codec.decode_raw packet) [
    | none ↦ (l, none)
    | some raw ↦
        let (df, known) = seen now raw.message_id l.duplicate_filter in
        (record l { duplicate_filter = df }, if known then none else dispatch l now raw packet)
  ]
