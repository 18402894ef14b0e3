-- ===== src/Tests/Network.antt =====
-- An announcement on its way from one daemon to another, internal/discovery and internal/daemon.
use disco.Base.{
  ℕ, Str, Str_eq, str_eq, bytes, pos, true, false, List, [], ◌∷◌, ◌++◌, none, some, ◌≡◌, refl, ◌↔◌,
  ◌≟◌, if◌then◌else◌, ◌-ℤ◌, ◌+ℤ◌, scale, clamp64, wrap64,
}
use disco.Clock.{Time, sub_time, whole_seconds}
use disco.Dict.{lookup, insert, values}
use disco.Net.{digits, format_int, host_port}
use disco.Health.{
  HealthConfig, new_health_tracker, is_static_host, compute_status, update_record_status, age,
}
use disco.Security.{KeyManager, MessageSecurity, sign, verify, is_timely, add_trusted_peer}
use disco.RateLimit.{new_rate_limiter, seen}
use disco.Discovery.{Codec, BroadcastMessage, SignedFields, signed_fields, message_announce}
use disco.Discovery.Announcer.{
  Announcer, opened_announcer, create_announcement, send_announcement, get_local_ips,
  get_cached_interfaces, local_ips, local_addresses, with_signature, unsigned_announcement,
  unix_nano, add_service,
}
use disco.Discovery.Delivery
use disco.Discovery.Interfaces.{Interface, format_ip4}
use disco.Discovery.Listener.{
  Listener, new_listener, receive, dispatch, passes, handle_announcement,
}
use disco.Daemon.{
  message_aliases, add_aliases, message_services, message_record, handle_discovery_message,
  PeerEntry, load_trusted_peers, add_entries,
}
use disco.Store.{
  RecordStore, new_record_store, get, resolve, is_lost, stored_record, add_or_update, kept_aliases,
  index_aliases,
}
use disco.Cli.Listen.{sig_tag, verified}
use disco.Cli.Listen.Tags
use disco.Tests.Time.{whole}

unfoldable pub program : Unit {0}
unfolding str_eq ◌-ℤ◌ ◌+ℤ◌ scale clamp64 wrap64 sub_time whole_seconds lookup insert values
    format_int host_port sign verify is_timely add_trusted_peer new_rate_limiter seen signed_fields
    opened_announcer create_announcement send_announcement get_local_ips get_cached_interfaces
    local_ips local_addresses format_ip4 with_signature unsigned_announcement unix_nano add_service
    new_listener receive dispatch passes handle_announcement message_aliases add_aliases
    message_services message_record handle_discovery_message load_trusted_peers add_entries
    new_health_tracker is_static_host compute_status update_record_status age new_record_store get
    resolve is_lost stored_record add_or_update kept_aliases index_aliases
program = tt

abbrev at : ℕ → Time
at s = record { sec = pos s; nsec = 0 }

abbrev pub alice : KeyManager
alice = record {
  shared_secret = bytes "s3";
  node_id = bytes "id";
  trusted_peers = (bytes "id", bytes "s3") ∷ [];
}

abbrev pub ethernet : List Interface
ethernet =
    record {
      name = bytes "eth0";
      is_up = true;
      is_loopback = false;
      addresses = some (
          record {
            ip4 = some (10 ∷ 0 ∷ 0 ∷ 1 ∷ []);
            mask = 255 ∷ 255 ∷ 255 ∷ 0 ∷ [];
            is_loopback = false;
          }
          ∷ []);
    }
    ∷ []

-- Stand-ins for the MAC and for the JSON text of the signed fields.
abbrev mac : Str → Str → Str
mac key text = key ++ text

abbrev signed_text : SignedFields → Str
signed_text fields = fields.hostname

abbrev pub announcer : Announcer
announcer =
    add_service (bytes "http") (pos 80) (bytes "10.0.0.1")
      (bytes "www" ∷ bytes "web" ∷ bytes "www" ∷ [])
      (opened_announcer (bytes "255.255.255.255:5354") (bytes "255.255.255.255:5354") (bytes "5354")
        (bytes "node1") [] (pos 30000000000) (some alice) [] (at 900))

abbrev pub message : BroadcastMessage
message = record {
  message_type = message_announce;
  message_id = bytes "node1-1000000000000";
  timestamp = pos 1000;
  hostname = bytes "node1";
  machine_id = [];
  ips = bytes "10.0.0.1" ∷ [];
  services =
      record {
        name = bytes "http";
        port = pos 80;
        addr = bytes "10.0.0.1";
        aliases = bytes "www" ∷ bytes "web" ∷ bytes "www" ∷ [];
      }
      ∷ [];
  signature = some (record {
    signature = bytes "s3n1node1";
    signer = bytes "id";
    nonce = bytes "n1";
    timestamp = pos 1000;
  });
  ttl = pos 3600;
}

-- A codec for the packets of this one message.
abbrev pub codec : Codec whole
codec = record {
  mac = mac;
  encode_signed = signed_text;
  encode_signed_time = λ fields. fields.source_id;
  encode = λ msg. msg.message_id;
  decode_raw = λ packet.
      if packet ≟ message.message_id
      then some (record { message_type = message.message_type; message_id = message.message_id })
      else none;
  decode = λ packet. if packet ≟ message.message_id then some message else none;
  decode_time = λ packet. none;
  decode_location = λ packet. none;
}

abbrev listener : Listener
listener = new_listener (some alice) true

made :
    (create_announcement codec (some ethernet) (some (bytes "n1")) (at 1000) announcer).1 ≡ message
unfolding program digits
made = refl

abbrev pub packet : Str
packet =
    (send_announcement codec (some ethernet) (λ a. true) (some (bytes "n1")) (at 1000) announcer).1

receive-Authentic_example :
    Delivery.Authentic codec alice (at 1002) (receive codec (at 1002) packet listener).1
unfolding new_listener
receive-Authentic_example =
    Delivery.receive-Authentic codec alice listener (at 1002) packet refl refl

sig_tag-verified_example : (sig_tag (bytes "keys.json") message.signature ≡ verified) ↔ (
    (ms : MessageSecurity) × (message.signature ≡ some ms)
    × (verify mac alice (at 1002) (signed_text (signed_fields message)) (some ms) ≡ true))
unfolding program digits
sig_tag-verified_example =
    Tags.sig_tag-verified codec listener alice (at 1002) packet (bytes "keys.json") message refl
      refl refl

-- A message without a signature is dropped where signatures are required.
dropped : passes codec listener (at 1002) (bytes "node1") none ≡ false
unfolding program
dropped = refl

two_aliases : (message_record message).aliases ≡ bytes "www" ∷ bytes "web" ∷ []
unfolding program
two_aliases = refl

abbrev cfg : HealthConfig
cfg = record {
  grace_period = pos 60000000000;
  expire_after = pos 3600000000000;
  cleanup_interval = pos 30000000000;
}

abbrev store : RecordStore
store = new_record_store (pos 3600000000000) cfg []

abbrev peers : List PeerEntry
peers =
    record { hostname = bytes "b"; public_key = bytes "idb"; private_key = bytes "kb" }
    ∷ record { hostname = []; public_key = bytes "idc"; private_key = bytes "kc" }
    ∷ []
