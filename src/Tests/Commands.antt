-- ===== src/Tests/Commands.antt =====
-- The command line, cmd/disco, the client library, internal/client, and internal/logging.
use disco.Base.{
  Str, Str_eq, str_eq, bytes, ℕ, pos, negsuc, true, false, [], ◌∷◌, ◌++◌, none, some, ◌≡◌, refl,
  ◌↔◌, ◌⊎◌, ◌≤◌, ◌≤ℤ◌, ◌<ℤ◌, All, arith, length, map, ltb_ℤ, if◌then◌else◌, ◌≟◌, ◌-ℤ◌, ◌+ℤ◌, scale,
  clamp64, wrap64,
}
use disco.Clock.{Time, sub_time}
use disco.Dict.{insert, lookup}
use disco.Timesync.Service.{SyncError}
use disco.Protocol.{Payload, Response, ok_response}
use disco.Security.{
  verify, sign, parse_keys, add_public_keys, add_peers, is_timely, add_trusted_peer,
}
use disco.Daemon.{PeersFile, missing, entries, load_trusted_peers, add_entries}
use disco.Discovery.{BroadcastMessage}
use disco.Dns.Text.{split_dots}
use disco.Cli.Text.{to_lower}
use disco.Cli.Validation.{
  Invalid, validate_hostname, validate_labels, is_label, ends_well, validate_service_name,
  is_service_name, validate_port,
}
use disco.Cli.Validation.Hostnames
use disco.Cli.Keys.{Keys, saved}
use disco.Cli.Keys.Trusted
use disco.Cli.Announce.{
  AnnounceFlags, create_broadcast_message, send_announcements, build_services,
  validate_announce_args,
}
use disco.Cli.Announce.Counted
use disco.Client.{status_of, force_result_of, force_request, marshal_response, unmarshal_query}
use disco.Client.Answered
use disco.Logging.{LogConfig, stderr, Line, setup, output_of, log, log_line, initial, info, warn}
use disco.Logging.Destinations
use disco.Notify.{ready, send, socket_name}
use disco.Tests.Time.{whole}

abbrev at : ℕ → Time
at s = record { sec = pos s; nsec = 0 }

validate_hostname_iff_example : (validate_hostname (bytes "node-1.lan") ≡ none) ↔ (
    (1 ≤ length (bytes "node-1.lan"))
    × (length (bytes "node-1.lan") ≤ 253)
    × All Hostnames.IsPart (split_dots (bytes "node-1.lan")))
validate_hostname_iff_example = Hostnames.validate_hostname_iff (bytes "node-1.lan")

taken : validate_hostname (bytes "node-1.lan") ≡ none
unfolding validate_hostname validate_labels split_dots to_lower str_eq is_label ends_well
taken = refl

-- An underscore is no part of a hostname.
refused : validate_hostname (bytes "node_1") ≡ some Invalid.hostname_characters
unfolding validate_hostname validate_labels split_dots to_lower str_eq is_label ends_well
refused = refl

-- The keys of two hosts, each with the other's public key.
abbrev alice : Keys
alice = record {
  public_key = bytes "aa";
  private_key = bytes "a1";
  public_keys = bytes "aa" ∷ bytes "bb" ∷ [];
}

abbrev bob : Keys
bob = record {
  public_key = bytes "bb";
  private_key = bytes "b1";
  public_keys = bytes "bb" ∷ bytes "aa" ∷ [];
}

-- A stand-in for the MAC.
abbrev mac : Str → Str → Str
mac key text = key ++ text

-- Bob's trusted peers file has the private key of Alice.
abbrev peers_file : PeersFile
peers_file =
    entries
      (record { hostname = bytes "alice"; public_key = bytes "aa"; private_key = bytes "a1" } ∷ [])

accepted_message :
    verify mac
      (Trusted.keys_of bob peers_file)
      (at 12)
      (bytes "text")
      (some (sign mac (Trusted.keys_of alice missing) (bytes "n") (at 10) (bytes "text")))
    ≡ true
unfolding verify sign parse_keys saved add_public_keys add_peers is_timely insert lookup str_eq
    sub_time ◌-ℤ◌ ◌+ℤ◌ scale clamp64 wrap64 load_trusted_peers add_entries add_trusted_peer
accepted_message = refl

verify-sign_keys_example :
    (mac (bytes "a1") (bytes "n" ++ bytes "text") ≡ mac (bytes "b1") (bytes "n" ++ bytes "text"))
    ⊎ ((secret : Str) × (Trusted.file_entry (bytes "aa") peers_file ≡ some secret)
        × (mac (bytes "a1") (bytes "n" ++ bytes "text") ≡ mac secret (bytes "n" ++ bytes "text")))
verify-sign_keys_example =
    Trusted.verify-sign_keys mac alice bob missing peers_file (bytes "n") (bytes "text") (at 10)
      (at 12) accepted_message

abbrev flags : AnnounceFlags
flags = record {
  hostname = bytes "node1";
  addr = [];
  interval = pos 1000000000;
  count = pos 2;
  port = pos 8080;
  service = bytes "web";
  aliases = [];
}

abbrev announcement : BroadcastMessage
announcement = create_broadcast_message (at 1) (bytes "10.0.0.1" ∷ []) (build_services flags) flags

send_announcements-counts_example :
    (length (send_announcements (pos 2) (Counted.ticks (at 2 ∷ at 3 ∷ [])) announcement).0 ≡ 2)
    × ((send_announcements (pos 2) (Counted.ticks (at 2 ∷ at 3 ∷ [])) announcement).1 ≡ true)
send_announcements-counts_example =
    Counted.send_announcements-counts 2 (at 2 ∷ at 3 ∷ []) announcement (omega arith) (omega arith)

build_services-validated_example :
    ((pos 1 ≤ℤ pos 8080)
      × (pos 8080 ≤ℤ pos 65535)
      × (build_services flags
          ≡ record { name = bytes "web"; port = pos 8080; addr = []; aliases = [] } ∷ []))
    ⊎ ((pos 8080 <ℤ pos 0) × (build_services flags ≡ []))
unfolding validate_announce_args validate_hostname validate_labels split_dots to_lower str_eq
    is_label ends_well validate_service_name is_service_name validate_port
build_services-validated_example = Counted.build_services-validated flags refl refl

-- A negative port passes the checks, and nothing is announced.
left_out : build_services (record flags { port = negsuc 0 }) ≡ []
unfolding build_services
left_out = refl

not_refused : validate_announce_args (record flags { port = negsuc 0 }) ≡ none
unfolding validate_announce_args validate_hostname validate_labels split_dots to_lower str_eq
    is_label ends_well validate_service_name is_service_name validate_port
not_refused = refl

-- The answer of a daemon that is synchronised.
abbrev response : Response whole
response = record (ok_response whole (bytes "7")) {
  records = Payload.sync_status (record {
    synced = true;
    source_count = 3;
    last_offset = pos 2;
    last_sync_time = at 900;
    last_error = SyncError.no_error;
  });
}

client-blind_example :
    (status_of whole (marshal_response whole (λ p. bytes "eyJ9") response)
      ≡ Answered.blank_status whole)
    × ((force_result_of whole (marshal_response whole (λ p. bytes "eyJ9") response)).success
        ≡ false)
    × ((force_result_of whole (marshal_response whole (λ p. bytes "eyJ9") response)).offset ≡ pos 0)
    × ((force_result_of whole (marshal_response whole (λ p. bytes "eyJ9") response)).method ≡ [])
    × (unmarshal_query whole (force_request whole true (bytes "7"))
        ≡ unmarshal_query whole (force_request whole false (bytes "7")))
client-blind_example = Answered.client-blind whole (λ p. bytes "eyJ9") response (bytes "7")

abbrev log_config : LogConfig
log_config = record { level = info; format = bytes "text"; file = bytes "/var/log/disco.log" }

log-destination_example :
    map
      (λ (l : Line). l.0)
      (log (λ m. []) (setup (λ path. true) log_config initial).0 [] warn (bytes "low disk") [])
    ≡ (if ltb_ℤ warn log_config.level
        then []
        else (if log_config.format ≟ bytes "json" then Destinations.wanted log_config else stderr)
          ∷ [])
unfolding setup output_of
log-destination_example =
    Destinations.log-destination (λ m. []) (λ path. true) log_config [] warn (bytes "low disk") []
      refl

-- The file is open, and the line is on the standard error.
elsewhere :
    map
      (λ (l : Line). l.0)
      (log (λ m. []) (setup (λ path. true) log_config initial).0 [] warn (bytes "low disk") [])
    ≡ stderr ∷ []
unfolding log log_line setup output_of initial str_eq ◌+ℤ◌
elsewhere = refl

-- The text goes to a socket of the abstract namespace.
told_ready :
    ready (λ socket. true) (bytes "@disco") ≡ some (0 ∷ bytes "disco", bytes "READY=1" ++ 10 ∷ [])
unfolding ready send socket_name
told_ready = refl
