-- ===== src/Tests/Receiving.antt =====
-- The GPS broadcaster on sentences of a receiver, cmd/gps-broadcaster/main.go.
use disco.Base.{
  Str, Str_eq, str_eq, bytes, ℕ, ℤ, pos, true, false, List, [], ◌∷◌, ◌++◌, Option, none, some, ◌≡◌,
  refl, if◌then◌else◌, In, arith, ◌+ℤ◌, ◌-ℤ◌, scale, wrap64, ◌*ℤ◌, ◌↔◌,
}
use disco.Clock.{Time}
use disco.Net.{atoi, positive, parse_uint, parse_digits}
use disco.Timesync.Sources.{TimeAnnounceMessage, TimeSource, add, new_time_source_store}
use disco.Timesync.Selection.{is_usable}
use disco.Dict.{lookup}
use disco.Discovery.{Codec}
use disco.Discovery.Listener.{Delivery, new_listener, receive, Listener}
use disco.Discovery.Interfaces.{Interface, targets, or_bit, broadcast_bytes}
use disco.Discovery.Interfaces.Targets
use disco.Discovery.Interfaces.Subnet
use disco.Gps.Scan.{scanned, scan_error, panicked, scan_int, split_on, field}
use disco.Gps.Calendar.{date}
use disco.Gps.Backoff.{BackoffManager, seconds}
use disco.Gps.Reader.{GpsReader, new_gps_reader, parse_gps_time, parse_nmea}
use disco.Gps.Broadcaster.{Broadcaster, new_broadcaster, broadcast, time_message}
use disco.Gps.Run.{Event, read_tick, broadcast_timer, Loop, start, Packets, run}
use disco.Gps.Sentences
use disco.Gps.Sent
use disco.Gps.Received
use disco.Tests.Time.{whole}

abbrev at : ℕ → Time
at s = record { sec = pos s; nsec = 0 }

-- Seconds without a fraction.
abbrev scan_whole : Str → Option ℤ
scan_whole s = elim (scan_int s) [ scanned n ↦ some n | scan_error ↦ none | panicked ↦ none ]

abbrev active_line : Str
active_line = bytes "$GPRMC,123519,A,4807.038,N,01131.000,E,022.4,084.4,230394,003.1,W"

last_second_of_february :
    date (pos 2024) (pos 2) (pos 29) (pos 23) (pos 59) (pos 59) (pos 0)
    ≡ record { sec = pos 1709251199; nsec = 0 }
unfolding date wrap64 ◌+ℤ◌ scale ◌-ℤ◌
last_second_of_february = refl

parsed :
    parse_nmea whole scan_whole active_line new_gps_reader
    ≡ scanned (record {
      has_fix = true;
      gps_time = record { sec = pos 764426119; nsec = 0 };
      satellites = pos 0;
    })
unfolding parse_nmea new_gps_reader str_eq split_on field parse_gps_time scan_int atoi positive
    parse_uint parse_digits date wrap64 ◌*ℤ◌ ◌+ℤ◌ ◌-ℤ◌ scale
parsed = refl

parse_nmea-Effect_example :
    (g : GpsReader) × (parse_nmea whole scan_whole active_line new_gps_reader ≡ scanned g)
    × Sentences.Effect whole scan_whole (split_on 44 active_line) new_gps_reader g
parse_nmea-Effect_example = Sentences.parse_nmea-Effect whole scan_whole active_line new_gps_reader

abbrev encode_id : TimeAnnounceMessage whole → Str
encode_id msg = msg.message_id

abbrev resolve : Str → Option Str
resolve addr = some addr

abbrev broadcaster : Broadcaster
broadcaster = record {
  broadcast_addr = bytes "255.255.255.255:5354";
  interfaces = [];
  source_id = bytes "gps1";
  conn = record { peer = some (bytes "255.255.255.255:5354") };
}

-- An up interface with an address, and a loopback one.
abbrev interfaces : List Interface
interfaces =
    record {
      name = bytes "eth0";
      is_up = true;
      is_loopback = false;
      addresses = some (
          record {
            ip4 = some (192 ∷ 168 ∷ 1 ∷ 7 ∷ []);
            mask = 255 ∷ 255 ∷ 255 ∷ 0 ∷ [];
            is_loopback = false;
          }
          ∷ []);
    }
    ∷ record { name = bytes "lo"; is_up = true; is_loopback = true; addresses = none }
    ∷ []

reached : targets [] interfaces ≡ (192 ∷ 168 ∷ 1 ∷ 255 ∷ []) ∷ []
unfolding targets or_bit
reached = refl

targets_iff_example :
    In (192 ∷ 168 ∷ 1 ∷ 255 ∷ []) (targets [] interfaces)
    ↔ Targets.Reaches [] interfaces (192 ∷ 168 ∷ 1 ∷ 255 ∷ [])
targets_iff_example = Targets.targets_iff [] interfaces (192 ∷ 168 ∷ 1 ∷ 255 ∷ [])

broadcast_bytes-IsBroadcastOf_example :
    Subnet.IsBroadcastOf
      (10 ∷ 1 ∷ 77 ∷ 3 ∷ [])
      (255 ∷ 255 ∷ 240 ∷ 0 ∷ [])
      (broadcast_bytes (10 ∷ 1 ∷ 77 ∷ 3 ∷ []) (255 ∷ 255 ∷ 240 ∷ 0 ∷ []))
broadcast_bytes-IsBroadcastOf_example =
    Subnet.broadcast_bytes-IsBroadcastOf (10 ∷ 1 ∷ 77 ∷ 3 ∷ []) (255 ∷ 255 ∷ 240 ∷ 0 ∷ []) refl
      (omega arith, (omega arith, (omega arith, (omega arith, tt))))

broadcast-only_example :
    (addr : Str) × (resolve (bytes "255.255.255.255:5354") ≡ some addr)
    × (broadcast whole encode_id true
          (some interfaces)
          (λ a. true)
          (at 764426120)
          (at 764426119)
          broadcaster
        ≡ some
            (encode_id (time_message whole (at 764426120) (at 764426119) broadcaster), addr ∷ []))
unfolding new_broadcaster
broadcast-only_example =
    Received.broadcast-only whole resolve (λ a. true) (bytes "255.255.255.255:5354") (bytes "gps1")
      [] broadcaster encode_id (some interfaces) (λ a. true) (at 764426120) (at 764426119) refl

abbrev events : List Event
events =
    read_tick (some active_line)
    ∷ broadcast_timer (at 764426120) true (some interfaces)
    ∷ read_tick none
    ∷ []

run-FromReceiver_example :
    (s : Loop) × (ps : Packets) × (run whole scan_whole encode_id
        (λ a. true)
        true
        broadcaster
        events
        start
      ≡ scanned (s, ps))
    × ((p : Str × List Str)
        → In p ps
        → Sent.FromReceiver whole scan_whole encode_id
            (λ a. true)
            true
            broadcaster
            (λ line. In line (Sent.lines_read events))
            p)
run-FromReceiver_example =
    Sent.run-FromReceiver whole scan_whole encode_id (λ a. true) true broadcaster events

-- A search that has gone on for four checks.
abbrev searching : BackoffManager
searching = record {
  attempts = 4;
  last_has_fix = false;
  last_sats = pos 2;
  last_interval = seconds 30;
}

abbrev message : TimeAnnounceMessage whole
message = time_message whole (at 764426120) (at 764426119) broadcaster

-- A codec for the packets of this one message.
abbrev codec : Codec whole
codec = record {
  mac = λ key text. key ++ text;
  encode_signed = λ fields. fields.hostname;
  encode_signed_time = λ fields. fields.source_id;
  encode = λ msg. msg.message_id;
  decode_raw = λ packet.
      some (record { message_type = message.message_type; message_id = message.message_id });
  decode = λ packet. none;
  decode_time = λ packet. some message;
  decode_location = λ packet. none;
}

abbrev listener : Listener
listener = new_listener none false

receive-time_message_example :
    ((receive codec (at 764426120) (bytes "packet") listener).1
      ≡ (if listener.require_signed then none else some (Delivery.time_message message)))
    × ((src : TimeSource whole) × (lookup
            (bytes "gps1")
            (add whole
              (at 764426120)
              message
              (new_time_source_store whole (pos 30000000000))).sources
          ≡ some src)
        × (is_usable whole src ≡ true))
unfolding new_listener lookup
receive-time_message_example =
    Received.receive-time_message whole codec broadcaster (at 764426120) (at 764426119)
      (at 764426120) listener (bytes "packet") (new_time_source_store whole (pos 30000000000))
      (refl, refl) refl refl
