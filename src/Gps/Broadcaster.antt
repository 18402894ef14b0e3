-- ===== src/Gps/Broadcaster.antt =====
-- The Broadcaster of cmd/gps-broadcaster/main.go: the time message and where it is sent. Log lines
-- are left out; encoding/json is the parameter `encode`.
use disco.Base.{
  Str, bytes, pos, negsuc, Bool, List, [], ◌∷◌, ◌++◌, Option, none, some, if◌then◌else◌,
}
use disco.Clock.{Time}
use disco.Net.{format_int, split_host_port}
use disco.Timesync.Floats.{Floats}
use disco.Timesync.Sources.{TimeAnnounceMessage}
use disco.Discovery.{message_time_announce}
use disco.Discovery.Announcer.{unix_nano}
use disco.Discovery.Interfaces.{Interface, UdpConn, write, write_all, target_texts, targets}

pub record Broadcaster : Type 0 where
  pub broadcast_addr : Str
  pub interfaces : List Str
  pub source_id : Str
  pub conn : UdpConn

-- NewBroadcaster, where `resolve` is net.ResolveUDPAddr and `dials` says whether net.DialUDP works;
-- an error is `none`.
unfoldable pub new_broadcaster :
    (Str → Option Str) → (Str → Bool) → Str → Str → List Str → Option Broadcaster
new_broadcaster resolve dials broadcast_addr source_id interfaces = elim (resolve broadcast_addr) [
  | none ↦ none
  | some addr ↦
      (if dials addr
        then some (record {
          broadcast_addr = broadcast_addr;
          interfaces = interfaces;
          source_id = source_id;
          conn = record { peer = some addr };
        })
        else none)
]

-- broadcastToInterfaces: the addresses that the packet goes to. `system` is what the system lists
-- (`none` is an error).
unfoldable pub broadcast_to_interfaces :
    Option (List Interface) → (Str → Bool) → Broadcaster → List Str
broadcast_to_interfaces system resolves b = elim (split_host_port b.broadcast_addr) [
  | none ↦ []
  | some (host, port) ↦ elim system [
    | none ↦ []
    | some ifaces ↦ write_all b.conn (target_texts resolves port (targets b.interfaces ifaces))
  ]
]

module _ (fl : Floats) where
  -- The message of Broadcast; its signature stays empty, since the struct has no field for one.
  unfoldable pub time_message : Time → Time → Broadcaster → TimeAnnounceMessage fl
  time_message now gps_time b = record {
    message_type = message_time_announce;
    message_id = b.source_id ++ 45 ∷ format_int (unix_nano now);
    timestamp = unix_nano gps_time;
    clock_info = record {
      stratum = pos 1;
      precision = negsuc 19;
      root_delay = fl.zero;
      root_dispersion = fl.tiny;
      reference_id = bytes "GPS";
      reference_time = unix_nano gps_time;
    };
    leap_indicator = pos 0;
    source_id = b.source_id;
    signature = none;
  }

  -- `Broadcast`: the packet and the addresses that it goes to, or an error if the write fails.
  unfoldable pub broadcast :
      (TimeAnnounceMessage fl → Str)
      → Bool
      → Option (List Interface)
      → (Str → Bool)
      → Time
      → Time
      → Broadcaster
      → Option (Str × List Str)
  unfolding time_message broadcast_to_interfaces
  broadcast encode writes system resolves now gps_time b =
      let packet = encode (time_message now gps_time b) in
      if writes
      then some (packet, write b.conn ++ broadcast_to_interfaces system resolves b)
      else none
