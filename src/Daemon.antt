-- ===== src/Daemon.antt =====
-- internal/daemon/daemon.go: how the daemon turns announcements, and its own services, into records
-- of the store. Log lines are left out; Run and its goroutines are in Startup.
pub mod Announced
pub mod Trust
use disco.Base.{
  Str, Str_eq, bytes, ℕ, ℤ, pos, Bool, true, false, not, List, [], ◌∷◌, ◌++◌, Option, none, some,
  any, ◌≟◌, is_empty, if◌then◌else◌, ◌&&◌, ◌||◌,
}
use disco.Clock.{Time, Duration, unix, whole_seconds}
use disco.Dict.{Dict, insert}
use disco.Net.{host_port}
use disco.Nss.{Record, HostStatus}
use disco.Security.{KeyManager, add_trusted_peer}
use disco.Timesync.Floats.{Floats}
use disco.Discovery.{ServiceInfo, BroadcastMessage, Codec}
use disco.Discovery.Interfaces.{Interface}
use disco.Discovery.Announcer.{Announcer, get_local_ips, add_service, send_announcement}
use disco.Store.{RecordStore, add_or_update}

-- The inner loop over the aliases of a service: an alias is added the first time it is met, so the
-- map `seen` holds just the aliases that are there.
unfoldable pub add_aliases : List Str → List Str → List Str
add_aliases seen [] = seen
add_aliases seen (alias ∷ rest) =
    if any (λ a. a ≟ alias) seen
    then add_aliases seen rest
    else add_aliases (seen ++ alias ∷ []) rest

unfoldable pub message_aliases : List Str → List ServiceInfo → List Str
message_aliases seen [] = seen
message_aliases seen (svc ∷ rest) = message_aliases (add_aliases seen svc.aliases) rest

unfoldable pub message_services : Dict Str Str → List ServiceInfo → Dict Str Str
message_services m [] = m
message_services m (svc ∷ rest) =
    message_services (insert svc.name (host_port svc.addr svc.port) m) rest

-- The record of an announcement.
unfoldable pub message_record : BroadcastMessage → Record
message_record msg = record {
  hostname = msg.hostname;
  machine_id = msg.machine_id;
  aliases = message_aliases [] msg.services;
  addresses = msg.ips;
  timestamp = msg.timestamp;
  first_seen = pos 0;
  ttl = msg.ttl;
  services = message_services [] msg.services;
  status = HostStatus.unset;
  is_static = false;
}

unfoldable pub handle_discovery_message : Time → BroadcastMessage → RecordStore → RecordStore
handle_discovery_message now msg s = add_or_update now (message_record msg) s

-- config.ServiceConfig
pub record ServiceConfig : Type 0 where
  pub name : Str
  pub port : ℤ
  pub aliases : List Str

-- The parts of Daemon that an announced service changes. There is no announcer when the network
-- is off.
pub record Daemon : Type 0 where
  pub hostname : Str
  pub machine_id : Str
  pub record_ttl : Duration
  pub services : List ServiceConfig
  pub dynamic_services : List ServiceConfig
  pub announcer : Option Announcer
  pub store : RecordStore

-- The addresses of the announcer, and the first of them.
unfoldable pub daemon_ips : Option (List Interface) → Time → Daemon → Daemon × List Str
daemon_ips system now d = elim d.announcer [
  | none ↦ (d, [])
  | some a ↦ let (a', ips) = get_local_ips system now a in (record d { announcer = some a' }, ips)
]

abbrev pub first_ip : List Str → Str
first_ip [] = []
first_ip (ip ∷ rest) = ip

-- The services of the daemon as announcements have them, at its first address.
unfoldable pub with_address : Str → List ServiceConfig → List ServiceInfo
with_address addr [] = []
with_address addr (svc ∷ rest) =
    record { name = svc.name; port = svc.port; addr = addr; aliases = svc.aliases }
    ∷ with_address addr rest

unfoldable pub own_record : Time → List Str → Daemon → Record
own_record now ips d =
    let services = with_address (first_ip ips) (d.services ++ d.dynamic_services) in
    record {
      hostname = d.hostname;
      machine_id = d.machine_id;
      aliases = message_aliases [] services;
      addresses = ips;
      timestamp = unix now;
      first_seen = pos 0;
      ttl = whole_seconds d.record_ttl;
      services = message_services [] services;
      status = HostStatus.unset;
      is_static = false;
    }

unfoldable pub self_register : Option (List Interface) → Time → Daemon → Daemon
self_register system now d =
    let (d', ips) = daemon_ips system now d in
    record d' { store = add_or_update now (own_record now ips d) d'.store }

-- The announcer's part of AnnounceService: the service is added, and a packet is sent at once,
-- past the rate limiter.
unfoldable pub announce_now :
    {fl : Floats}
    → Codec fl
    → Option (List Interface)
    → (Str → Bool)
    → Option Str
    → Time
    → ServiceConfig
    → Announcer
    → Announcer × Str × List Str
announce_now codec system resolves text now svc a =
    let (a', ips) = get_local_ips system now a in
    send_announcement codec system resolves text now
      (add_service svc.name svc.port (first_ip ips) svc.aliases a')

unfoldable pub announced :
    {fl : Floats}
    → Codec fl
    → Option (List Interface)
    → (Str → Bool)
    → Option Str
    → Time
    → ServiceConfig
    → Daemon
    → Daemon × Option (Str × List Str)
announced codec system resolves text now svc d = elim d.announcer [
  | none ↦ (d, none)
  | some a ↦
      let (a', packet, addresses) = announce_now codec system resolves text now svc a in
      (record d { announcer = some a' }, some (packet, addresses))
]

-- `AnnounceService`, with the packet that it sends and the addresses that it goes to; it never fails.
unfoldable pub announce_service :
    {fl : Floats}
    → Codec fl
    → Option (List Interface)
    → (Str → Bool)
    → Option Str
    → Time
    → ServiceConfig
    → Daemon
    → Daemon × Option (Str × List Str)
announce_service codec system resolves text now svc d =
    let (d', sent) =
      announced codec system resolves text now svc
        (record d { dynamic_services = d.dynamic_services ++ svc ∷ [] }) in
    (self_register system now d', sent)

-- An entry of the trusted peers file, as decoded from JSON.
pub record PeerEntry : Type 0 where
  pub hostname : Str
  pub public_key : Str
  pub private_key : Str

unfoldable pub add_entries : List PeerEntry → KeyManager → KeyManager
add_entries [] km = km
add_entries (p ∷ rest) km =
    if is_empty p.hostname || is_empty p.public_key || is_empty p.private_key
    then add_entries rest km
    else add_entries rest (add_trusted_peer p.public_key p.private_key km)

-- What the system finds of the trusted peers file: no file, the failure to read or to decode it,
-- or its entries.
pub data PeersFile : Type 0 where
  missing unreadable malformed : PeersFile
  entries : List PeerEntry → PeersFile

-- loadTrustedPeers: the key manager, and whether there is no error.
unfoldable pub load_trusted_peers : PeersFile → KeyManager → KeyManager × Bool
load_trusted_peers file km =
    let own = add_trusted_peer km.node_id km.shared_secret km in
    elim file [
      | missing ↦ (own, true)
      | unreadable ↦ (own, false)
      | malformed ↦ (own, false)
      | entries peers ↦ (add_entries peers own, true)
    ]
