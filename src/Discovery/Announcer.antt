-- ===== src/Discovery/Announcer.antt =====
-- The Announcer of internal/discovery/broadcast.go. The network interfaces, the addresses that
-- net.ResolveUDPAddr takes, the clock and random bytes are arguments.
use disco.Base.{
  Str, Str_eq, ℤ, pos, Bool, not, ◌&&◌, List, [], ◌∷◌, ◌++◌, Option, none, some, is_none,
  if◌then◌else◌, any, ◌≟◌, ltb_ℤ, wrap64, scale, ◌+ℤ◌,
}
use disco.Clock.{Time, Duration, unix, sub_time, zero_time}
use disco.Dict.{Dict, insert, delete, values}
use disco.Net.{format_int, split_host_port}
use disco.Discovery.Interfaces.{
  is_nil, Address, Interface, format_ip4, UdpConn, write_to, write_all, target_texts, targets,
}
use disco.Timesync.Floats.{Floats}
use disco.Security.{KeyManager, sign}
use disco.RateLimit.{RateLimiter, new_rate_limiter, allow}
use disco.Discovery.{ServiceInfo, BroadcastMessage, signed_fields, message_announce, Codec}

pub record Announcer : Type 0 where
  pub broadcast_addr : Str
  pub conn : UdpConn
  pub cached_broadcast_addr : Str
  pub cached_port : Str
  pub hostname : Str
  pub machine_id : Str
  pub interval : Duration
  pub services : Dict Str ServiceInfo
  pub rate_limiter : RateLimiter
  pub key_manager : Option KeyManager
  pub iface_filter : List Str
  pub iface_cache : Option (List Interface)
  pub iface_cache_time : Time
  pub iface_cache_ttl : Duration

-- What NewAnnouncer makes once its socket is open, with the resolved broadcast address and its
-- port: the rate is the same whatever the configuration says.
unfoldable pub opened_announcer :
    Str → Str → Str → Str → Str → Duration → Option KeyManager → List Str → Time → Announcer
opened_announcer broadcast_addr addr port hostname machine_id interval key_manager interfaces now =
    record {
      broadcast_addr = broadcast_addr;
      conn = record { peer = none };
      cached_broadcast_addr = addr;
      cached_port = port;
      hostname = hostname;
      machine_id = machine_id;
      interval = interval;
      services = [];
      rate_limiter = new_rate_limiter (pos 10) (pos 10) now;
      key_manager = key_manager;
      iface_filter = interfaces;
      iface_cache = none;
      iface_cache_time = zero_time;
      iface_cache_ttl = pos 30000000000;
    }

-- NewAnnouncer, where `resolve` is net.ResolveUDPAddr and `listens` says whether net.ListenUDP
-- works; an error is `none`.
unfoldable pub new_announcer :
    (Str → Option Str)
    → Bool
    → Str
    → Str
    → Str
    → Duration
    → Option KeyManager
    → List Str
    → Time
    → Option Announcer
new_announcer resolve listens broadcast_addr hostname machine_id interval km interfaces now =
    elim (resolve broadcast_addr) [
      | none ↦ none
      | some addr ↦ elim (split_host_port broadcast_addr) [
        | none ↦ none
        | some (host, port) ↦
            (if listens
              then some (
                  opened_announcer broadcast_addr addr port hostname machine_id interval km
                    interfaces now)
              else none)
      ]
    ]

unfoldable pub add_service : Str → ℤ → Str → List Str → Announcer → Announcer
add_service name port addr aliases a = record a {
  services =
      insert name (record { name = name; port = port; addr = addr; aliases = aliases }) a.services;
}

unfoldable pub remove_service : Str → Announcer → Announcer
remove_service name a = record a { services = delete name a.services }

-- getCachedInterfaces, from what the system lists (`none` is an error).
unfoldable pub get_cached_interfaces :
    Option (List Interface) → Time → Announcer → Announcer × List Interface
get_cached_interfaces system now a =
    let cached : List Interface = elim a.iface_cache [ none ↦ [] | some ifaces ↦ ifaces ] in
    if not (is_none a.iface_cache) && ltb_ℤ (sub_time now a.iface_cache_time) a.iface_cache_ttl
    then (a, cached)
    else elim system [
      | none ↦ (a, cached)
      | some ifaces ↦ (record a { iface_cache = some ifaces; iface_cache_time = now }, ifaces)
    ]

unfoldable pub local_addresses : List Address → List Str
local_addresses [] = []
local_addresses (a ∷ rest) =
    if a.is_loopback
    then local_addresses rest
    else elim a.ip4 [ none ↦ local_addresses rest | some ip ↦ format_ip4 ip ∷ local_addresses rest ]

unfoldable pub local_ips : List Str → List Interface → List Str
unfolding local_addresses
local_ips filter [] = []
local_ips filter (iface ∷ rest) =
    let others = local_ips filter rest in
    if not (is_nil filter) && not (any (λ n. n ≟ iface.name) filter)
    then others
    else if iface.is_loopback
    then others
    else elim iface.addresses [ none ↦ others | some addrs ↦ local_addresses addrs ++ others ]

unfoldable pub get_local_ips : Option (List Interface) → Time → Announcer → Announcer × List Str
unfolding get_cached_interfaces local_ips
get_local_ips system now a =
    let (a', ifaces) = get_cached_interfaces system now a in (a', local_ips a.iface_filter ifaces)

-- `t.UnixNano()`, in int64.
unfoldable pub unix_nano : Time → ℤ
unix_nano t = wrap64 (scale 1000000000 t.sec +ℤ pos t.nsec)

module _ {fl : Floats} (codec : Codec fl) where
  -- The message before it is signed, with the local addresses.
  unfoldable pub unsigned_announcement : List Str → Time → Announcer → BroadcastMessage
  unsigned_announcement ips now a = record {
    message_type = message_announce;
    message_id = a.hostname ++ 45 ∷ format_int (unix_nano now);
    timestamp = unix now;
    hostname = a.hostname;
    machine_id = a.machine_id;
    ips = ips;
    services = values a.services;
    signature = none;
    ttl = pos 3600;
  }

  -- The signature that createAnnouncement adds at `signed`; no nonce means that `Sign` fails.
  unfoldable pub with_signature :
      Option KeyManager → Option Str → Time → BroadcastMessage → BroadcastMessage
  with_signature none text signed msg = msg
  with_signature (some km) none signed msg = msg
  with_signature (some km) (some nonce) signed msg = record msg {
    signature = some (sign codec.mac km nonce signed (codec.encode_signed (signed_fields msg)));
  }

  unfoldable pub create_announcement :
      Option (List Interface) → Option Str → Time → Announcer → Announcer × BroadcastMessage
  unfolding with_signature unsigned_announcement
  create_announcement system nonce now a =
      let (a', ips) = get_local_ips system now a in
      (a', with_signature a.key_manager nonce now (unsigned_announcement ips now a))

  -- sendAnnouncement: the packet, and the addresses that it goes to. `resolves` says which texts
  -- net.ResolveUDPAddr takes.
  unfoldable pub send_announcement :
      Option (List Interface)
      → (Str → Bool)
      → Option Str
      → Time
      → Announcer
      → Announcer × Str × List Str
  send_announcement system resolves nonce now a =
      let (a', msg) = create_announcement system nonce now a in
      let (a'', ifaces) = get_cached_interfaces system now a' in
      (
        a'',
        codec.encode msg,
        write_to a.conn a.cached_broadcast_addr
            ++ write_all a.conn
                (target_texts resolves a.cached_port (targets a.iface_filter ifaces)),
      )

  -- `broadcast`, at each tick of the interval: nothing is sent without a token.
  unfoldable pub broadcast :
      Option (List Interface)
      → (Str → Bool)
      → Option Str
      → Time
      → Announcer
      → Announcer × Option (Str × List Str)
  broadcast system resolves nonce now a =
      let (rl, allowed) = allow now a.rate_limiter in
      let (a', packet, addresses) =
        send_announcement system resolves nonce now (record a { rate_limiter = rl }) in
      if allowed then (a', some (packet, addresses)) else (record a { rate_limiter = rl }, none)
