-- ===== src/Cli/Announce.antt =====
-- cmd/disco/commands/announce.go: announcements by hand. Printing is left out; the interfaces, the
-- clock and the connection are arguments.
pub mod Counted
use disco.Base.{
  Str, Str_eq, bytes, ℕ, ℤ, pos, suc, Bool, true, false, not, ◌&&◌, List, [], ◌∷◌, ◌++◌, Option,
  none, some, if◌then◌else◌, ltb_ℤ, leb_ℤ, eqb_ℤ, is_empty,
}
use disco.Clock.{Time, Duration, unix}
use disco.Net.{format_int}
use disco.Discovery.{ServiceInfo, BroadcastMessage, message_announce}
use disco.Discovery.Announcer.{unix_nano}
use disco.Discovery.Interfaces.{Address, Interface, format_ip4}
use disco.Cli.Validation.{Invalid, validate_hostname, validate_service_name, validate_port}

-- The flags.
pub record AnnounceFlags : Type 0 where
  pub hostname : Str
  pub addr : Str
  pub interval : Duration
  pub count : ℤ
  pub port : ℤ
  pub service : Str
  pub aliases : List Str

pub data AnnounceError : Type 0 where
  hostname_required port_required service_required : AnnounceError
  invalid_hostname invalid_service invalid_port : Invalid → AnnounceError

-- `if err := ...; err != nil { return wrap(err) }`, before the other checks.
abbrev pub wrapped :
    (Invalid → AnnounceError) → Option Invalid → Option AnnounceError → Option AnnounceError
wrapped wrap none rest = rest
wrapped wrap (some e) rest = some (wrap e)

-- The checks of the port, and of the service before them.
abbrev pub port_check : AnnounceFlags → Option AnnounceError
port_check f =
    if ltb_ℤ (pos 0) f.port then wrapped invalid_port (validate_port f.port) none else none

abbrev pub service_check : AnnounceFlags → Option AnnounceError
service_check f =
    if not (is_empty f.service)
    then wrapped invalid_service (validate_service_name f.service) (port_check f)
    else port_check f

unfoldable pub validate_announce_args : AnnounceFlags → Option AnnounceError
validate_announce_args f =
    if is_empty f.hostname
    then some hostname_required
    else wrapped invalid_hostname (validate_hostname f.hostname) (
        if not (is_empty f.service) && eqb_ℤ f.port (pos 0)
        then some port_required
        else if ltb_ℤ (pos 0) f.port && is_empty f.service
        then some service_required
        else service_check f)

unfoldable pub build_services : AnnounceFlags → List ServiceInfo
build_services f =
    if not (is_empty f.service) && ltb_ℤ (pos 0) f.port
    then record { name = f.service; port = f.port; addr = []; aliases = f.aliases } ∷ []
    else []

unfoldable pub create_broadcast_message :
    Time → List Str → List ServiceInfo → AnnounceFlags → BroadcastMessage
create_broadcast_message now ips services f = record {
  message_type = message_announce;
  message_id = bytes "announce-" ++ format_int (unix_nano now);
  timestamp = unix now;
  hostname = f.hostname;
  machine_id = [];
  ips = ips;
  services = services;
  signature = none;
  ttl = pos 3600;
}

-- getLocalIPs of this command: the IPv4 addresses of the interfaces that are up and no loopback, or
-- 127.0.0.1 if there are none.
unfoldable pub usable_addresses : List Address → List Str
usable_addresses [] = []
usable_addresses (a ∷ rest) =
    let others = usable_addresses rest in
    if a.is_loopback
    then others
    else elim a.ip4 [ none ↦ others | some ip ↦ format_ip4 ip ∷ others ]

unfoldable pub usable_ips : List Interface → List Str
unfolding usable_addresses
usable_ips [] = []
usable_ips (iface ∷ rest) =
    let others = usable_ips rest in
    if iface.is_loopback
    then others
    else if not iface.is_up
    then others
    else elim iface.addresses [ none ↦ others | some addrs ↦ usable_addresses addrs ++ others ]

unfoldable pub or_localhost : List Str → List Str
or_localhost [] = bytes "127.0.0.1" ∷ []
or_localhost (ip ∷ ips) = ip ∷ ips

-- What the select of sendAnnouncements takes next: the interrupt, or a tick at an instant.
pub data Signal : Type 0 where
  interrupt : Signal
  tick : Time → Signal

-- The message of a tick: the timestamp and the id are new.
unfoldable pub renewed : Time → BroadcastMessage → BroadcastMessage
renewed now msg = record msg {
  timestamp = unix now;
  message_id = bytes "announce-" ++ format_int (unix_nano now);
}

-- The loop of sendAnnouncements, after `announcements` messages: what it sends, and whether it has
-- returned once the signals are used up.
unfoldable pub announce_loop : ℤ → ℕ → List Signal → BroadcastMessage → List BroadcastMessage × Bool
unfolding renewed
announce_loop count announcements [] msg = ([], false)
announce_loop count announcements (interrupt ∷ signals) msg = ([], true)
announce_loop count announcements (tick now ∷ signals) msg =
    let rest = announce_loop count (suc announcements) signals (renewed now msg) in
    if ltb_ℤ (pos 0) count && leb_ℤ count (pos announcements)
    then ([], true)
    else (renewed now msg ∷ rest.0, rest.1)

unfoldable pub send_announcements :
    ℤ → List Signal → BroadcastMessage → List BroadcastMessage × Bool
send_announcements count signals msg =
    let rest = announce_loop count 1 signals msg in (msg ∷ rest.0, rest.1)

-- runAnnounce up to the connection: the first message, or an error (`none` for a failed listing).
unfoldable pub run_announce :
    Option (List Interface) → Time → AnnounceFlags → Option AnnounceError × Option BroadcastMessage
unfolding usable_ips or_localhost
run_announce system now f = elim (validate_announce_args f) [
  | some e ↦ (some e, none)
  | none ↦ elim system [
    | none ↦ (none, none)
    | some ifaces ↦ (
      none,
      some (create_broadcast_message now (or_localhost (usable_ips ifaces)) (build_services f) f),
    )
  ]
]
