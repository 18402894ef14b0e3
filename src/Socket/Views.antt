-- ===== src/Socket/Views.antt =====
-- internal/daemon/socket.go: the structs that the handlers make of records.
use disco.Base.{
  Str, Str_eq, bytes, pos, Bool, not, ◌&&◌, ◌||◌, List, [], ◌∷◌, ◌++◌, Option, none, some,
  if◌then◌else◌, ltb_ℤ, eqb_ℤ, ◌+ℤ◌, ◌-ℤ◌, wrap64, is_empty, ◌≟◌,
}
use disco.Clock.{Time, unix, unix_time, sub_time}
use disco.Dict.{Dict, lookup, insert}
use disco.Net.{split_host_port, atoi}
use disco.Nss.{Record, status_string}
use disco.Protocol.{RecordInfo, HostInfo, HostHealth, ServiceHost, ServiceHealth, format_duration}

unfoldable pub record_info : Record → RecordInfo
record_info r = record {
  hostname = r.hostname;
  addresses = r.addresses;
  services = r.services;
  timestamp = r.timestamp;
  ttl = r.ttl;
}

unfoldable pub service_names : Dict Str Str → List Str
service_names [] = []
service_names ((name, value) ∷ rest) = name ∷ service_names rest

-- The loop body of handleQueryListHosts, with int64 arithmetic.
unfoldable pub host_info : Time → Record → HostInfo
unfolding service_names
host_info now r =
    let expires_in = wrap64 (wrap64 (r.timestamp +ℤ r.ttl) -ℤ unix now) in
    record {
      hostname = r.hostname;
      addresses = r.addresses;
      services = service_names r.services;
      first_seen = if eqb_ℤ r.first_seen (pos 0) then r.timestamp else r.first_seen;
      last_seen = r.timestamp;
      ttl = r.ttl;
      expires_in = if ltb_ℤ expires_in (pos 0) then pos 0 else expires_in;
    }

unfoldable pub host_health : Time → Record → HostHealth
host_health now r = record {
  hostname = r.hostname;
  machine_id = r.machine_id;
  addresses = r.addresses;
  status = status_string r.status;
  services = r.services;
  last_seen = r.timestamp;
  last_seen_ago =
      if r.is_static
      then bytes "(static)"
      else format_duration (sub_time now (unix_time r.timestamp));
  is_static = r.is_static;
}

-- The test of handleHostsShow.
unfoldable pub is_named : Str → Record → Bool
is_named name r = (r.hostname ≟ name) || not (is_empty r.machine_id) && (r.machine_id ≟ name)

-- The host of a service whose text is an address and a port.
unfoldable pub service_host : Str → Str → Option ServiceHost
service_host hostname text = elim (split_host_port text) [
  | none ↦ none
  | some (host, port_text) ↦
      let (port, ok) = atoi port_text in
      if ok then some (record { hostname = hostname; address = host; port = port }) else none
]

-- `services[name] = append(services[name], host)`
unfoldable pub append_host :
    Str → ServiceHost → Dict Str (List ServiceHost) → Dict Str (List ServiceHost)
append_host name host m = elim (lookup name m) [
  | none ↦ insert name (host ∷ []) m
  | some hosts ↦ insert name (hosts ++ host ∷ []) m
]

-- The two loops of handleQueryListServices.
unfoldable pub add_services :
    Str → Dict Str Str → Dict Str (List ServiceHost) → Dict Str (List ServiceHost)
unfolding service_host append_host
add_services hostname [] m = m
add_services hostname ((name, text) ∷ rest) m =
    add_services hostname rest
      (elim (service_host hostname text) [ none ↦ m | some host ↦ append_host name host m ])

unfoldable pub service_hosts :
    List Record → Dict Str (List ServiceHost) → Dict Str (List ServiceHost)
service_hosts [] m = m
service_hosts (r ∷ rest) m = service_hosts rest (add_services r.hostname r.services m)

-- The loops of handleServicesList: the first record that has a service gives its protocol and
-- its status.
unfoldable pub add_health : Record → Dict Str Str → Dict Str ServiceHealth → Dict Str ServiceHealth
add_health r [] m = m
add_health r ((name, protocol) ∷ rest) m =
    let fresh : ServiceHealth = record {
      name = name;
      protocol = protocol;
      hosts = r.hostname ∷ [];
      status = status_string r.status;
    } in
    add_health r rest (elim (lookup name m) [
      | none ↦ insert name fresh m
      | some svc ↦ insert name (record svc { hosts = svc.hosts ++ r.hostname ∷ [] }) m
    ])

unfoldable pub services_health : List Record → Dict Str ServiceHealth → Dict Str ServiceHealth
services_health [] m = m
services_health (r ∷ rest) m = services_health rest (add_health r r.services m)

-- The loop of handleServicesShow over the records that have the service.
unfoldable pub show_service : Str → List Record → ServiceHealth → ServiceHealth
show_service name [] svc = svc
show_service name (r ∷ rest) svc = elim (lookup name r.services) [
  | none ↦ show_service name rest svc
  | some protocol ↦ show_service name rest (record svc {
    hosts = svc.hosts ++ r.hostname ∷ [];
    protocol = protocol;
    status =
        if is_empty svc.status || (svc.status ≟ bytes "healthy")
        then status_string r.status
        else svc.status;
  })
]
