-- ===== src/Cli/Check.antt =====
-- cmd/disco/commands/check.go: which services of the discovered hosts take connections; and the
-- argument check of service.go. `dial` says whether a TCP connection to an address works.
pub mod Ports
use disco.Base.{
  Str, Str_eq, bytes, ℕ, ℤ, pos, suc, Bool, true, false, not, ◌||◌, List, [], ◌∷◌, ◌++◌, Option,
  none, some, if◌then◌else◌, ltb_ℤ, eqb_ℤ,
}
use disco.Dict.{Dict}
use disco.Net.{split_host_port, atoi, host_port}
use disco.Protocol.{HostHealth, Query, QueryType, service_announce}

pub record ServiceCheck : Type 0 where
  pub host : Str
  pub machine_id : Str
  pub address : Str
  pub service : Str
  pub protocol : Str
  pub port : ℤ
  pub reachable : Bool

-- parseServiceAddr: port zero and no host for a malformed value.
unfoldable pub port_or_zero : Str → ℤ × Bool → ℤ × Str
port_or_zero host (port, true) = (port, host)
port_or_zero host (port, false) = (pos 0, [])

unfoldable pub parse_service_addr : Str → ℤ × Str
unfolding port_or_zero
parse_service_addr value = elim (split_host_port value) [
  | none ↦ (pos 0, [])
  | some (host, port) ↦ port_or_zero host (atoi port)
]

-- The loop over the addresses of a host, for one of its services.
unfoldable pub address_checks : HostHealth → Str → ℤ → List Str → List ServiceCheck
address_checks h service port [] = []
address_checks h service port (addr ∷ addrs) =
    record {
      host = h.hostname;
      machine_id = h.machine_id;
      address = addr;
      service = service;
      protocol = bytes "tcp";
      port = port;
      reachable = false;
    }
    ∷ address_checks h service port addrs

unfoldable pub service_checks : HostHealth → Dict Str Str → List ServiceCheck
unfolding address_checks
service_checks h [] = []
service_checks h ((service, value) ∷ services) =
    let rest = service_checks h services in
    let port = (parse_service_addr value).0 in
    if eqb_ℤ port (pos 0) then rest else address_checks h service port h.addresses ++ rest

unfoldable pub checks_of : List HostHealth → List ServiceCheck
unfolding service_checks
checks_of [] = []
checks_of (h ∷ hosts) = service_checks h h.services ++ checks_of hosts

-- checkService, for each of them.
unfoldable pub check_service : (Str → Bool) → ServiceCheck → ServiceCheck
check_service dial c = record c { reachable = dial (host_port c.address c.port) }

unfoldable pub check_all : (Str → Bool) → List ServiceCheck → List ServiceCheck
unfolding check_service
check_all dial [] = []
check_all dial (c ∷ cs) = check_service dial c ∷ check_all dial cs

-- The counts of the summary: up, down.
unfoldable pub summary : List ServiceCheck → ℕ × ℕ
summary [] = (0, 0)
summary (c ∷ cs) =
    let (up, down) = summary cs in if c.reachable then (suc up, down) else (up, suc down)

-- The query of `disco service add`, or none for a port that is no number from 1 to 65535.
unfoldable pub port_argument : ℤ × Bool → Option ℤ
port_argument (port, false) = none
port_argument (port, true) =
    if ltb_ℤ port (pos 1) || ltb_ℤ (pos 65535) port then none else some port

unfoldable pub service_add_query : Str → Str → List Str → Str → Option Query
unfolding port_argument
service_add_query name port_text aliases id = elim (port_argument (atoi port_text)) [
  | none ↦ none
  | some port ↦ some (record {
    query_type = service_announce;
    name = name;
    addr = [];
    family = pos 0;
    port = port;
    aliases = aliases;
    request_id = id;
  })
]
