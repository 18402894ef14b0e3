-- ===== src/Dns.antt =====
-- internal/dns/server.go: the answers of the DNS server, and RecordStore.GetAllRecords of
-- internal/daemon/store.go, which gives it the records. Wire format and sockets are a library's.
pub mod Text
pub mod Handlers
pub mod View
pub mod Lookup
pub mod Listening
use disco.Base.{
  Str, Str_eq, bytes, ℕ, ℤ, pos, Bool, true, false, List, [], ◌∷◌, Option, none, some,
  if◌then◌else◌, select,
}
use disco.Clock.{Time, unix_time}
use disco.Dict.{Dict, insert, values, update_all}
use disco.Net.{split_host_port, atoi}
use disco.Nss.{Record, HostStatus, status_string}
use disco.Health.{update_record_status}
use disco.Store.{RecordStore}

-- ServiceInfo of package dns.
pub record DnsService : Type 0 where
  pub port : ℤ
  pub protocol : Str

pub record DnsRecord : Type 0 where
  pub hostname : Str
  pub aliases : List Str
  pub addresses : List Str
  pub services : Dict Str DnsService
  pub status : Str
  pub last_seen : Time
  pub is_static : Bool

-- A text without a port is taken as the protocol; the error of Atoi is ignored.
unfoldable pub dns_service : Str → DnsService
dns_service text = elim (split_host_port text) [
  | none ↦ record { port = pos 0; protocol = text }
  | some (host, port_text) ↦ record { port = (atoi port_text).0; protocol = bytes "tcp" }
]

unfoldable pub dns_services : Dict Str Str → Dict Str DnsService → Dict Str DnsService
unfolding dns_service
dns_services [] m = m
dns_services ((name, text) ∷ rest) m = dns_services rest (insert name (dns_service text) m)

unfoldable pub dns_record : Record → DnsRecord
unfolding dns_services
dns_record r = record {
  hostname = r.hostname;
  aliases = r.aliases;
  addresses = r.addresses;
  services = dns_services r.services [];
  status = status_string r.status;
  last_seen = unix_time r.timestamp;
  is_static = r.is_static;
}

-- `record.Status == nss.StatusLost`
abbrev pub has_lost_status : Record → Bool
has_lost_status r = elim r.status [ HostStatus.lost ↦ true | _ ↦ false ]

-- The loop over the records whose status is written already.
unfoldable pub dns_records : List Record → List DnsRecord
unfolding dns_record
dns_records [] = []
dns_records (r ∷ rest) =
    if has_lost_status r then dns_records rest else dns_record r ∷ dns_records rest

-- `GetAllRecords` writes the status of every record.
unfoldable pub get_all_records : Time → RecordStore → RecordStore × List DnsRecord
unfolding dns_records
get_all_records now s =
    let t = record s { records = update_all (update_record_status s.health now) s.records } in
    (t, dns_records (values t.records))
