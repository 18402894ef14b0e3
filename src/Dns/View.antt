-- ===== src/Dns/View.antt =====
-- The records that the DNS server sees, against those that the socket lists.
use disco.Base.{Str, Str_eq, List, [], ◌≡◌, refl, map}
use disco.Clock.{Time}
use disco.Dict.{Dict}
use disco.Nss.{Record}
use disco.Health.{HealthTracker, update_record_status}
use disco.Timesync.Floats.{Floats}
use disco.Protocol.{RecordInfo, Payload}
use disco.Dns.{DnsRecord, dns_record}

-- What the DNS record keeps of a record of the store.
abbrev pub core : DnsRecord → Str × List Str × List Str
core r = (r.hostname, r.aliases, r.addresses)

abbrev pub record_core : Record → Str × List Str × List Str
record_core r = (r.hostname, r.aliases, r.addresses)

-- The name and the addresses.
abbrev pub named : Str × List Str × List Str → Str × List Str
named (hostname, aliases, addresses) = (hostname, addresses)

core_updated :
    (ht : HealthTracker) (now : Time) (r : Record)
    → core (dns_record (update_record_status ht now r)) ≡ record_core r
unfolding dns_record update_record_status
core_updated ht now r = refl

-- What the answer to a LIST query says of the hosts.
abbrev info_core : RecordInfo → Str × List Str
info_core i = (i.hostname, i.addresses)

abbrev pub listed : {fl : Floats} → Payload fl → List (Str × List Str)
listed (Payload.record_list infos) = map info_core infos
listed _ = []
