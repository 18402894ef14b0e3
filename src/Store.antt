-- ===== src/Store.antt =====
-- internal/daemon/store.go: RecordStore, the cache of host records with its alias index. Every
-- method runs under the store's mutex, so a method is one step, and it reads the clock once.
pub mod Aliases
pub mod Steps
pub mod Cleanup
pub mod Valid
pub mod Invariant
pub mod Static
pub mod Initial
pub mod Reads
pub mod Marking
pub mod Aging
pub mod Forgetting
pub mod Abstract
pub mod Refined
pub mod Simulated
pub mod View
pub mod Reaches
use disco.Base.{
  Str, Str_eq, Bool, true, false, not, ◌&&◌, List, [], ◌∷◌, Option, none, some, if◌then◌else◌,
  eqb_ℤ, pos, ◌≟◌, select, find, any,
}
use disco.Clock.{Time, Duration, unix, whole_seconds}
use disco.Dict.{Dict, lookup, insert, delete, values, keep, update_all}
use disco.Nss.{Record, HostStatus, lost}
use disco.Health.{
  HealthTracker, HealthConfig, StaticHost, new_health_tracker, compute_status, update_record_status,
  is_static_host, should_expire,
}

pub record RecordStore : Type 0 where
  pub records : Dict Str Record
  pub alias_index : Dict Str Str  -- alias to canonical hostname
  pub ttl : Duration
  pub health : HealthTracker

-- `for _, alias := range record.Aliases { rs.aliasIndex[alias] = hostname }`
unfoldable pub index_aliases : Str → List Str → Dict Str Str → Dict Str Str
index_aliases hostname [] m = m
index_aliases hostname (alias ∷ rest) m = index_aliases hostname rest (insert alias hostname m)

-- The loop of NewRecordStore over the static hosts.
unfoldable pub seed : Dict Str Record → RecordStore → RecordStore
seed [] s = s
seed ((hostname, r) ∷ rest) s = seed rest (record s {
  records = insert hostname r s.records;
  alias_index = index_aliases hostname r.aliases s.alias_index;
})

-- NewRecordStore. The cleanup that it starts is an event of Startup.Events, and its ticker, which
-- panics at a negative interval, is in Startup.Tickers.
unfoldable pub new_record_store : Duration → HealthConfig → Dict Str StaticHost → RecordStore
unfolding seed
new_record_store ttl cfg hosts =
    let health = new_health_tracker cfg hosts in
    seed health.static_hosts (record { records = []; alias_index = []; ttl = ttl; health = health })

unfoldable pub remove_aliases_for_host : Str → Dict Str Str → Dict Str Str
remove_aliases_for_host hostname = keep (λ alias h. not (h ≟ hostname))

-- The record that a name stands for: by hostname, else through the alias index.
unfoldable pub resolve : RecordStore → Str → Option Record
resolve s name = elim (lookup name s.records) [
  | some r ↦ some r
  | none ↦ elim (lookup name s.alias_index) [
    | some canonical ↦ lookup canonical s.records
    | none ↦ none
  ]
]

-- `rs.healthTracker.ComputeStatus(record) == nss.StatusLost`, skipped for a static record.
unfoldable pub is_lost : HealthTracker → Time → Record → Bool
is_lost ht now r =
    if r.is_static
    then false
    else elim (compute_status ht now r) [ HostStatus.lost ↦ true | _ ↦ false ]

unfoldable pub get : RecordStore → Time → Str → Option Record
unfolding resolve
get s now name = elim (resolve s name) [
  | none ↦ none
  | some r ↦ (if is_lost s.health now r then none else some r)
]

unfoldable pub has_address : Str → Record → Bool
has_address addr r = any (λ a. a ≟ addr) r.addresses

unfoldable pub get_by_addr : RecordStore → Time → Str → Option Record
get_by_addr s now addr =
    find (λ r. not (is_lost s.health now r) && has_address addr r) (values s.records)

-- The record as AddOrUpdate stores it.
unfoldable pub stored_record : RecordStore → Time → Record → Record
stored_record s now r = update_record_status s.health now (record r {
  ttl = if eqb_ℤ r.ttl (pos 0) then whole_seconds s.ttl else r.ttl;
  first_seen = elim (lookup r.hostname s.records) [ some old ↦ old.first_seen | none ↦ unix now ];
  timestamp = unix now;
  is_static = false;
})

-- The alias index of AddOrUpdate once the aliases of an earlier record of the host are removed.
unfoldable pub kept_aliases : RecordStore → Str → Dict Str Str
kept_aliases s hostname = elim (lookup hostname s.records) [
  | some old ↦ remove_aliases_for_host hostname s.alias_index
  | none ↦ s.alias_index
]

unfoldable pub add_or_update : Time → Record → RecordStore → RecordStore
add_or_update now r s = if is_static_host s.health r.hostname then s else record s {
  records = insert r.hostname (stored_record s now r) s.records;
  alias_index = index_aliases r.hostname r.aliases (kept_aliases s r.hostname);
}

-- `Delete`
unfoldable pub delete_host : Str → RecordStore → RecordStore
delete_host hostname s = record s {
  records = delete hostname s.records;
  alias_index = remove_aliases_for_host hostname s.alias_index;
}

-- `List`, behind LIST, LIST_HOSTS and LIST_SERVICES (HOSTS_LIST has ListAll).
unfoldable pub list : RecordStore → Time → List Record
list s now = select (λ r. not (is_lost s.health now r)) (values s.records)

-- `ListAll` also writes the status of every record.
unfoldable pub list_all : Time → RecordStore → RecordStore × List Record
list_all now s =
    let t = record s { records = update_all (update_record_status s.health now) s.records } in
    (t, values t.records)

unfoldable pub lost_record : Record → Record
lost_record r = record r { status = lost }

unfoldable pub mark_lost : Str → RecordStore → RecordStore
mark_lost hostname s = elim (lookup hostname s.records) [
  | none ↦ s
  | some r ↦
      (if r.is_static then s else record s { records = insert hostname (lost_record r) s.records })
]

unfoldable pub forget : Str → RecordStore → RecordStore
unfolding delete_host
forget hostname s = elim (lookup hostname s.records) [
  | none ↦ s
  | some r ↦ (if r.is_static then s else delete_host hostname s)
]

-- One tick of cleanupExpiredRecords: an expired record goes with its aliases, the status of every
-- other one is written again.
unfoldable pub sweep :
    HealthTracker → Time → Dict Str Record → Dict Str Str → Dict Str Record × Dict Str Str
sweep ht now [] index = ([], index)
sweep ht now ((hostname, r) ∷ rest) index =
    let gone = should_expire ht now r in
    let (rest', index') =
      sweep ht now rest (if gone then remove_aliases_for_host hostname index else index) in
    (if gone then rest' else (hostname, update_record_status ht now r) ∷ rest', index')

unfoldable pub cleanup_expired_records : Time → RecordStore → RecordStore
unfolding sweep
cleanup_expired_records now s =
    let (records, index) = sweep s.health now s.records s.alias_index in
    record s { records = records; alias_index = index }
