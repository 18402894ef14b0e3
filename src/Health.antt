-- ===== src/Health.antt =====
-- internal/daemon/health.go: HealthTracker, which turns the age of a record into its status, and
-- keeps the static hosts of the configuration.
use disco.Base.{
  Str, Bool, true, false, not, List, [], ◌∷◌, if◌then◌else◌, ltb_ℤ, pos, is_empty, bytes, ℕ, Str_eq,
}
use disco.Clock.{Time, Duration, sub_time, unix_time}
use disco.Dict.{Dict, insert, has_key}
use disco.Nss.{Record, HostStatus, healthy, stale, lost, static}

-- config.HealthConfig
pub record HealthConfig : Type 0 where
  pub grace_period : Duration
  pub expire_after : Duration
  pub cleanup_interval : Duration

-- config.StaticHostService
pub record StaticHostService : Type 0 where
  pub name : Str
  pub port : ℕ
  pub protocol : Str

-- config.StaticHost
pub record StaticHost : Type 0 where
  pub addresses : List Str
  pub services : List StaticHostService

pub record HealthTracker : Type 0 where
  pub config : HealthConfig
  pub static_hosts : Dict Str Record

-- The services of a static host: the default protocol is tcp.
unfoldable pub static_services : List StaticHostService → Dict Str Str → Dict Str Str
static_services [] m = m
static_services (svc ∷ rest) m =
    let proto = if is_empty svc.protocol then bytes "tcp" else svc.protocol in
    static_services rest (insert svc.name proto m)

unfoldable pub static_record : Str → StaticHost → Record
unfolding static_services
static_record hostname sh = record {
  hostname = hostname;
  machine_id = [];
  aliases = [];
  addresses = sh.addresses;
  timestamp = pos 0;
  first_seen = pos 0;
  ttl = pos 0;
  services = static_services sh.services [];
  status = static;
  is_static = true;
}

-- The loop of NewHealthTracker over the configured hosts.
unfoldable pub add_static_hosts : Dict Str StaticHost → Dict Str Record → Dict Str Record
add_static_hosts [] m = m
add_static_hosts ((hostname, sh) ∷ rest) m =
    add_static_hosts rest (insert hostname (static_record hostname sh) m)

unfoldable pub new_health_tracker : HealthConfig → Dict Str StaticHost → HealthTracker
unfolding add_static_hosts
new_health_tracker cfg hosts = record { config = cfg; static_hosts = add_static_hosts hosts [] }

-- The age of a record: `time.Since(time.Unix(record.Timestamp, 0))`.
unfoldable pub age : Time → Record → Duration
age now r = sub_time now (unix_time r.timestamp)

unfoldable pub compute_status : HealthTracker → Time → Record → HostStatus
compute_status ht now r =
    if r.is_static
    then static
    else if ltb_ℤ (age now r) ht.config.grace_period
    then healthy
    else if ltb_ℤ (age now r) ht.config.expire_after
    then stale
    else lost

unfoldable pub update_record_status : HealthTracker → Time → Record → Record
update_record_status ht now r = record r { status = compute_status ht now r }

-- `IsStatic`
unfoldable pub is_static_host : HealthTracker → Str → Bool
is_static_host ht hostname = has_key hostname ht.static_hosts

unfoldable pub should_expire : HealthTracker → Time → Record → Bool
should_expire ht now r =
    if r.is_static then false else not (ltb_ℤ (age now r) ht.config.expire_after)
