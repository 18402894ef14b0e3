-- ===== src/Nss.antt =====
-- internal/nss/protocol.go: the host record of the cache, and the queries and responses of the
-- daemon's socket.
use disco.Base.{Str, bytes, ℤ, Bool, List, []}
use disco.Dict.{Dict}

-- `unset` is the empty string that a fresh `Record` holds.
pub data HostStatus : Type 0 where
  healthy stale lost static unset : HostStatus

pub record Record : Type 0 where
  pub hostname : Str
  pub machine_id : Str
  pub aliases : List Str
  pub addresses : List Str
  pub timestamp : ℤ
  pub first_seen : ℤ
  pub ttl : ℤ
  pub services : Dict Str Str
  pub status : HostStatus
  pub is_static : Bool

abbrev pub status_string : HostStatus → Str
status_string HostStatus.healthy = bytes "healthy"
status_string HostStatus.stale = bytes "stale"
status_string HostStatus.lost = bytes "lost"
status_string HostStatus.static = bytes "static"
status_string HostStatus.unset = []
