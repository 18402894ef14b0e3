-- ===== src/Socket.antt =====
-- internal/daemon/socket.go: what SocketServer answers to a query. A handler reads the clock at one
-- instant, a failure to encode JSON cannot occur, and AnnounceService is an argument.
pub mod Views
pub mod Handlers
pub mod Announcing
pub mod Answers
pub mod Statuses
pub mod Effects
pub mod Services
pub mod Connections
pub mod Stopping
pub mod Needing
use disco.Base.{Str, ℤ, List, Option}
use disco.Timesync.Floats.{Floats}
use disco.Timesync.Service.{TimeSyncService}
use disco.Store.{RecordStore}
use disco.Locations.{LocationStore}

module _ (fl : Floats) where
  pub record SocketServer : Type 0 where
    pub store : RecordStore
    pub time_sync : Option (TimeSyncService fl)
    pub location_store : Option (LocationStore fl)

-- What the callback for announcements does with a name, a port and aliases: the store that it
-- leaves, and its error.
abbrev pub Announce : Type 0
Announce = Str → ℤ → List Str → RecordStore → RecordStore × Option Str
