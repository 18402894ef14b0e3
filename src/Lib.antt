-- ===== src/Lib.antt =====
-- disco: name resolution for networks without a DNS or NTP server. Each host runs a daemon that
-- announces itself by UDP broadcast, keeps a cache of the hosts that it hears, answers name queries
-- over a Unix socket (from an NSS module and a command line client) and by DNS, and adjusts its
-- clock to time messages. This library models the daemon's logic and states what makes it correct.
--
-- The parts, and how they meet:
-- * Discovery (internal/discovery/broadcast.go): the Announcer makes and signs announcements, the
--   Listener takes packets in: duplicate filter, kind of message, signature, delivery.
--   Discovery.Interfaces has the addresses of the network interfaces, which the Gps broadcaster
--   uses too, and Discovery.Channels the channels between the listener and the daemon's loops.
--   RateLimit (internal/discovery/ratelimit.go) has the token bucket and the duplicate filter,
--   Security (internal/security/signing.go) the signatures and the keys.
-- * Daemon (internal/daemon/daemon.go): a delivered announcement becomes a record (Nss, of
--   internal/nss/protocol.go) and goes to the store; so do the daemon's own services.
-- * Store (internal/daemon/store.go) with Health (internal/daemon/health.go): RecordStore, its
--   alias index, the status of a record by its age, the cleanup. Store.Steps lists the steps that
--   the daemon makes on it, and Store.Valid and Store.Invariant what they all preserve.
--   Store.Abstract has a store without maps, which Store.Refined and Store.Simulated compare it
--   with step by step, and Store.View the store up to the layout of its maps.
-- * Socket (internal/daemon/socket.go) with Protocol (internal/nss/protocol.go) and Locations
--   (internal/daemon/location_store.go): the answer to each query, and what it does to the store.
--   Socket.Connections has the bound on connections, as a step relation.
--   Socket.Stopping has the accept loop against Stop, as a step relation, and Socket.Needing what
--   the queries leave of the time service.
-- * Dns (internal/dns/server.go, and GetAllRecords of internal/daemon/store.go): the DNS answers.
-- * Timesync (internal/timesync): the cache of time sources, the choice of a time, the adjustment.
-- * Detector (internal/service/detector.go): the scan for services on open ports.
-- * Config (internal/config): the configuration, its defaults and its checks.
-- * Startup (New and Run of internal/daemon/daemon.go): how the parts are made and joined, and what a
--   packet does to the whole daemon; Startup.Resolved goes from one daemon's announcement to another
--   one's answer. Startup.Events has all that the goroutines of a running daemon do to the state
--   that they share: packets, queries, ticks and scans, in any order. Startup.Traced, Running,
--   Lasting and Live follow such events. Startup.Detected has what a scan does to the announced
--   services, Startup.Tickers the intervals of the tickers, and Startup.Shutdown the order of the end.
--   Entry (cmd/daemon/main.go): from the configuration file to the running daemon, with Logging
--   (internal/logging/logging.go); Entry.Lasting and Entry.Ticking join it with what happens to the
--   daemon then. Notify (internal/notify/notify.go) tells the service manager.
-- * Gps (cmd/gps-broadcaster/main.go): the program that sends the time of a GPS receiver, from the
--   sentences to the packets; Gps.Received has it together with the daemon's listener.
-- * Cli (cmd/disco): the checks of the arguments, the key files and what the commands announce,
--   choose and show; Client (internal/client/client.go): the client of the time commands, against
--   the JSON objects of internal/nss/protocol.go.
-- * Base, Dict, Clock, Net: the shared helpers, Go's maps, package time, and the functions of
--   packages net, strconv and fmt that the code uses. Tests runs the code on concrete inputs.
--
-- How the code is modelled: structs are records, a method is a function from the state (and the
-- instant that it reads from the clock, and its inputs) to the new state and its result. A method
-- that holds a mutex is one step. A string is a list of bytes, int64 and time.Duration are integers
-- with `wrap64` or `clamp64` where the code can leave the 64 bits, a map is an association list in
-- the order of a `range` loop. A time that the code reads several times within one call is one
-- instant here.
--
-- Parameters: the MAC, the JSON texts (Codec), the float64 operations (Floats) and the reading of
-- decimal fractions, the network interfaces, what names and addresses resolve to, files, random
-- bytes and the answers of the system to clock calls. No law is assumed of them; a theorem that
-- needs one has it as a hypothesis (what is encoded is decoded again). Letter case and blanks are
-- those of ASCII.
--
-- Fuel: `digits` in Net writes a number with at most 20 digits, which every int64 has. All other
-- loops are structural; those that wait for events (the Gps loop, `disco announce`) run over the list
-- of the events.
--
-- Not modelled: sockets, files, the YAML, DNS and command line libraries, goroutines but for the
-- channels of the listener and the accept loop (elsewhere what a goroutine does under a lock is one
-- event), log lines of the daemon, the formats of durations and fractions on the command line, and
-- the C library: they are input and output only. A packet is taken as it is read, into a buffer of
-- 4096 bytes that cuts off the rest. A running daemon is followed with a listener that is never
-- stopped by a full channel; what stops it is in Discovery.Channels.
pub mod Base
pub mod Dict
pub mod Clock
pub mod Net
pub mod Nss
pub mod Health
pub mod Store
pub mod Security
pub mod RateLimit
pub mod Discovery
pub mod Timesync
pub mod Protocol
pub mod Locations
pub mod Socket
pub mod Daemon
pub mod Config
pub mod Dns
pub mod Detector
pub mod Gps
pub mod Logging
pub mod Notify
pub mod Startup
pub mod Entry
pub mod Client
pub mod Cli
pub mod Tests
