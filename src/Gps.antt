-- ===== src/Gps.antt =====
-- cmd/gps-broadcaster/main.go: a separate program that reads the sentences of a GPS receiver and
-- broadcasts its time to the daemons.
pub mod Scan
pub mod Calendar
pub mod Backoff
pub mod Reader
pub mod Broadcaster
pub mod Run
pub mod Intervals
pub mod Safe
pub mod Sentences
pub mod Sent
pub mod Received
pub mod Main
