-- ===== src/Timesync.antt =====
-- internal/timesync: the cache of time sources, the choice of the best time, and the adjustment of
-- the clock. (Messages: internal/discovery/broadcast.go.)
pub mod Floats
pub mod Sources
pub mod Selection
pub mod Agreement
pub mod Sorting
pub mod Chosen
pub mod Parts
pub mod Largest
pub mod Adjustment
pub mod Service
pub mod Safety
pub mod Total
