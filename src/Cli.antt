-- ===== src/Cli.antt =====
-- cmd/disco: the command line client, as far as it computes: the checks of its arguments, its key
-- files, and what its commands send and show.
pub mod Text
pub mod Validation
pub mod Keys
pub mod Output
pub mod Announce
pub mod Ping
pub mod Hosts
pub mod Check
pub mod Commands
pub mod Printed
pub mod Listen
pub mod Start
