-- ===== src/Tests.antt =====
-- Runs of the code on concrete inputs, and the theorems at inputs that meet their hypotheses.
mod Store
mod Limits
mod Time
mod Network
mod Answering
mod Settings
mod Connecting
mod Scanning
mod Receiving
mod Commands
mod Starting
mod Running
mod Resolving
