-- ===== src/Tests.antt =====
-- The theorems at concrete data, and runs of the definitions.
mod Data
mod Routing
mod Storage
mod Behaviour
mod Wires
mod Updates
mod Releases
mod Commands
mod Tools
mod Entries
mod Workers
