-- ===== src/Core/Observations.antt =====
-- crates/core/src/observations.rs: the log of what the user picks and the suggestions made of it.
-- `Entries` has the data, `Aggregate` the suggestions, `Logs` the operations on the two files.
pub mod Entries
pub mod Aggregate
pub mod Logs
pub mod Counts
pub mod Suggesting
pub mod Muting
pub mod Writing
