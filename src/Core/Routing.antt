-- ===== src/Core/Routing.antt =====
-- crates/core/src/routing.rs. `Context`, `Matching` and `Evaluate` hold the definitions.
pub mod Context
pub mod Matching
pub mod Evaluate
pub mod Globs
pub mod Semantics
pub mod Traces
pub mod FirstMatch
pub mod Selection
pub mod Winner
