-- ===== src/Core/Store.antt =====
-- crates/core/src/config/store.rs: the configuration file and its copy in memory. `Documents` holds
-- parsing and migration, `Stores` the operations of `ConfigStore`.
pub mod Documents
pub mod Stores
pub mod Persisting
pub mod Memory
pub mod Watching
pub mod Migration
