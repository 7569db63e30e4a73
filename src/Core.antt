-- ===== src/Core.antt =====
-- crates/core: the routing engine, the configuration model and the daemon's state.
pub mod Endpoint
pub mod Files
pub mod Browser
pub mod Platform
pub mod Profiles
pub mod Inventory
pub mod Rules
pub mod Config
pub mod Routing
pub mod Store
pub mod History
pub mod Observations
pub mod Protocol
pub mod Daemon
pub mod PidFile
