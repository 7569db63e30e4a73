-- ===== src/Ipc.antt =====
-- crates/ipc: the framing of messages, the loop of the server over a connection, and the client.
pub mod Transport
pub mod Frames
pub mod Server
pub mod Connections
pub mod Client
pub mod Exchanges
