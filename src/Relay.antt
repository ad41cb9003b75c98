-- ===== src/Relay.antt =====
-- The relay of remote commands to the local socket, app/src/remote/relay.rs.
pub mod Hex
pub mod Translate
pub mod Server
pub mod Guarded
pub mod Lost
pub mod Typed
pub mod Tests
