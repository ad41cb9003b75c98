-- ===== src/Rpc.antt =====
-- The client of the remote daemon, app/src/remote/rpc.rs.
pub mod Client
pub mod Settled
pub mod Answered
pub mod Tests
