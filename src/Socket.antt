-- ===== src/Socket.antt =====
-- The control socket, app/src/socket.rs.
pub mod Lines
pub mod Chunks
pub mod Options
pub mod Actions
pub mod Commands
pub mod Dispatch
pub mod Tests
