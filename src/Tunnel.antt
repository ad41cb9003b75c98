-- ===== src/Tunnel.antt =====
-- The local end of a proxy tunnel, app/src/remote/proxy_tunnel.rs.
pub mod Stream
pub mod Socks
pub mod Connect
pub mod Handshake
pub mod Bounds
pub mod Head
pub mod Authority
pub mod Session
pub mod Cleanup
pub mod Tests
