-- ===== src/Ports.antt =====
-- Which workspace shows which listening port: app/src/port_detect.rs.
pub mod Scan
pub mod Attribution
pub mod Tests
pub mod Proc
pub mod Descendants
pub mod Reached
