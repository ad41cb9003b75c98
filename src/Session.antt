-- ===== src/Session.antt =====
-- Saved sessions, app/src/session.rs and the functions of app/src/window.rs that save and restore a
-- layout.
pub mod Snapshot
pub mod Restore
pub mod Restored
pub mod Tests
