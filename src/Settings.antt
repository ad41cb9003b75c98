-- ===== src/Settings.antt =====
-- The preferences of the app, app/src/settings.rs.
pub mod Shortcuts
pub mod Merged
pub mod Tests
