-- ===== src/Limits.antt =====
-- What the app does only now and then: notifications and update checks.
pub mod Notify
pub mod Burst
pub mod Update
pub mod Versions
pub mod Tests
