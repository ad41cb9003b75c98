-- ===== src/Remote.antt =====
-- The remote sessions of app/src/remote: the proxy broker, its leases, and the detection of ssh.
pub mod Broker
pub mod Counts
pub mod Leases
pub mod Sharing
pub mod Config
pub mod Transport
pub mod Shared
pub mod Sorted
pub mod Keys
pub mod Ssh
pub mod Feeding
pub mod Arguments
pub mod Detect
pub mod Newest
pub mod Foreground
pub mod Programs
pub mod Processes
pub mod Found
pub mod Tests
pub mod Controller
pub mod Registry
pub mod Shell
pub mod Quoting
