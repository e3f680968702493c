-- ===== src/Mobile.antt =====
-- Package mobile: the power gate, which decides when the bundled Syncthing process runs.
pub mod Decision
pub mod Gate
pub mod Events
pub mod Reconcile
pub mod Calls
pub mod Bounds
pub mod Lifecycle
pub mod Sessions
pub mod Host
pub mod Poll
pub mod Start
pub mod Migration
pub mod Status
mod Tests
