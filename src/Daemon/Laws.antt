-- ===== src/Daemon/Laws.antt =====
-- What holds of the daemon whatever happens to it.
pub mod Progress
pub mod Wipe
pub mod Outside
pub mod Record
pub mod Reports
pub mod Sync
pub mod Launch
