-- ===== src/Enroll.antt =====
-- crates/clave-daemon/src/enroll.rs, enrollment_store.rs and enroll_client.rs: how a device enrols,
-- what it keeps of it, and how the daemon boots from that.
pub mod Accept
pub mod Client
pub mod Boot
pub mod Polls
pub mod Granted
pub mod Booted
mod Tests
