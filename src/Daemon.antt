-- ===== src/Daemon.antt =====
-- crates/clave-daemon/src/lib.rs: the daemon, which joins the policy, the zone, the audit spool, the
-- router, the volume and the gateway's commands.
pub mod State
pub mod Control
pub mod Flows
pub mod Launch
pub mod Loop
pub mod Laws
mod Tests
