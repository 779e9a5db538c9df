-- ===== src/Proto.antt =====
-- crates/clave-proto/src: the signed control plane and the tamper-evident audit spool.
pub mod External
pub mod Command
pub mod Verify
pub mod Audit
pub mod Enroll
pub mod Samples
mod Tests
