-- ===== src/Identity.antt =====
-- crates/clave-identity/src: who may log in, enrol a device and accept an invitation. No I/O.
pub mod Email
pub mod Model
pub mod Authz
mod Tests
