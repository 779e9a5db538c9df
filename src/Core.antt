-- ===== src/Core.antt =====
-- crates/clave-core/src: the policy brain of the enclave. It has no I/O.
pub mod Zone
pub mod Host
pub mod App
pub mod Web
pub mod Net
pub mod Policy
pub mod Path
pub mod Decide
pub mod Audit
pub mod Overlay
pub mod Learn
mod Tests
