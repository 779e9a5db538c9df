-- ===== src/Gateway.antt =====
-- crates/clave-gateway/src: the gateway's store, its sessions and administration, the enrolment of
-- devices, its audit ledger, the policies that it signs and the volume keys that it hands out.
pub mod Action
pub mod Store
pub mod Provider
pub mod Login
pub mod Admin
pub mod Ledger
pub mod Policies
pub mod Counter
pub mod VolumeKeys
pub mod Server
pub mod Http
mod Tests
