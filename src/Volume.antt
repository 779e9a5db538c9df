-- ===== src/Volume.antt =====
-- crates/clave-volume/src: the encrypted work volume, its keys and its backing store.
pub mod Types
pub mod Keys
pub mod Container
pub mod Disk
mod Tests
