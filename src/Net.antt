-- ===== src/Net.antt =====
-- crates/clave-net/src: the split router and its tunnels.
pub mod Tunnel
pub mod Loopback
pub mod Router
pub mod Provider
mod Tests
