-- ===== src/Platform.antt =====
-- crates/clave-platform/src: the value types of the platform seam, and the enforcement report.
pub mod Types
pub mod Enforcement
mod Tests
