-- ===== src/Ipc.antt =====
-- crates/clave-ipc/src: the messages between the daemon, the shims and the launcher, and their frames.
pub mod Frame
pub mod Message
pub mod Connection
pub mod Launcher
pub mod LauncherClient
pub mod Serve
mod Tests
