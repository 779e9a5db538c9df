-- ===== src/Ipc/Message.antt =====
-- crates/clave-ipc/src/lib.rs: the messages between a shim and the daemon.
use clave.Prelude.{ℕ}
use clave.Platform.Types.{WindowId}
use clave.Core.Decide.{Action, Verdict}

abbrev pub proto_version : ℕ
proto_version = 7

pub data ShimMsg : Type 0 where
  hello : (proto nonce : ℕ) → ShimMsg
  request_decision : (req_id : ℕ) (action : Action) → ShimMsg
  window_created window_destroyed : (window : WindowId) → ShimMsg
  heartbeat : ShimMsg

pub data DaemonMsg : Type 0 where
  welcome : (proto : ℕ) → DaemonMsg
  decision : (req_id : ℕ) (verdict : Verdict) → DaemonMsg
  policy_version : (version : ℕ) → DaemonMsg
  wipe : DaemonMsg
