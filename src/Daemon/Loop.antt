-- ===== src/Daemon/Loop.antt =====
-- The event loop of `Daemon::run`, and `GatewaySync::sync_once` with the link (crates/clave-proto/src/link.rs)
-- and the checkpoints that it saves.
use clave.Prelude.{
  ℕ, ◌+◌, Bool, true, false, not, Option, none, some, List, [], ◌∷◌, ◌++◌, Bytes, length, is_ok,
  if◌then◌else◌,
}
use clave.Platform.Types.{ProcId, WindowId}
use clave.Core.Zone.{JoinReason}
use clave.Core.Policy.{UnixTime, PolicyBundle}
use clave.Core.Decide.{Action}
use clave.Proto.Command.{SignedCommand}
use clave.Proto.Audit.{ChainHash, SpoolEntry, SignedSpoolBatch, sign_batch}
use clave.Daemon.State.{Parts, Daemon}
use clave.Daemon.Control.{
  on_zone_join, on_zone_leave, on_work_window_created, on_work_window_destroyed, decide_action,
  update_policy, unlock_volume, lock_volume, wipe, apply_gateway_command, peek_audit, confirm_audit,
}

-- The channel for the reply to a decision is left out: the verdict is what `decide_action` returns.
pub data DaemonEvent : Type 0 where
  zone_join : (id : ProcId) (reason : JoinReason) → DaemonEvent
  zone_leave : (id : ProcId) → DaemonEvent
  work_window_created work_window_destroyed : (w : WindowId) → DaemonEvent
  decision : (action : Action) → DaemonEvent
  policy_update : (next : PolicyBundle) → DaemonEvent
  volume_unlock volume_lock : DaemonEvent
  gateway_control : (signed : SignedCommand) → DaemonEvent
  wipe_event shutdown : DaemonEvent

abbrev pub is_shutdown : DaemonEvent → Bool
is_shutdown shutdown = true
is_shutdown _ = false

pub record Checkpoint : Type 0 where
  pub gateway_high_water : ℕ
  pub audit_seq : ℕ
  pub audit_head : ChainHash
  pub audit_pending : List SpoolEntry

-- `LoopbackLink`
pub record LoopbackLink : Type 0 where
  pub inbound : List SignedCommand
  pub pushed : List SignedSpoolBatch
  pub online : Bool

unfoldable pub enqueue_command : SignedCommand → LoopbackLink → LoopbackLink
enqueue_command command l = record l { inbound = l.inbound ++ (command ∷ []) }

unfoldable pub set_online : Bool → LoopbackLink → LoopbackLink
set_online online l = record l { online = online }

unfoldable pub poll_commands : LoopbackLink → LoopbackLink × List SignedCommand
poll_commands l = (record l { inbound = [] }, l.inbound)

-- The result is whether the link was available.
unfoldable pub push_audit : SignedSpoolBatch → LoopbackLink → LoopbackLink × Bool
push_audit batch l =
    if not l.online
    then (l, Bool.false)
    else (record l { pushed = l.pushed ++ (batch ∷ []) }, Bool.true)

pub record SyncReport : Type 0 where
  pub applied : ℕ
  pub rejected : ℕ
  pub audit_shipped : ℕ
  pub audit_retained : ℕ

-- A daemon with its link, the seed of its device key, and the checkpoint saved last
pub record Synced (T K B : Type 0) : Type 0 where
  pub daemon : Daemon T K B
  pub link : LoopbackLink
  pub device_key : Bytes
  pub saved : Option Checkpoint

abbrev pub last_seq : List SpoolEntry → Option ℕ
last_seq [] = none
last_seq (e ∷ []) = some e.seq
last_seq (_ ∷ e ∷ es) = last_seq (e ∷ es)

module _ {T K B : Type 0} (x : Parts T K B) where
  -- An event other than `shutdown`
  unfoldable pub handle : DaemonEvent → UnixTime → Daemon T K B → Daemon T K B
  unfolding on_zone_join on_zone_leave on_work_window_created on_work_window_destroyed decide_action
      update_policy unlock_volume lock_volume wipe apply_gateway_command
  handle (zone_join id reason) now d = on_zone_join x id reason now d
  handle (zone_leave id) now d = on_zone_leave x id now d
  handle (work_window_created w) now d = on_work_window_created x w d
  handle (work_window_destroyed w) now d = on_work_window_destroyed x w d
  handle (decision action) now d = (decide_action x action now d).0
  handle (policy_update next) now d = (update_policy x next d).0
  handle volume_unlock now d = (unlock_volume x now d).0
  handle volume_lock now d = lock_volume x now d
  handle (gateway_control signed) now d = (apply_gateway_command x signed now d).0
  handle wipe_event now d = (wipe x now d).0
  handle shutdown now d = d

  -- `Daemon::run`, over the events that arrive, each with what the clock then says
  unfoldable pub run : List (DaemonEvent × UnixTime) → Daemon T K B → Daemon T K B
  unfolding handle
  run [] d = d
  run ((ev, now) ∷ rest) d =
      let later = run rest (handle ev now d) in if is_shutdown ev then d else later

  -- `Daemon::checkpoint`
  unfoldable pub checkpoint : Daemon T K B → Checkpoint
  checkpoint d = record {
    gateway_high_water = d.gateway.high_water;
    audit_seq = d.audit.seq;
    audit_head = d.audit.head;
    audit_pending = d.audit.pending;
  }

  -- The loop over the polled commands: the daemon, and how many were applied and rejected
  unfoldable pub apply_all :
      List SignedCommand → UnixTime → Daemon T K B → ℕ → ℕ → Daemon T K B × ℕ × ℕ
  unfolding apply_gateway_command
  apply_all [] now d applied rejected = (d, applied, rejected)
  apply_all (signed ∷ rest) now d applied rejected =
      let (d', r) = apply_gateway_command x signed now d in
      apply_all rest now d' (if is_ok r then applied + 1 else applied)
        (if is_ok r then rejected else rejected + 1)

  -- What is left to do once the audit batch has been offered to the link
  abbrev pub shipped :
      ℕ → ℕ → Synced T K B → SyncReport → LoopbackLink × Bool → Synced T K B × SyncReport
  shipped n through s report (link, false) =
      (record s { link = link }, record report { audit_retained = n })
  shipped n through s report (link, true) =
      let d = confirm_audit x through s.daemon in
      (
        record s { daemon = d; link = link; saved = some (checkpoint d) },
        record report { audit_shipped = n },
      )

  abbrev pub ship :
      Option ℕ → List SpoolEntry → ChainHash → Synced T K B → SyncReport → Synced T K B × SyncReport
  ship none entries head s report = (s, report)
  ship (some through) entries head s report =
      shipped (length entries) through s report
        (push_audit (sign_batch x.sha256 x.events x.ed25519 s.device_key entries head) s.link)

  -- `GatewaySync::sync_once`
  unfoldable pub sync_once : UnixTime → Synced T K B → Synced T K B × SyncReport
  unfolding poll_commands apply_all checkpoint peek_audit confirm_audit push_audit sign_batch
  sync_once now s =
      let (link, commands) = poll_commands s.link in
      let (d, applied, rejected) = apply_all commands now s.daemon 0 0 in
      let (entries, head) = peek_audit x d in
      ship (last_seq entries) entries head
        (record s { daemon = d; link = link; saved = some (checkpoint d) })
        (record { applied = applied; rejected = rejected; audit_shipped = 0; audit_retained = 0 })
