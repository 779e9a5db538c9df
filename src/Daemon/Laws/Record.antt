-- ===== src/Daemon/Laws/Record.antt =====
-- What one step of the daemon adds to its audit.
use clave.Prelude.{
  nat_eq, ◌==◌, ◌≡◌, ◌⊎◌, inl, inr, refl, arith, not, Option, none, some, Result, ok, err, if_both,
}
use clave.Core.Policy.{UnixTime, PolicyBundle}
use clave.Core.Decide.{Action, Verdict, Reason, allow, is_allow, decide}
use clave.Core.Audit.{
  AuditAction, AuditEvent, new_event, audit_action_eq, process_joined_zone, process_left_zone,
  volume_mounted, volume_unmounted, wiped,
}
use clave.Proto.Command.{GatewayCommand, ProtoError}
use clave.Proto.Verify.{GatewayVerifier, verify}
use clave.Proto.Audit.{emit}
use clave.Volume.Types.{Fault}
use clave.Volume.Disk.{ClaveVolume}
use clave.Daemon.State.{Parts, Daemon, GatewayError, wrong_container, bad_volume, report, gated}
use clave.Daemon.Control.{
  is_repeat, audited, audit_action_for, decide_action, update_policy, on_zone_join, on_zone_leave,
  on_work_window_created, on_work_window_destroyed, unlocked, unlock_volume, lock_volume, wiped_by,
  wipe, obey, map_result, verified, apply_gateway_command,
}
use clave.Daemon.Loop.{
  DaemonEvent, zone_join, zone_leave, work_window_created, work_window_destroyed, decision,
  policy_update, volume_unlock, volume_lock, gateway_control, wipe_event, shutdown, handle,
}

module _ {T K B : Type 0} (x : Parts T K B) where
  -- The second daemon has reported what the first has, and at most one event more; what it
  -- remembers of the last report is as before, or it is of this event.
  abbrev pub IsNext : Daemon T K B → Daemon T K B → Type 0
  IsNext d d' =
      ((d'.audit ≡ d.audit) × (d'.last_audit ≡ d.last_audit))
      ⊎ ((e : AuditEvent) × (d'.audit ≡ emit x.sha256 x.events e d.audit)
          × ((d'.last_audit ≡ d.last_audit) ⊎ (d'.last_audit ≡ some (e.action, e.ts))))

  audited-IsNext :
      (o : Option AuditAction) (verdict : Verdict) (now : UnixTime) (d : Daemon T K B)
      → IsNext d (audited x o verdict now d)
  unfolding report
  audited-IsNext none verdict now d = inl (refl, refl)
  audited-IsNext (some a) verdict now d =
      if_both (λ (d' : Daemon T K B). IsNext d d') (is_repeat a now d.last_audit) d
        (report x now a verdict (record d { last_audit = some (a, now) })) (inl (refl, refl))
        (inr (new_event now a verdict, refl, inr refl))

  decide_action-IsNext :
      (action : Action) (now : UnixTime) (d : Daemon T K B)
      → IsNext d (decide_action x action now d).0
  unfolding decide_action
  decide_action-IsNext action now d =
      let verdict = decide action d.zones d.policy now in
      if_both (λ (p : Daemon T K B × Verdict). IsNext d p.0) (not (is_allow verdict))
        (audited x (audit_action_for action verdict) verdict now d, verdict) (d, verdict)
        (audited-IsNext (audit_action_for action verdict) verdict now d) (inl (refl, refl))

  unlocked-IsNext :
      (now : UnixTime) (d : Daemon T K B) (r : ClaveVolume K B × Result Fault (Unit {0}))
      → IsNext d (unlocked x now d r).0
  unfolding report
  unlocked-IsNext now d (v, err e) = inl (refl, refl)
  unlocked-IsNext now d (v, ok u) =
      inr (new_event now volume_mounted (allow Reason.default), refl, inl refl)

  wiped_by-IsNext :
      (now : UnixTime) (d : Daemon T K B) (r : ClaveVolume K B × Result Fault (Unit {0}))
      → IsNext d (wiped_by x now d r).0
  unfolding report
  wiped_by-IsNext now d (v, err e) = inl (refl, refl)
  wiped_by-IsNext now d (v, ok u) = inr (new_event now wiped (allow Reason.default), refl, inl refl)

  update_policy-IsNext :
      (next : PolicyBundle) (d : Daemon T K B) → IsNext d (update_policy x next d).0
  unfolding update_policy
  update_policy-IsNext next d = inl (ground arith, ground arith)

  lock_volume-IsNext : (now : UnixTime) (d : Daemon T K B) → IsNext d (lock_volume x now d)
  unfolding lock_volume report
  lock_volume-IsNext now d =
      inr (new_event now volume_unmounted (allow Reason.default), refl, inl refl)

  wipe-IsNext : (now : UnixTime) (d : Daemon T K B) → IsNext d (wipe x now d).0
  unfolding wipe
  wipe-IsNext now d =
      wiped_by-IsNext now d (clave.Volume.Disk.wipe x.keys x.sectors x.ciphers (gated d))

  obey-IsNext :
      (command : GatewayCommand) (now : UnixTime) (d : Daemon T K B)
      → IsNext d (obey x command now d).0
  obey-IsNext (GatewayCommand.update_policy bundle) now d = update_policy-IsNext bundle d
  obey-IsNext (GatewayCommand.lock reason) now d = lock_volume-IsNext now d
  obey-IsNext (GatewayCommand.wipe container reason) now d =
      if_both (λ (p : Daemon T K B × Result GatewayError (Unit {0})). IsNext d p.0)
        (not (container == d.volume.container)) (d, err wrong_container)
        (map_result x bad_volume (wipe x now d)) (inl (refl, refl)) (wipe-IsNext now d)

  pub verified-IsNext :
      (now : UnixTime) (d : Daemon T K B) (r : Result ProtoError GatewayCommand × GatewayVerifier)
      → IsNext d (verified x now d r).0
  verified-IsNext now d (err e, v) = inl (refl, refl)
  verified-IsNext now d (ok command, v) = obey-IsNext command now (record d { gateway = v })

  pub handle-IsNext :
      (ev : DaemonEvent) (now : UnixTime) (d : Daemon T K B) → IsNext d (handle x ev now d)
  unfolding handle on_zone_join on_zone_leave on_work_window_created on_work_window_destroyed
      unlock_volume apply_gateway_command report
  handle-IsNext (zone_join id reason) now d =
      inr (new_event now process_joined_zone (allow Reason.default), refl, inl refl)
  handle-IsNext (zone_leave id) now d =
      inr (new_event now process_left_zone (allow Reason.default), refl, inl refl)
  handle-IsNext (work_window_created w) now d = inl (refl, refl)
  handle-IsNext (work_window_destroyed w) now d = inl (refl, refl)
  handle-IsNext (decision action) now d = decide_action-IsNext action now d
  handle-IsNext (policy_update next) now d = update_policy-IsNext next d
  handle-IsNext volume_unlock now d =
      unlocked-IsNext now d (clave.Volume.Disk.unlock x.keys x.sectors x.ciphers (gated d))
  handle-IsNext volume_lock now d = lock_volume-IsNext now d
  handle-IsNext (gateway_control signed) now d =
      verified-IsNext now d (verify x.ed25519 x.envelopes d.gateway signed now)
  handle-IsNext wipe_event now d = wipe-IsNext now d
  handle-IsNext shutdown now d = inl (refl, refl)
