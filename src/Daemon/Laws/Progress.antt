-- ===== src/Daemon/Laws/Progress.antt =====
-- The policy and the gateway's mark never go back.
use clave.Prelude.{
  nat_eq, ◌==◌, ◌≤◌, ◌≡◌, refl, arith, true, false, not, List, [], ◌∷◌, Result, ok, err, is_ok,
  if_both,
}
use clave.Core.Policy.{UnixTime, PolicyBundle}
use clave.Core.Decide.{Action}
use clave.Core.Audit.{audit_action_eq}
use clave.Proto.Command.{GatewayCommand, SignedCommand, ProtoError}
use clave.Proto.Verify.{GatewayVerifier, verify}
use clave.Proto.Verify.Laws.{verify-grows, replayed_lem}
use clave.Volume.Types.{Fault}
use clave.Volume.Disk.{ClaveVolume}
use clave.Daemon.State.{Parts, Daemon, wrong_container, bad_volume, report, gated}
use clave.Daemon.Control.{
  audit_action_for, decide_action, update_policy, on_zone_join, on_zone_leave,
  on_work_window_created, on_work_window_destroyed, unlocked, unlock_volume, lock_volume, wiped_by,
  wipe, obey, map_result, verified, apply_gateway_command,
}
use clave.Daemon.Loop.{
  DaemonEvent, zone_join, zone_leave, work_window_created, work_window_destroyed, decision,
  policy_update, volume_unlock, volume_lock, gateway_control, wipe_event, shutdown, is_shutdown,
  handle, run,
}

module _ {T K B : Type 0} where
  -- The second state has the gateway's mark and the policy's version of the first, or later ones.
  pub record IsLater (d d' : Daemon T K B) : Type 0 where
    pub mark : d.gateway.high_water ≤ d'.gateway.high_water
    pub version : d.policy.version ≤ d'.policy.version

  same_mark : (d d' : Daemon T K B) → d'.gateway ≡ d.gateway → d'.policy ≡ d.policy → IsLater d d'
  same_mark d d' g p = record { mark = ground arith; version = ground arith }

  IsLater-IsLater : (a b c : Daemon T K B) → IsLater a b → IsLater b c → IsLater a c
  IsLater-IsLater a b c h k = record {
    mark = omega (arith, h.mark, k.mark);
    version = omega (arith, h.version, k.version);
  }

module _ {T K B : Type 0} (x : Parts T K B) where
  update_policy-IsLater :
      (next : PolicyBundle) (d : Daemon T K B) → IsLater d (update_policy x next d).0
  unfolding update_policy
  update_policy-IsLater next d = record { mark = ground arith; version = ground arith }

  unlocked-IsLater :
      (now : UnixTime) (d : Daemon T K B) (r : ClaveVolume K B × Result Fault (Unit {0}))
      → IsLater d (unlocked x now d r).0
  unfolding report
  unlocked-IsLater now d (v, err e) = same_mark d (unlocked x now d (v, err e)).0 refl refl
  unlocked-IsLater now d (v, ok u) = same_mark d (unlocked x now d (v, ok u)).0 refl refl

  wiped_by-IsLater :
      (now : UnixTime) (d : Daemon T K B) (r : ClaveVolume K B × Result Fault (Unit {0}))
      → IsLater d (wiped_by x now d r).0
  unfolding report
  wiped_by-IsLater now d (v, err e) = same_mark d (wiped_by x now d (v, err e)).0 refl refl
  wiped_by-IsLater now d (v, ok u) = same_mark d (wiped_by x now d (v, ok u)).0 refl refl

  decide_action-IsLater :
      (action : Action) (now : UnixTime) (d : Daemon T K B)
      → IsLater d (decide_action x action now d).0
  unfolding decide_action report audit_action_for
  decide_action-IsLater action now d =
      same_mark d (decide_action x action now d).0 (ground arith) (ground arith)

  obey-IsLater :
      (command : GatewayCommand) (now : UnixTime) (d : Daemon T K B)
      → IsLater d (obey x command now d).0
  unfolding lock_volume wipe report
  obey-IsLater (GatewayCommand.update_policy bundle) now d = update_policy-IsLater bundle d
  obey-IsLater (GatewayCommand.lock reason) now d = same_mark d (lock_volume x now d) refl refl
  obey-IsLater (GatewayCommand.wipe container reason) now d =
      if_both (λ p. IsLater d p.0) (not (container == d.volume.container)) (d, err wrong_container)
        (map_result x bad_volume (wipe x now d)) (same_mark d d refl refl)
        (wiped_by-IsLater now d (clave.Volume.Disk.wipe x.keys x.sectors x.ciphers (gated d)))

  verified-IsLater :
      (now : UnixTime) (d : Daemon T K B) (r : Result ProtoError GatewayCommand × GatewayVerifier)
      → d.gateway.high_water ≤ r.1.high_water
      → IsLater d (verified x now d r).0
  verified-IsLater now d (err e, v) h = record { mark = h; version = omega arith }
  verified-IsLater now d (ok command, v) h =
      let later = obey-IsLater command now (record d { gateway = v }) in
      record { mark = omega (arith, h, later.mark); version = later.version }

  handle-IsLater :
      (ev : DaemonEvent) (now : UnixTime) (d : Daemon T K B) → IsLater d (handle x ev now d)
  unfolding handle on_zone_join on_zone_leave on_work_window_created on_work_window_destroyed
      unlock_volume lock_volume wipe apply_gateway_command report
  handle-IsLater (zone_join id reason) now d =
      same_mark d (on_zone_join x id reason now d) refl refl
  handle-IsLater (zone_leave id) now d = same_mark d (on_zone_leave x id now d) refl refl
  handle-IsLater (work_window_created w) now d =
      same_mark d (on_work_window_created x w d) refl refl
  handle-IsLater (work_window_destroyed w) now d =
      same_mark d (on_work_window_destroyed x w d) refl refl
  handle-IsLater (decision action) now d = decide_action-IsLater action now d
  handle-IsLater (policy_update next) now d = update_policy-IsLater next d
  handle-IsLater volume_unlock now d =
      unlocked-IsLater now d (clave.Volume.Disk.unlock x.keys x.sectors x.ciphers (gated d))
  handle-IsLater volume_lock now d = same_mark d (lock_volume x now d) refl refl
  handle-IsLater (gateway_control signed) now d =
      verified-IsLater now d (verify x.ed25519 x.envelopes d.gateway signed now)
        (verify-grows x.ed25519 x.envelopes d.gateway signed now)
  handle-IsLater wipe_event now d =
      wiped_by-IsLater now d (clave.Volume.Disk.wipe x.keys x.sectors x.ciphers (gated d))
  handle-IsLater shutdown now d = same_mark d d refl refl

  -- Whatever events a daemon handles, its policy's version and its gateway's mark are afterwards what
  -- they were or later.
  pub run-IsLater :
      (events : List (DaemonEvent × UnixTime)) (d : Daemon T K B) → IsLater d (run x events d)
  unfolding run
  run-IsLater [] d = same_mark d d refl refl
  run-IsLater ((ev, now) ∷ rest) d =
      if_both (λ d'. IsLater d d') (is_shutdown ev) d (run x rest (handle x ev now d))
        (same_mark d d refl refl)
        (IsLater-IsLater d (handle x ev now d) (run x rest (handle x ev now d))
          (handle-IsLater ev now d) (run-IsLater rest (handle x ev now d)))

  verified-mark :
      (now : UnixTime) (d : Daemon T K B) (r : Result ProtoError GatewayCommand × GatewayVerifier)
      → r.1.high_water ≤ (verified x now d r).0.gateway.high_water
  verified-mark now d (err e, v) = omega arith
  verified-mark now d (ok command, v) = (obey-IsLater command now (record d { gateway = v })).mark

  verified_refuses :
      (now : UnixTime) (d : Daemon T K B) (r : Result ProtoError GatewayCommand × GatewayVerifier)
      → is_ok r.0 ≡ false
      → is_ok (verified x now d r).1 ≡ false
  verified_refuses now d (err e, v) h = refl
  verified_refuses now d (ok command, v) h = ground arith

  -- A command that the daemon's verifier accepts is rejected whenever it is offered again, whatever
  -- events the daemon handles in between.
  pub replay_rejected :
      (signed : SignedCommand) (now later : UnixTime) (events : List (DaemonEvent × UnixTime))
      (d : Daemon T K B)
      → is_ok (verify x.ed25519 x.envelopes d.gateway signed now).0 ≡ true
      → is_ok
          (apply_gateway_command x signed later
            (run x events (apply_gateway_command x signed now d).0)).1
        ≡ false
  unfolding apply_gateway_command
  replay_rejected signed now later events d h =
      let after = (apply_gateway_command x signed now d).0 in
      let last = run x events after in
      verified_refuses later last (verify x.ed25519 x.envelopes last.gateway signed later) (
        replayed_lem x.ed25519 x.envelopes d.gateway last.gateway signed now later h (
          omega (
            arith,
            verified-mark now d (verify x.ed25519 x.envelopes d.gateway signed now),
            (run-IsLater events after).mark,
          )))
