-- ===== src/Daemon/Laws/Wipe.antt =====
-- A wiped daemon stays wiped.
use clave.Prelude.{
  nat_eq, ◌==◌, ◌≡◌, refl, arith, ap, ◌∙◌, false, not, List, [], ◌∷◌, Result, ok, err, is_some,
  if_both,
}
use clave.Core.Policy.{UnixTime}
use clave.Core.Decide.{Action}
use clave.Proto.Command.{GatewayCommand, ProtoError}
use clave.Proto.Verify.{GatewayVerifier, verify}
use clave.Volume.Types.{Fault, volume_error, wipe_marker_set}
use clave.Volume.Disk.{ClaveVolume, is_unlocked}
use clave.Volume.Disk.Laws.{
  IsKeyStore, IsBackingStore, IsDead, step-IsDead, unlock_op, wipe_op, wiped-IsDead, unlock_dead,
}
use clave.Daemon.State.{Parts, Daemon, wrong_container, bad_volume, report, gated}
use clave.Daemon.Control.{
  audit_action_for, decide_action, update_policy, on_zone_join, on_zone_leave,
  on_work_window_created, on_work_window_destroyed, unlocked, unlock_volume, lock_volume, wiped_by,
  wipe, obey, map_result, verified, apply_gateway_command,
}
use clave.Daemon.Loop.{
  DaemonEvent, zone_join, zone_leave, work_window_created, work_window_destroyed, decision,
  policy_update, volume_unlock, volume_lock, gateway_control, wipe_event, shutdown, is_shutdown,
  handle, run,
}

module _ {T K B : Type 0} (x : Parts T K B) (marks : IsBackingStore x.sectors) where
  -- The daemon's volume is wiped and locked.
  abbrev pub IsWiped : Daemon T K B → Type 0
  IsWiped d = IsDead x.keys x.sectors x.ciphers d.volume

  unlocked-IsWiped :
      (now : UnixTime) (d : Daemon T K B) (r : ClaveVolume K B × Result Fault (Unit {0}))
      → IsDead x.keys x.sectors x.ciphers r.0
      → IsWiped (unlocked x now d r).0
  unfolding report
  unlocked-IsWiped now d (v, err e) dead = dead
  unlocked-IsWiped now d (v, ok u) dead = dead

  wiped_by-IsWiped :
      (now : UnixTime) (d : Daemon T K B) (r : ClaveVolume K B × Result Fault (Unit {0}))
      → IsDead x.keys x.sectors x.ciphers r.0
      → IsWiped (wiped_by x now d r).0
  unfolding report
  wiped_by-IsWiped now d (v, err e) dead = dead
  wiped_by-IsWiped now d (v, ok u) dead = dead

  unlock_volume-IsWiped :
      (now : UnixTime) (d : Daemon T K B) → IsWiped d → IsWiped (unlock_volume x now d).0
  unfolding unlock_volume clave.Volume.Disk.Laws.step
  unlock_volume-IsWiped now d dead =
      unlocked-IsWiped now d (clave.Volume.Disk.unlock x.keys x.sectors x.ciphers (gated d))
        (step-IsDead x.keys x.sectors x.ciphers marks unlock_op (gated d) dead)

  wipe-IsWiped : (now : UnixTime) (d : Daemon T K B) → IsWiped d → IsWiped (wipe x now d).0
  unfolding wipe clave.Volume.Disk.Laws.step
  wipe-IsWiped now d dead =
      wiped_by-IsWiped now d (clave.Volume.Disk.wipe x.keys x.sectors x.ciphers (gated d))
        (step-IsDead x.keys x.sectors x.ciphers marks wipe_op (gated d) dead)

  decide_action-volume :
      (action : Action) (now : UnixTime) (d : Daemon T K B)
      → (decide_action x action now d).0.volume ≡ d.volume
  unfolding decide_action report audit_action_for
  decide_action-volume action now d = ground arith

  update_policy-volume :
      (next : clave.Core.Policy.PolicyBundle) (d : Daemon T K B)
      → (update_policy x next d).0.volume ≡ d.volume
  unfolding update_policy
  update_policy-volume next d = ground arith

  moved : (d d' : Daemon T K B) → d'.volume ≡ d.volume → IsWiped d → IsWiped d'
  moved d d' e dead =
      (ap (λ v. x.sectors.is_wiped v.backing) e ∙ dead.0, ap (λ v. v.cipher) e ∙ dead.1)

  obey-IsWiped :
      (command : GatewayCommand) (now : UnixTime) (d : Daemon T K B)
      → IsWiped d
      → IsWiped (obey x command now d).0
  unfolding lock_volume report
  obey-IsWiped (GatewayCommand.update_policy bundle) now d dead =
      moved d (update_policy x bundle d).0 (update_policy-volume bundle d) dead
  obey-IsWiped (GatewayCommand.lock reason) now d dead = (dead.0, refl)
  obey-IsWiped (GatewayCommand.wipe container reason) now d dead =
      if_both (λ p. IsWiped p.0) (not (container == d.volume.container)) (d, err wrong_container)
        (map_result x bad_volume (wipe x now d)) dead (wipe-IsWiped now d dead)

  verified-IsWiped :
      (now : UnixTime) (d : Daemon T K B) (r : Result ProtoError GatewayCommand × GatewayVerifier)
      → IsWiped d
      → IsWiped (verified x now d r).0
  verified-IsWiped now d (err e, v) dead = dead
  verified-IsWiped now d (ok command, v) dead =
      obey-IsWiped command now (record d { gateway = v }) dead

  handle-IsWiped :
      (ev : DaemonEvent) (now : UnixTime) (d : Daemon T K B)
      → IsWiped d
      → IsWiped (handle x ev now d)
  unfolding handle on_zone_join on_zone_leave on_work_window_created on_work_window_destroyed
      lock_volume apply_gateway_command report
  handle-IsWiped (zone_join id reason) now d dead = dead
  handle-IsWiped (zone_leave id) now d dead = dead
  handle-IsWiped (work_window_created w) now d dead = dead
  handle-IsWiped (work_window_destroyed w) now d dead = dead
  handle-IsWiped (decision action) now d dead =
      moved d (decide_action x action now d).0 (decide_action-volume action now d) dead
  handle-IsWiped (policy_update next) now d dead =
      moved d (update_policy x next d).0 (update_policy-volume next d) dead
  handle-IsWiped volume_unlock now d dead = unlock_volume-IsWiped now d dead
  handle-IsWiped volume_lock now d dead = (dead.0, refl)
  handle-IsWiped (gateway_control signed) now d dead =
      verified-IsWiped now d (verify x.ed25519 x.envelopes d.gateway signed now) dead
  handle-IsWiped wipe_event now d dead = wipe-IsWiped now d dead
  handle-IsWiped shutdown now d dead = dead

  run-IsWiped :
      (events : List (DaemonEvent × UnixTime)) (d : Daemon T K B)
      → IsWiped d
      → IsWiped (run x events d)
  unfolding run
  run-IsWiped [] d dead = dead
  run-IsWiped ((ev, now) ∷ rest) d dead =
      if_both IsWiped (is_shutdown ev) d (run x rest (handle x ev now d)) dead
        (run-IsWiped rest (handle x ev now d) (handle-IsWiped ev now d dead))

  wiped_by_ok :
      (now : UnixTime) (d : Daemon T K B) (r : ClaveVolume K B × Result Fault (Unit {0}))
      → (wiped_by x now d r).1 ≡ ok tt
      → (r.1 ≡ ok tt) × ((wiped_by x now d r).0.volume ≡ r.0)
  unfolding report
  wiped_by_ok now d (v, err e) h = ground arith
  wiped_by_ok now d (v, ok u) h = (refl, refl)

  moved_to :
      (v : ClaveVolume K B) (d : Daemon T K B)
      → d.volume ≡ v
      → IsDead x.keys x.sectors x.ciphers v
      → IsWiped d
  moved_to v d e dead =
      (ap (λ w. x.sectors.is_wiped w.backing) e ∙ dead.0, ap (λ w. w.cipher) e ∙ dead.1)

  unlock_fails :
      (now : UnixTime) (d : Daemon T K B)
      → IsWiped d
      → (unlock_volume x now d).1 ≡ err (volume_error wipe_marker_set)
  unfolding unlock_volume
  unlock_fails now d dead =
      ap (λ r. (unlocked x now d r).1) (unlock_dead x.keys x.sectors x.ciphers marks (gated d) dead)

  -- Over a backing store whose wipe marker lasts: once the daemon's wipe has succeeded, its volume stays
  -- locked and cannot be unlocked, whatever events the daemon handles afterwards.
  pub wipe_lasts :
      (now later : UnixTime) (events : List (DaemonEvent × UnixTime)) (d : Daemon T K B)
      → (wipe x now d).1 ≡ ok tt
      → (is_unlocked (run x events (wipe x now d).0).volume ≡ false)
        × ((unlock_volume x later (run x events (wipe x now d).0)).1
            ≡ err (volume_error wipe_marker_set))
  unfolding wipe
  wipe_lasts now later events d h =
      let v = clave.Volume.Disk.wipe x.keys x.sectors x.ciphers (gated d) in
      let (done, kept) = wiped_by_ok now d v h in
      let dead =
        moved_to v.0 (wiped_by x now d v).0 kept
          (wiped-IsDead x.keys x.sectors x.ciphers marks (gated d) done) in
      let last = run-IsWiped events (wipe x now d).0 dead in
      (ap is_some last.1, unlock_fails later (run x events (wipe x now d).0) last)
