-- ===== src/Daemon/Laws/Outside.antt =====
-- A process outside the zone stays outside the volume, whatever else happens to the daemon.
use clave.Prelude.{
  ℕ, ◌≡◌, refl, arith, ap, ◌∙◌, Bool, false, not, List, [], ◌∷◌, Bytes, nat_eq, Result, ok, err,
  if_both, ◌==◌, lookup-insert, lookup-remove, All,
}
use clave.Platform.Types.{ProcId, proc_eq}
use clave.Core.Zone.{ZoneRegistry, JoinReason, join, leave, is_supervised}
use clave.Core.Policy.{UnixTime}
use clave.Core.Decide.{Action}
use clave.Proto.Command.{GatewayCommand, ProtoError}
use clave.Proto.Verify.{GatewayVerifier, verify}
use clave.Volume.Types.{Fault, volume_error, access_denied}
use clave.Volume.Disk.{ClaveVolume}
use clave.Volume.Disk.Laws.{outsider_denied}
use clave.Daemon.State.{Parts, Daemon, GatewayError, wrong_container, bad_volume, gated, report}
use clave.Daemon.Control.{
  audit_action_for, decide_action, update_policy, on_zone_join, on_zone_leave,
  on_work_window_created, on_work_window_destroyed, unlocked, unlock_volume, lock_volume, wiped_by,
  wipe, obey, map_result, verified, apply_gateway_command, volume_read, volume_write,
}
use clave.Daemon.Loop.{
  DaemonEvent, zone_join, zone_leave, work_window_created, work_window_destroyed, decision,
  policy_update, volume_unlock, volume_lock, gateway_control, wipe_event, shutdown, is_shutdown,
  handle, run,
}

-- The event makes this process join the zone.
abbrev pub joins : ProcId → DaemonEvent → Bool
joins p (zone_join id reason) = id == p
joins p _ = false

join-outside :
    (p id : ProcId) (reason : JoinReason) (z : ZoneRegistry)
    → (id == p) ≡ false
    → is_supervised p z ≡ false
    → is_supervised p (join id reason z) ≡ false
unfolding is_supervised join
join-outside p id reason z other h =
    rw (lookup-insert id p (record { id = id; reason = reason }) z.members, other) h

leave-outside :
    (p id : ProcId) (z : ZoneRegistry)
    → is_supervised p z ≡ false
    → is_supervised p (leave id z) ≡ false
unfolding is_supervised leave
leave-outside p id z h = ground (arith, lookup-remove id p z.members)

module _ {T K B : Type 0} (x : Parts T K B) where
  -- What the daemon does with its volume, its policy and its audit leaves the zone as it is.
  decide_action-zones :
      (action : Action) (now : UnixTime) (d : Daemon T K B)
      → (decide_action x action now d).0.zones ≡ d.zones
  unfolding decide_action report audit_action_for
  decide_action-zones action now d = ground arith

  update_policy-zones :
      (next : clave.Core.Policy.PolicyBundle) (d : Daemon T K B)
      → (update_policy x next d).0.zones ≡ d.zones
  unfolding update_policy
  update_policy-zones next d = ground arith

  unlocked-zones :
      (now : UnixTime) (d : Daemon T K B) (r : ClaveVolume K B × Result Fault (Unit {0}))
      → (unlocked x now d r).0.zones ≡ d.zones
  unfolding report
  unlocked-zones now d (v, err e) = refl
  unlocked-zones now d (v, ok u) = refl

  wiped_by-zones :
      (now : UnixTime) (d : Daemon T K B) (r : ClaveVolume K B × Result Fault (Unit {0}))
      → (wiped_by x now d r).0.zones ≡ d.zones
  unfolding report
  wiped_by-zones now d (v, err e) = refl
  wiped_by-zones now d (v, ok u) = refl

  obey-zones :
      (command : GatewayCommand) (now : UnixTime) (d : Daemon T K B)
      → (obey x command now d).0.zones ≡ d.zones
  unfolding lock_volume wipe report
  obey-zones (GatewayCommand.update_policy bundle) now d = update_policy-zones bundle d
  obey-zones (GatewayCommand.lock reason) now d = refl
  obey-zones (GatewayCommand.wipe container reason) now d =
      if_both (λ (p : Daemon T K B × Result GatewayError (Unit {0})). p.0.zones ≡ d.zones)
        (not (container == d.volume.container)) (d, err wrong_container)
        (map_result x bad_volume (wipe x now d)) refl
        (wiped_by-zones now d (clave.Volume.Disk.wipe x.keys x.sectors x.ciphers (gated d)))

  verified-zones :
      (now : UnixTime) (d : Daemon T K B) (r : Result ProtoError GatewayCommand × GatewayVerifier)
      → (verified x now d r).0.zones ≡ d.zones
  verified-zones now d (err e, v) = refl
  verified-zones now d (ok command, v) = obey-zones command now (record d { gateway = v })

  abbrev IsOutside : ProcId → Daemon T K B → Type 0
  IsOutside p d = is_supervised p d.zones ≡ false

  stays-IsOutside :
      (p : ProcId) (d d' : Daemon T K B) → d'.zones ≡ d.zones → IsOutside p d → IsOutside p d'
  stays-IsOutside p d d' same h = ap (λ z. is_supervised p z) same ∙ h

  handle-IsOutside :
      (p : ProcId) (ev : DaemonEvent) (now : UnixTime) (d : Daemon T K B)
      → joins p ev ≡ false
      → IsOutside p d
      → IsOutside p (handle x ev now d)
  unfolding handle on_zone_join on_zone_leave on_work_window_created on_work_window_destroyed
      unlock_volume lock_volume wipe apply_gateway_command report
  handle-IsOutside p (zone_join id reason) now d other h = join-outside p id reason d.zones other h
  handle-IsOutside p (zone_leave id) now d other h = leave-outside p id d.zones h
  handle-IsOutside p (work_window_created w) now d other h = h
  handle-IsOutside p (work_window_destroyed w) now d other h = h
  handle-IsOutside p (decision action) now d other h =
      stays-IsOutside p d (decide_action x action now d).0 (decide_action-zones action now d) h
  handle-IsOutside p (policy_update next) now d other h =
      stays-IsOutside p d (update_policy x next d).0 (update_policy-zones next d) h
  handle-IsOutside p volume_unlock now d other h =
      stays-IsOutside p d (unlock_volume x now d).0
        (unlocked-zones now d (clave.Volume.Disk.unlock x.keys x.sectors x.ciphers (gated d))) h
  handle-IsOutside p volume_lock now d other h = h
  handle-IsOutside p (gateway_control signed) now d other h =
      stays-IsOutside p d (apply_gateway_command x signed now d).0
        (verified-zones now d (verify x.ed25519 x.envelopes d.gateway signed now)) h
  handle-IsOutside p wipe_event now d other h =
      stays-IsOutside p d (wipe x now d).0
        (wiped_by-zones now d (clave.Volume.Disk.wipe x.keys x.sectors x.ciphers (gated d))) h
  handle-IsOutside p shutdown now d other h = h

  run-IsOutside :
      (p : ProcId) (events : List (DaemonEvent × UnixTime)) (d : Daemon T K B)
      → All (λ (e : DaemonEvent × UnixTime). joins p e.0 ≡ false) events
      → IsOutside p d
      → IsOutside p (run x events d)
  unfolding run
  run-IsOutside p [] d others h = h
  run-IsOutside p ((ev, now) ∷ rest) d (other, others) h =
      if_both (IsOutside p) (is_shutdown ev) d (run x rest (handle x ev now d)) h
        (run-IsOutside p rest (handle x ev now d) others (handle-IsOutside p ev now d other h))

  -- A process that is outside the zone, and that no event makes join, can neither read nor write the
  -- volume, whatever the events do, unlocking included: it is denied access, its buffer stays as it
  -- was, and so do the sectors.
  pub run-outsider_denied :
      (p : ProcId) (events : List (DaemonEvent × UnixTime)) (d : Daemon T K B) (first : ℕ)
      (buf : Bytes)
      → is_supervised p d.zones ≡ false
      → All (λ (e : DaemonEvent × UnixTime). joins p e.0 ≡ false) events
      → (volume_read x p first buf (run x events d) ≡ (buf, err (volume_error access_denied)))
        × ((volume_write x p first buf (run x events d)).1 ≡ err (volume_error access_denied))
        × ((volume_write x p first buf (run x events d)).0.volume.backing
            ≡ (run x events d).volume.backing)
  unfolding volume_read volume_write
  run-outsider_denied p events d first buf outside others =
      let d' = run x events d in
      let (read, written) =
        outsider_denied x.keys x.sectors x.ciphers p first buf (gated d')
          (run-IsOutside p events d others outside) in
      (
        read,
        ap (λ (w : ClaveVolume K B × Result Fault (Unit {0})). w.1) written,
        ap (λ (w : ClaveVolume K B × Result Fault (Unit {0})). w.0.backing) written,
      )
