-- ===== src/Daemon/Control.antt =====
-- The operations of `Daemon`.
use clave.Prelude.{
  ℕ, ◌-◌, nat_eq, ◌==◌, Bool, true, false, not, ◌&&◌, Option, none, some, List, [], ◌∷◌, ◌++◌,
  Bytes, Text, ltb, map_option, Result, ok, err, map_err, if◌then◌else◌,
}
use clave.Platform.Types.{ProcId, WindowId}
use clave.Core.Zone.{
  ZoneRegistry, JoinReason, allow_list, child, launcher, join, leave, is_supervised,
}
use clave.Core.App.{AppId, BinaryMatch, ExecVerdict, classify_exec}
use clave.Core.Policy.{UnixTime, PolicyBundle, is_blocked, dns_steering}
use clave.Core.Decide.{Action, Verdict, Reason, allow, is_allow, decide}
use clave.Core.Audit.{
  AuditAction, audit_action_eq, clipboard_blocked, file_save_denied, enclave_intrusion_blocked,
  network_blocked, screen_capture_over_work, input_tap_over_work, process_joined_zone,
  process_left_zone, volume_mounted, volume_unmounted, wiped,
}
use clave.Proto.Command.{GatewayCommand, SignedCommand, ProtoError}
use clave.Proto.Verify.{GatewayVerifier, verify}
use clave.Proto.Audit.{SpoolEntry, ChainHash, peek, confirm_through}
use clave.Volume.Types.{Fault}
use clave.Volume.Disk.{ClaveVolume}
use clave.Net.Router.{FlowId, FlowDisposition, Outbound}
use clave.Daemon.State.{
  Parts, track, untrack, protect_window, request_wipe, PolicyError, rollback, GatewayError,
  rejected, wrong_container, bad_policy, bad_volume, Daemon, gated, call, report,
}

abbrev pub audit_coalesce_secs : ℕ
audit_coalesce_secs = 2

abbrev pub is_intrusion : Reason → Bool
is_intrusion Reason.enclave_intrusion = true
is_intrusion _ = false

unfoldable pub audit_action_for : Action → Verdict → Option AuditAction
audit_action_for (Action.clipboard_transfer src dst fmt) verdict = some clipboard_blocked
audit_action_for (Action.file_open proc inside access) verdict =
    some (if is_intrusion verdict.reason then enclave_intrusion_blocked else file_save_denied)
audit_action_for (Action.net_connect proc host) verdict = some network_blocked
audit_action_for (Action.screen_capture proc exe) verdict = some screen_capture_over_work
audit_action_for (Action.input_tap proc exe) verdict = some input_tap_over_work

-- The test of `should_audit`: the last audited action is the same one, less than two seconds ago.
abbrev pub is_repeat : AuditAction → UnixTime → Option (AuditAction × UnixTime) → Bool
is_repeat action now none = false
is_repeat action now (some (prev, ts)) = prev == action && ltb (now - ts) audit_coalesce_secs

module _ {T K B : Type 0} (x : Parts T K B) where
  unfoldable pub on_zone_join : ProcId → JoinReason → UnixTime → Daemon T K B → Daemon T K B
  unfolding report join
  on_zone_join id reason now d =
      report x now process_joined_zone (allow Reason.default)
        (record d { zones = join id reason d.zones })

  unfoldable pub on_zone_leave : ProcId → UnixTime → Daemon T K B → Daemon T K B
  unfolding report leave
  on_zone_leave id now d =
      report x now process_left_zone (allow Reason.default) (record d { zones = leave id d.zones })

  abbrev pub join_reason : Option AppId → Option ProcId → JoinReason
  join_reason (some app) parent = allow_list
  join_reason none (some p) = child p
  join_reason none none = launcher

  abbrev pub parent_supervised : Option ProcId → ZoneRegistry → Bool
  parent_supervised none zones = false
  parent_supervised (some p) zones = is_supervised p zones

  unfoldable pub on_exec :
      ProcId
      → Option ProcId
      → BinaryMatch
      → Bool
      → UnixTime
      → Daemon T K B
      → Daemon T K B × ExecVerdict
  unfolding on_zone_join classify_exec is_supervised
  on_exec proc parent binary is_platform_binary now d =
      let verdict =
        classify_exec binary is_platform_binary (parent_supervised parent d.zones) d.policy.apps in
      if verdict.joins_zone
      then (on_zone_join proc (join_reason verdict.matched parent) now d, verdict)
      else (d, verdict)

  -- `should_audit`, and the report when it says so
  abbrev pub audited : Option AuditAction → Verdict → UnixTime → Daemon T K B → Daemon T K B
  audited none verdict now d = d
  audited (some a) verdict now d =
      if is_repeat a now d.last_audit
      then d
      else report x now a verdict (record d { last_audit = some (a, now) })

  unfoldable pub decide_action : Action → UnixTime → Daemon T K B → Daemon T K B × Verdict
  unfolding report decide is_allow audit_action_for
  decide_action action now d =
      let verdict = decide action d.zones d.policy now in
      if not (is_allow verdict)
      then (audited (audit_action_for action verdict) verdict now d, verdict)
      else (d, verdict)

  unfoldable pub on_work_window_created : WindowId → Daemon T K B → Daemon T K B
  on_work_window_created w d = call (protect_window w) (call (track w d.policy.overlay.color) d)

  unfoldable pub on_work_window_destroyed : WindowId → Daemon T K B → Daemon T K B
  on_work_window_destroyed w d = call (untrack w) d

  unfoldable pub open_flow : FlowId → ProcId → Text → Daemon T K B → Daemon T K B × FlowDisposition
  unfolding clave.Net.Router.open_flow is_blocked
  open_flow id proc host d =
      let (r, out) =
        clave.Net.Router.open_flow x.tunnel id proc d.zones (is_blocked d.policy.network host)
          d.router in
      (record d { router = r }, out)

  unfoldable pub open_dns_flow :
      FlowId → ProcId → Text → Daemon T K B → Daemon T K B × FlowDisposition
  unfolding clave.Net.Router.open_dns_flow dns_steering
  open_dns_flow id proc qname d =
      let (r, out) =
        clave.Net.Router.open_dns_flow x.tunnel id proc d.zones qname
          (dns_steering d.policy.network) d.router in
      (record d { router = r }, out)

  unfoldable pub flow_outbound : FlowId → Bytes → Daemon T K B → Daemon T K B × Outbound
  unfolding clave.Net.Router.outbound
  flow_outbound id ip_packet d =
      let (r, out) = clave.Net.Router.outbound x.tunnel id ip_packet d.router in
      (record d { router = r }, out)

  unfoldable pub update_policy :
      PolicyBundle → Daemon T K B → Daemon T K B × Result PolicyError (Unit {0})
  update_policy next d =
      if ltb next.version d.policy.version
      then (d, err (rollback d.policy.version next.version))
      else (
        record d { policy = next; observed = map_option (λ seen. seen ++ (next ∷ [])) d.observed },
        ok tt,
      )

  abbrev pub put_volume : ClaveVolume K B → Daemon T K B → Daemon T K B
  put_volume v d = record d { volume = v }

  abbrev pub unlocked :
      UnixTime
      → Daemon T K B
      → ClaveVolume K B × Result Fault (Unit {0})
      → Daemon T K B × Result Fault (Unit {0})
  unlocked now d (v, err e) = (put_volume v d, err e)
  unlocked now d (v, ok _) =
      (report x now volume_mounted (allow Reason.default) (put_volume v d), ok tt)

  unfoldable pub unlock_volume : UnixTime → Daemon T K B → Daemon T K B × Result Fault (Unit {0})
  unfolding clave.Volume.Disk.unlock report
  unlock_volume now d =
      unlocked now d (clave.Volume.Disk.unlock x.keys x.sectors x.ciphers (gated d))

  unfoldable pub lock_volume : UnixTime → Daemon T K B → Daemon T K B
  unfolding report
  lock_volume now d =
      report x now volume_unmounted (allow Reason.default)
        (put_volume (clave.Volume.Disk.lock (gated d)) d)

  unfoldable pub volume_read : ProcId → ℕ → Bytes → Daemon T K B → Bytes × Result Fault (Unit {0})
  unfolding clave.Volume.Disk.read
  volume_read caller first out d =
      clave.Volume.Disk.read x.keys x.sectors x.ciphers caller first out (gated d)

  unfoldable pub volume_write :
      ProcId → ℕ → Bytes → Daemon T K B → Daemon T K B × Result Fault (Unit {0})
  unfolding clave.Volume.Disk.write
  volume_write caller first bytes d =
      let (v, r) =
        clave.Volume.Disk.write x.keys x.sectors x.ciphers caller first bytes (gated d) in
      (put_volume v d, r)

  abbrev pub wiped_by :
      UnixTime
      → Daemon T K B
      → ClaveVolume K B × Result Fault (Unit {0})
      → Daemon T K B × Result Fault (Unit {0})
  wiped_by now d (v, err e) = (put_volume v d, err e)
  wiped_by now d (v, ok _) =
      (report x now wiped (allow Reason.default) (call request_wipe (put_volume v d)), ok tt)

  unfoldable pub wipe : UnixTime → Daemon T K B → Daemon T K B × Result Fault (Unit {0})
  unfolding clave.Volume.Disk.wipe report
  wipe now d = wiped_by now d (clave.Volume.Disk.wipe x.keys x.sectors x.ciphers (gated d))

  abbrev pub map_result :
      {E F A : Type 0} → (E → F) → Daemon T K B × Result E A → Daemon T K B × Result F A
  map_result f (d, r) = (d, map_err f r)

  abbrev pub obey :
      GatewayCommand → UnixTime → Daemon T K B → Daemon T K B × Result GatewayError (Unit {0})
  obey (GatewayCommand.update_policy bundle) now d = map_result bad_policy (update_policy bundle d)
  obey (GatewayCommand.lock reason) now d = (lock_volume now d, ok tt)
  obey (GatewayCommand.wipe container reason) now d =
      if not (container == d.volume.container)
      then (d, err wrong_container)
      else map_result bad_volume (wipe now d)

  abbrev pub verified :
      UnixTime
      → Daemon T K B
      → Result ProtoError GatewayCommand × GatewayVerifier
      → Daemon T K B × Result GatewayError (Unit {0})
  verified now d (err e, v) = (record d { gateway = v }, err (rejected e))
  verified now d (ok command, v) = obey command now (record d { gateway = v })

  unfoldable pub apply_gateway_command :
      SignedCommand → UnixTime → Daemon T K B → Daemon T K B × Result GatewayError (Unit {0})
  unfolding verify update_policy lock_volume wipe
  apply_gateway_command signed now d =
      verified now d (verify x.ed25519 x.envelopes d.gateway signed now)

  unfoldable pub peek_audit : Daemon T K B → List SpoolEntry × ChainHash
  unfolding peek
  peek_audit d = peek d.audit

  unfoldable pub confirm_audit : ℕ → Daemon T K B → Daemon T K B
  unfolding confirm_through
  confirm_audit through_seq d = record d { audit = confirm_through through_seq d.audit }
