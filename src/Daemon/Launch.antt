-- ===== src/Daemon/Launch.antt =====
-- What `Daemon` does for shims and for the launcher. Spawning a process, the mount of the platform,
-- its user and its capabilities are parameters.
use clave.Prelude.{
  ℕ, ◌+◌, ◌%◌, ◌^◌, Bool, not, Option, none, some, List, [], ◌++◌, Text, codes, map, filter, Result,
  ok, err, map_err, if◌then◌else◌,
}
use clave.Platform.Types.{ProcId, Route}
use clave.Core.Zone.{launcher}
use clave.Core.App.{
  AppId, LaunchableApp, LaunchSpec, ResolvedLaunch, AppRule, resolve, label, is_launchable,
  launch_spec, app_rule,
}
use clave.Core.Web.{WebAppInfo, WebAppRule, web_label, web_is_launchable, web_rule, web_launch_spec}
use clave.Core.Net.{DnsDecision, DnsSteering, personal, decide_dns}
use clave.Core.Path.{PathClass}
use clave.Core.Policy.{UnixTime, is_blocked, dns_steering, OverlayPolicy}
use clave.Core.Overlay.{BorderCfg, bias}
use clave.Ipc.Message.{
  proto_version, ShimMsg, hello, request_decision, window_created, window_destroyed, heartbeat,
  DaemonMsg, decision,
}
use clave.Ipc.Launcher.{LauncherRequest, LauncherStatus, LauncherReply}
use clave.Volume.Disk.{is_unlocked}
use clave.Daemon.State.{Parts, Daemon, contain, call}
use clave.Daemon.Control.{
  on_zone_join, decide_action, on_work_window_created, on_work_window_destroyed, peek_audit,
}

pub data LaunchError : Type 0 where
  not_launchable : LaunchError
  spawn : (error : Text) → LaunchError

-- `Display` of `LaunchError`
abbrev pub launch_error_text : LaunchError → Text
launch_error_text not_launchable =
    codes "app is unknown, not launchable, or the Clave Disk is not mounted"
launch_error_text (spawn error) = codes "spawn failed: " ++ error

pub record LaunchedApp : Type 0 where
  pub pid : ℕ
  pub proc : ProcId

-- What the daemon asks of its platform and gets an answer to.
pub record Host : Type 0 where
  pub mount_point : Option Text
  pub user : Text
  pub route : ProcId → Bool → Route
  pub spawn : LaunchSpec → Result Text LaunchedApp
  pub has_containment : Bool
  pub caps : List (Text × Text)

-- The first of both options that is missing
abbrev for_rule : {A B : Type 0} → Option Text → Option A → (Text → A → B) → Option B
for_rule none rule f = none
for_rule (some mount) none f = none
for_rule (some mount) (some rule) f = some (f mount rule)

-- `OverlayPolicy::border_cfg`: the cast of a `u32` to an `i32` adds 2 ^ 31 in their numbers, modulo 2 ^ 32.
abbrev pub border_cfg : OverlayPolicy → BorderCfg
border_cfg o = record { thickness = (o.thickness + bias) % 2 ^ 32; color = o.color }

module _ {T K B : Type 0} (x : Parts T K B) (h : Host) where
  unfoldable pub resolve_launch : AppId → Daemon T K B → Option ResolvedLaunch
  unfolding app_rule resolve
  resolve_launch app_id d =
      for_rule h.mount_point (app_rule d.policy.apps app_id)
        (λ mount rule. resolve rule.launch app_id mount h.user)

  unfoldable pub classify_path : AppId → Text → Daemon T K B → Option PathClass
  unfolding app_rule clave.Core.Path.classify_path
  classify_path app_id path d =
      for_rule h.mount_point (app_rule d.policy.apps app_id) (λ mount rule.
        clave.Core.Path.classify_path path mount rule.launch.passthrough_paths d.policy.files)

  unfoldable pub launchable_apps : Daemon T K B → List LaunchableApp
  unfolding is_launchable label
  launchable_apps d =
      map (λ r. record { app_id = r.app_id; label = label r })
        (filter is_launchable d.policy.apps.allow)

  unfoldable pub spec_if : Text → Option AppRule → Option LaunchSpec
  unfolding is_launchable launch_spec
  spec_if mount none = none
  spec_if mount (some rule) =
      if not (is_launchable rule) then none else some (launch_spec rule mount h.user)

  unfoldable pub prepare_on : Option Text → AppId → Daemon T K B → Option LaunchSpec
  unfolding app_rule spec_if
  prepare_on none app_id d = none
  prepare_on (some mount) app_id d = spec_if mount (app_rule d.policy.apps app_id)

  unfoldable pub prepare_launch : AppId → Daemon T K B → Option LaunchSpec
  unfolding prepare_on
  prepare_launch app_id d = prepare_on h.mount_point app_id d

  unfoldable pub web_apps : Daemon T K B → List WebAppInfo
  unfolding web_is_launchable web_label
  web_apps d =
      if not (web_is_launchable d.policy.web)
      then []
      else map (λ r. record { app_id = r.id; label = web_label r; url = r.url }) d.policy.web.apps

  unfoldable pub web_spec_if : Text → Text → Option WebAppRule → Option LaunchSpec
  unfolding web_launch_spec
  web_spec_if browser mount none = none
  web_spec_if browser mount (some rule) = some (web_launch_spec rule browser mount h.user)

  unfoldable pub prepare_web_on : Option Text → AppId → Daemon T K B → Option LaunchSpec
  unfolding web_is_launchable web_rule web_spec_if
  prepare_web_on none app_id d = none
  prepare_web_on (some mount) app_id d =
      if not (web_is_launchable d.policy.web)
      then none
      else web_spec_if d.policy.web.browser mount (web_rule d.policy.web app_id)

  unfoldable pub prepare_web_launch : AppId → Daemon T K B → Option LaunchSpec
  unfolding prepare_web_on
  prepare_web_launch app_id d = prepare_web_on h.mount_point app_id d

  abbrev pub spawned : Option LaunchSpec → Result LaunchError LaunchedApp
  spawned none = err not_launchable
  spawned (some spec) = map_err spawn (h.spawn spec)

  unfoldable pub launched_by :
      Bool
      → UnixTime
      → Daemon T K B
      → Result LaunchError LaunchedApp
      → Daemon T K B × Result LaunchError LaunchedApp
  unfolding on_zone_join
  launched_by confine now d (err e) = (d, err e)
  launched_by confine now d (ok app) =
      let joined = on_zone_join x app.proc launcher now d in
      (if confine then call (contain app.pid) joined else joined, ok app)

  unfoldable pub launch :
      AppId → UnixTime → Daemon T K B → Daemon T K B × Result LaunchError LaunchedApp
  unfolding prepare_launch launched_by
  launch app_id now d = launched_by h.has_containment now d (spawned (prepare_launch app_id d))

  unfoldable pub launch_web :
      AppId → UnixTime → Daemon T K B → Daemon T K B × Result LaunchError LaunchedApp
  unfolding prepare_web_launch launched_by
  launch_web app_id now d = launched_by Bool.false now d (spawned (prepare_web_launch app_id d))

  unfoldable pub overlay_cfg : Daemon T K B → BorderCfg
  overlay_cfg d = border_cfg d.policy.overlay

  unfoldable pub route_flow : ProcId → Text → Daemon T K B → Route
  unfolding is_blocked
  route_flow proc host d = h.route proc (is_blocked d.policy.network host)

  abbrev dns_by : ProcId → Text → Daemon T K B → Option DnsSteering → DnsDecision
  unfolding decide_dns
  dns_by proc qname d none = personal
  dns_by proc qname d (some steering) = decide_dns proc qname d.zones steering

  unfoldable pub dns_decision : ProcId → Text → Daemon T K B → DnsDecision
  unfolding dns_steering dns_by
  dns_decision proc qname d = dns_by proc qname d (dns_steering d.policy.network)

  unfoldable pub handle_shim_msg :
      ShimMsg → UnixTime → Daemon T K B → Daemon T K B × Option DaemonMsg
  unfolding decide_action on_work_window_created on_work_window_destroyed
  handle_shim_msg (request_decision req_id action) now d =
      let (d, verdict) = decide_action x action now d in (d, some (decision req_id verdict))
  handle_shim_msg (window_created window) now d = (on_work_window_created x window d, none)
  handle_shim_msg (window_destroyed window) now d = (on_work_window_destroyed x window d, none)
  handle_shim_msg heartbeat now d = (d, none)
  handle_shim_msg (hello proto nonce) now d = (d, none)

  unfoldable pub launcher_status : Daemon T K B → LauncherStatus
  launcher_status d = record {
    tenant = d.gateway.tenant;
    policy_version = d.policy.version;
    volume_unlocked = is_unlocked d.volume;
    mount_point = h.mount_point;
    gateway_high_water = d.gateway.high_water;
  }

  abbrev pub launch_reply :
      Daemon T K B × Result LaunchError LaunchedApp → Daemon T K B × LauncherReply
  launch_reply (d, ok app) = (d, LauncherReply.launched (some app.pid))
  launch_reply (d, err e) = (d, LauncherReply.launch_failed (launch_error_text e))

  unfoldable pub handle_launcher_request :
      LauncherRequest → UnixTime → Daemon T K B → Daemon T K B × LauncherReply
  unfolding launchable_apps prepare_launch launch launcher_status web_apps launch_web peek_audit
  handle_launcher_request (LauncherRequest.hello proto) now d =
      (d, LauncherReply.welcome proto_version)
  handle_launcher_request LauncherRequest.list_apps now d =
      (d, LauncherReply.apps (launchable_apps d))
  handle_launcher_request (LauncherRequest.prepare_launch app_id) now d =
      (d, LauncherReply.launch_spec (prepare_launch app_id d))
  handle_launcher_request (LauncherRequest.launch app_id) now d = launch_reply (launch app_id now d)
  handle_launcher_request LauncherRequest.enforcement now d = (d, LauncherReply.enforcement h.caps)
  handle_launcher_request LauncherRequest.status now d =
      (d, LauncherReply.status (launcher_status d))
  handle_launcher_request LauncherRequest.list_web_apps now d =
      (d, LauncherReply.web_apps (web_apps d))
  handle_launcher_request (LauncherRequest.launch_web app_id) now d =
      launch_reply (launch_web app_id now d)
  handle_launcher_request LauncherRequest.peek_audit now d =
      (d, LauncherReply.audit (map (λ e. e.event) (peek_audit x d).0))
