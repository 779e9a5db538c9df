-- ===== src/Daemon/Laws/Launch.antt =====
-- What a launcher can make the daemon do.
use clave.Prelude.{
  ℕ, ◌≡◌, refl, arith, Bool, true, false, not, lookup-insert, Option, none, some, Text, Result, ok,
  err, map_err, if◌then◌else◌,
}
use mathlib.Core.Path.{subst}
use clave.Platform.Types.{ProcId}
use clave.Core.Zone.{ZoneRegistry, JoinReason, launcher, join, is_supervised}
use clave.Core.App.{AppId, LaunchSpec, AppRule, is_launchable, launch_spec, app_rule}
use clave.Core.Web.{WebAppRule, web_is_launchable, web_rule, web_launch_spec}
use clave.Core.Policy.{UnixTime}
use clave.Ipc.Launcher.{LauncherRequest, LauncherReply}
use clave.Daemon.State.{Parts, Daemon, report}
use clave.Daemon.Control.{on_zone_join}
use clave.Daemon.Launch.{
  Host, LaunchedApp, launch_error_text, spawn, spawned, launched_by, launch_reply, prepare_launch,
  prepare_on, spec_if, prepare_web_launch, prepare_web_on, web_spec_if, launch, launch_web,
  handle_launcher_request,
}

module _ {T K B : Type 0} (h : Host) (d : Daemon T K B) where
  -- What the policy lets a launcher start, on a disk that is mounted
  pub data Granted : LaunchSpec → Type 0 where
    native :
        (mount : Text) (app_id : AppId) (rule : AppRule)
        → h.mount_point ≡ some mount
        → app_rule d.policy.apps app_id ≡ some rule
        → is_launchable rule ≡ true
        → Granted (launch_spec rule mount h.user)
    web :
        (mount : Text) (app_id : AppId) (rule : WebAppRule)
        → h.mount_point ≡ some mount
        → web_rule d.policy.web app_id ≡ some rule
        → web_is_launchable d.policy.web ≡ true
        → Granted (web_launch_spec rule d.policy.web.browser mount h.user)

-- The pid that a reply tells
abbrev pub told_pid : LauncherReply → Option ℕ
told_pid (LauncherReply.launched pid) = pid
told_pid _ = none

module _ {T K B : Type 0} (x : Parts T K B) (h : Host) (d : Daemon T K B) where
  -- What a request asks the daemon to spawn
  abbrev pub asked_for : LauncherRequest → Option LaunchSpec
  unfolding prepare_launch prepare_web_launch
  asked_for (LauncherRequest.launch app_id) = prepare_launch x h app_id d
  asked_for (LauncherRequest.launch_web app_id) = prepare_web_launch x h app_id d
  asked_for _ = none

  -- Nothing is to be spawned and nothing changes; or what is to be spawned fails to, and nothing
  -- changes; or a process that the policy lets start is spawned, is in the zone and the reply tells
  -- its pid, with the policy, the volume, the router and the gateway's mark as before.
  pub data Served : LauncherRequest → Daemon T K B → LauncherReply → Type 0 where
    kept :
        (req : LauncherRequest) (reply : LauncherReply)
        → asked_for req ≡ none
        → told_pid reply ≡ none
        → Served req d reply
    failed :
        (req : LauncherRequest) (spec : LaunchSpec) (e : Text)
        → asked_for req ≡ some spec
        → h.spawn spec ≡ err e
        → Served req d (LauncherReply.launch_failed (launch_error_text (spawn e)))
    started :
        (req : LauncherRequest) (spec : LaunchSpec) (app : LaunchedApp) (d' : Daemon T K B)
        → asked_for req ≡ some spec
        → Granted h d spec
        → h.spawn spec ≡ ok app
        → is_supervised app.proc d'.zones ≡ true
        → d'.policy ≡ d.policy
        → d'.volume ≡ d.volume
        → d'.router ≡ d.router
        → d'.gateway ≡ d.gateway
        → Served req d' (LauncherReply.launched (some app.pid))

unless-some :
    {A : Type 0} (b : Bool) (o : Option A) (s : A)
    → (if not b then none else o) ≡ some s
    → (b ≡ true) × (o ≡ some s)
unless-some true o s e = (refl, e)
unless-some false o s e = cc

some_injective : {A : Type 0} (a s : A) → some a ≡ some s → a ≡ s
some_injective a s e = cc

join-is_supervised :
    (p : ProcId) (r : JoinReason) (z : ZoneRegistry) → is_supervised p (join p r z) ≡ true
unfolding is_supervised join
join-is_supervised p r z =
    rw (lookup-insert p p (record { id = p; reason = r }) z.members) (ground arith)

module _ {T K B : Type 0} (x : Parts T K B) (h : Host) where
  spec_if-Granted :
      (d : Daemon T K B) (mount : Text) (app_id : AppId) (r : Option AppRule) (spec : LaunchSpec)
      → h.mount_point ≡ some mount
      → app_rule d.policy.apps app_id ≡ r
      → spec_if x h mount r ≡ some spec
      → Granted h d spec
  unfolding spec_if
  spec_if-Granted d mount app_id none spec m a e = cc
  spec_if-Granted d mount app_id (some rule) spec m a e =
      let (l, same) =
        unless-some (is_launchable rule) (some (launch_spec rule mount h.user)) spec e in
      subst (Granted h d) (some_injective _ _ same) (native mount app_id rule m a l)

  prepare_on-Granted :
      (d : Daemon T K B) (o : Option Text) (app_id : AppId) (spec : LaunchSpec)
      → h.mount_point ≡ o
      → prepare_on x h o app_id d ≡ some spec
      → Granted h d spec
  unfolding prepare_on
  prepare_on-Granted d none app_id spec m e = cc
  prepare_on-Granted d (some mount) app_id spec m e =
      spec_if-Granted d mount app_id (app_rule d.policy.apps app_id) spec m refl e

  web_spec_if-Granted :
      (d : Daemon T K B) (mount : Text) (app_id : AppId) (r : Option WebAppRule) (spec : LaunchSpec)
      → h.mount_point ≡ some mount
      → web_is_launchable d.policy.web ≡ true
      → web_rule d.policy.web app_id ≡ r
      → web_spec_if x h d.policy.web.browser mount r ≡ some spec
      → Granted h d spec
  unfolding web_spec_if
  web_spec_if-Granted d mount app_id none spec m w a e = cc
  web_spec_if-Granted d mount app_id (some rule) spec m w a e =
      subst (Granted h d) (some_injective _ _ e) (web mount app_id rule m a w)

  prepare_web_on-Granted :
      (d : Daemon T K B) (o : Option Text) (app_id : AppId) (spec : LaunchSpec)
      → h.mount_point ≡ o
      → prepare_web_on x h o app_id d ≡ some spec
      → Granted h d spec
  unfolding prepare_web_on
  prepare_web_on-Granted d none app_id spec m e = cc
  prepare_web_on-Granted d (some mount) app_id spec m e =
      let (w, found) = unless-some (web_is_launchable d.policy.web) _ spec e in
      web_spec_if-Granted d mount app_id (web_rule d.policy.web app_id) spec m w refl found

module _ {T K B : Type 0} (x : Parts T K B) (h : Host) (now : UnixTime) (d : Daemon T K B) where
  launched_by-Served :
      (req : LauncherRequest) (confine : Bool) (spec : LaunchSpec) (r : Result Text LaunchedApp)
      → asked_for x h d req ≡ some spec
      → Granted h d spec
      → h.spawn spec ≡ r
      → Served x h d req
          (launch_reply x h (launched_by x h confine now d (map_err spawn r))).0
          (launch_reply x h (launched_by x h confine now d (map_err spawn r))).1
  unfolding launched_by on_zone_join report
  launched_by-Served req confine spec (err e) a g s = failed req spec e a s
  launched_by-Served req true spec (ok app) a g s =
      started req spec app _ a g s (join-is_supervised app.proc launcher d.zones) refl refl refl
        refl
  launched_by-Served req false spec (ok app) a g s =
      started req spec app _ a g s (join-is_supervised app.proc launcher d.zones) refl refl refl
        refl

  spawned-Served :
      (req : LauncherRequest) (confine : Bool) (o : Option LaunchSpec)
      → asked_for x h d req ≡ o
      → ((spec : LaunchSpec) → o ≡ some spec → Granted h d spec)
      → Served x h d req
          (launch_reply x h (launched_by x h confine now d (spawned x h o))).0
          (launch_reply x h (launched_by x h confine now d (spawned x h o))).1
  unfolding launched_by
  spawned-Served req confine none a g = kept req _ a refl
  spawned-Served req confine (some spec) a g =
      launched_by-Served req confine spec (h.spawn spec) a (g spec refl) refl

  -- A request of the launcher asks for nothing to be spawned, or the spawning fails: then the daemon
  -- is as before, and the reply tells no pid. Or it starts an app or a web app that the policy lets
  -- start, on a mounted disk: then the spawned process is in the zone, the reply tells its pid, and
  -- the policy, the volume, the router and the gateway's mark are as before.
  pub handle_launcher_request-Served :
      (req : LauncherRequest)
      → Served x h d req
          (handle_launcher_request x h req now d).0
          (handle_launcher_request x h req now d).1
  unfolding handle_launcher_request launch launch_web prepare_launch prepare_web_launch
  handle_launcher_request-Served (LauncherRequest.hello proto) = kept _ _ refl refl
  handle_launcher_request-Served LauncherRequest.list_apps = kept _ _ refl refl
  handle_launcher_request-Served (LauncherRequest.prepare_launch app_id) = kept _ _ refl refl
  handle_launcher_request-Served (LauncherRequest.launch app_id) =
      spawned-Served (LauncherRequest.launch app_id) h.has_containment
        (prepare_on x h h.mount_point app_id d) refl
        (λ spec e. prepare_on-Granted x h d h.mount_point app_id spec refl e)
  handle_launcher_request-Served LauncherRequest.enforcement = kept _ _ refl refl
  handle_launcher_request-Served LauncherRequest.status = kept _ _ refl refl
  handle_launcher_request-Served LauncherRequest.list_web_apps = kept _ _ refl refl
  handle_launcher_request-Served (LauncherRequest.launch_web app_id) =
      spawned-Served (LauncherRequest.launch_web app_id) false
        (prepare_web_on x h h.mount_point app_id d) refl
        (λ spec e. prepare_web_on-Granted x h d h.mount_point app_id spec refl e)
  handle_launcher_request-Served LauncherRequest.peek_audit = kept _ _ refl refl
