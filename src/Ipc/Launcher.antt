-- ===== src/Ipc/Launcher.antt =====
-- crates/clave-ipc/src/lib.rs and transport.rs: the messages of the launcher, and its client.
use clave.Prelude.{
  ℕ, nat_eq, ◌==◌, Bool, Option, none, some, List, Text, codes, Result, ok, err, if◌then◌else◌,
}
use clave.Core.App.{AppId, LaunchableApp, LaunchSpec}
use clave.Core.Web.{WebAppInfo}
use clave.Core.Audit.{AuditEvent}
use clave.Proto.External.{Postcard}
use clave.Ipc.Message.{proto_version}
use clave.Ipc.Connection.{Connection, TransportError, handshake, truncated, read, write}

pub data LauncherRequest : Type 0 where
  hello : (proto : ℕ) → LauncherRequest
  list_apps enforcement status list_web_apps peek_audit : LauncherRequest
  prepare_launch launch launch_web : (app_id : AppId) → LauncherRequest

pub record LauncherStatus : Type 0 where
  pub tenant : ℕ
  pub policy_version : ℕ
  pub volume_unlocked : Bool
  pub mount_point : Option Text
  pub gateway_high_water : ℕ

pub data LauncherReply : Type 0 where
  welcome : (proto : ℕ) → LauncherReply
  apps : (apps : List LaunchableApp) → LauncherReply
  launch_spec : (spec : Option LaunchSpec) → LauncherReply
  launched : (pid : Option ℕ) → LauncherReply
  launch_failed : (error : Text) → LauncherReply
  enforcement : (caps : List (Text × Text)) → LauncherReply
  status : (status : LauncherStatus) → LauncherReply
  web_apps : (apps : List WebAppInfo) → LauncherReply
  audit : (events : List AuditEvent) → LauncherReply

-- What a reply is to be read as, or the error
abbrev pub unexpected : {A : Type 0} → Text → Result TransportError A
unexpected what = err (handshake what)

abbrev pub as_apps : LauncherReply → Result TransportError (List LaunchableApp)
as_apps (LauncherReply.apps found) = ok found
as_apps _ = unexpected (codes "expected Apps")

abbrev pub as_launch_spec : LauncherReply → Result TransportError (Option LaunchSpec)
as_launch_spec (LauncherReply.launch_spec spec) = ok spec
as_launch_spec _ = unexpected (codes "expected LaunchSpec")

abbrev pub as_launched : LauncherReply → Result TransportError (Option ℕ)
as_launched (LauncherReply.launched pid) = ok pid
as_launched (LauncherReply.launch_failed error) = err (TransportError.launch_failed error)
as_launched _ = unexpected (codes "expected Launched")

abbrev pub as_enforcement : LauncherReply → Result TransportError (List (Text × Text))
as_enforcement (LauncherReply.enforcement caps) = ok caps
as_enforcement _ = unexpected (codes "expected Enforcement")

abbrev pub as_status : LauncherReply → Result TransportError LauncherStatus
as_status (LauncherReply.status s) = ok s
as_status _ = unexpected (codes "expected Status")

abbrev pub as_web_apps : LauncherReply → Result TransportError (List WebAppInfo)
as_web_apps (LauncherReply.web_apps found) = ok found
as_web_apps _ = unexpected (codes "expected WebApps")

abbrev pub as_audit : LauncherReply → Result TransportError (List AuditEvent)
as_audit (LauncherReply.audit events) = ok events
as_audit _ = unexpected (codes "expected Audit")

abbrev pub as_welcome : LauncherReply → Result TransportError (Unit {0})
as_welcome (LauncherReply.welcome proto) =
    if proto == proto_version then ok tt else unexpected (codes "protocol version mismatch")
as_welcome _ = unexpected (codes "expected Welcome")

module _ (requests : Postcard LauncherRequest) (replies : Postcard LauncherReply) where
  abbrev answer_by :
      {A : Type 0}
      → (LauncherReply → Result TransportError A)
      → Connection × Result TransportError (Option LauncherReply)
      → Connection × Result TransportError A
  answer_by reading (c, err e) = (c, err e)
  answer_by reading (c, ok none) = (c, err truncated)
  answer_by reading (c, ok (some reply)) = (c, reading reply)

  abbrev after_request :
      {A : Type 0}
      → (LauncherReply → Result TransportError A)
      → Connection × Result TransportError (Unit {0})
      → Connection × Result TransportError A
  after_request reading (c, err e) = (c, err e)
  after_request reading (c, ok _) = answer_by reading (read replies c)

  -- A request is written and a reply read.
  unfoldable pub ask :
      {A : Type 0}
      → (LauncherReply → Result TransportError A)
      → LauncherRequest
      → Connection
      → Connection × Result TransportError A
  unfolding read write
  ask reading request c = after_request reading (write requests request c)

  -- `LauncherClient::connect`, on a stream that is open
  unfoldable pub connect : Connection → Connection × Result TransportError (Unit {0})
  unfolding ask
  connect c = ask as_welcome (LauncherRequest.hello proto_version) c
