-- ===== src/Ipc/LauncherClient.antt =====
-- crates/clave-ipc/src/transport.rs: the requests of `LauncherClient`.
use clave.Prelude.{ℕ, Option, List, Text, Result}
use clave.Core.App.{AppId, LaunchableApp, LaunchSpec}
use clave.Core.Web.{WebAppInfo}
use clave.Core.Audit.{AuditEvent}
use clave.Proto.External.{Postcard}
use clave.Ipc.Connection.{Connection, TransportError}
use clave.Ipc.Launcher.{
  LauncherRequest, LauncherStatus, LauncherReply, as_apps, as_launch_spec, as_launched,
  as_enforcement, as_status, as_web_apps, as_audit, ask,
}

module _ (requests : Postcard LauncherRequest) (replies : Postcard LauncherReply) where
  unfoldable pub list_apps : Connection → Connection × Result TransportError (List LaunchableApp)
  unfolding ask
  list_apps c = ask requests replies as_apps LauncherRequest.list_apps c

  unfoldable pub prepare_launch :
      AppId → Connection → Connection × Result TransportError (Option LaunchSpec)
  unfolding ask
  prepare_launch app_id c =
      ask requests replies as_launch_spec (LauncherRequest.prepare_launch app_id) c

  unfoldable pub launch : AppId → Connection → Connection × Result TransportError (Option ℕ)
  unfolding ask
  launch app_id c = ask requests replies as_launched (LauncherRequest.launch app_id) c

  unfoldable pub enforcement : Connection → Connection × Result TransportError (List (Text × Text))
  unfolding ask
  enforcement c = ask requests replies as_enforcement LauncherRequest.enforcement c

  unfoldable pub status : Connection → Connection × Result TransportError LauncherStatus
  unfolding ask
  status c = ask requests replies as_status LauncherRequest.status c

  unfoldable pub list_web_apps : Connection → Connection × Result TransportError (List WebAppInfo)
  unfolding ask
  list_web_apps c = ask requests replies as_web_apps LauncherRequest.list_web_apps c

  unfoldable pub launch_web : AppId → Connection → Connection × Result TransportError (Option ℕ)
  unfolding ask
  launch_web app_id c = ask requests replies as_launched (LauncherRequest.launch_web app_id) c

  unfoldable pub peek_audit : Connection → Connection × Result TransportError (List AuditEvent)
  unfolding ask
  peek_audit c = ask requests replies as_audit LauncherRequest.peek_audit c
