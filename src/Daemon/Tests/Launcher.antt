-- ===== src/Daemon/Tests/Launcher.antt =====
-- A launcher that starts the one app of the policy.
use clave.Prelude.{◌≡◌, refl, true, some, [], ◌∷◌, ok, codes, list_beq}
use clave.Platform.Types.{windows, direct}
use clave.Core.App.{AppRule, BinaryMatch, new_rule}
use clave.Ipc.Launcher.{LauncherRequest, LauncherReply}
use clave.Net.Loopback.{LoopbackTunnel}
use clave.Volume.Keys.{MemKeyStore}
use clave.Volume.Container.{MemBacking}
use clave.Daemon.State.{Daemon}
use clave.Daemon.Launch.{Host, handle_launcher_request}
use clave.Daemon.Laws.Launch.{Served, handle_launcher_request-Served}
use clave.Daemon.Tests.{parts, daemon}

abbrev editor : AppRule
editor = record (new_rule (codes "editor") (BinaryMatch.windows (codes "Acme") (codes "Editor"))) {
  executable = codes "editor.exe";
}

abbrev host : Host
host = record {
  mount_point = some (codes "X:");
  user = codes "alice";
  route = λ proc blocked. direct;
  spawn = λ spec. ok (record { pid = 42; proc = windows 42 1 });
  has_containment = true;
  caps = [];
}

abbrev with_editor : Daemon LoopbackTunnel MemKeyStore MemBacking
with_editor = record daemon {
  policy = record daemon.policy { apps = record { allow = editor ∷ [] } };
}

handle_launcher_request-Served_example :
    let served =
      handle_launcher_request parts host
        (LauncherRequest.launch (codes "editor"))
        1000
        with_editor in
    Served parts host with_editor (LauncherRequest.launch (codes "editor")) served.0 served.1
handle_launcher_request-Served_example =
    handle_launcher_request-Served parts host 1000 with_editor
      (LauncherRequest.launch (codes "editor"))

launch_is_granted :
    (handle_launcher_request parts host
      (LauncherRequest.launch (codes "editor"))
      1000
      with_editor).1
    ≡ LauncherReply.launched (some 42)
unfolding handle_launcher_request list_beq
launch_is_granted = refl
