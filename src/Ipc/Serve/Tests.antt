-- ===== src/Ipc/Serve/Tests.antt =====
-- A launcher's session with a server that counts its requests.
use clave.Prelude.{
  ℕ, zero, suc, ◌+◌, ◌≡◌, refl, arith, Option, none, some, List, [], ◌∷◌, Bytes, Result, ok,
  to_le_bytes,
}
use clave.Proto.External.{Postcard, IsCodec}
use clave.Ipc.Frame.{encode}
use clave.Ipc.Message.{proto_version, ShimMsg, hello, DaemonMsg, welcome}
use clave.Ipc.Connection.{Connection, TransportError}
use clave.Ipc.Launcher.{LauncherRequest, LauncherReply}
use clave.Ipc.Serve.{serve, serve_launcher}
use clave.Ipc.Serve.Ends.{servers_end}
use clave.Ipc.Serve.Runs.{on_stream, reply_bytes, serve_launcher-run_all}

abbrev request_bytes : LauncherRequest → Bytes
request_bytes (LauncherRequest.hello proto) = 0 ∷ proto ∷ []
request_bytes LauncherRequest.list_apps = 1 ∷ []
request_bytes (LauncherRequest.prepare_launch app_id) = 2 ∷ app_id
request_bytes (LauncherRequest.launch app_id) = 3 ∷ app_id
request_bytes LauncherRequest.enforcement = 4 ∷ []
request_bytes LauncherRequest.status = 5 ∷ []
request_bytes LauncherRequest.list_web_apps = 6 ∷ []
request_bytes (LauncherRequest.launch_web app_id) = 7 ∷ app_id
request_bytes LauncherRequest.peek_audit = 8 ∷ []

abbrev request_of : Bytes → Option LauncherRequest
request_of (zero ∷ proto ∷ []) = some (LauncherRequest.hello proto)
request_of ((suc zero) ∷ []) = some LauncherRequest.list_apps
request_of ((suc (suc zero)) ∷ app_id) = some (LauncherRequest.prepare_launch app_id)
request_of ((suc (suc (suc zero))) ∷ app_id) = some (LauncherRequest.launch app_id)
request_of ((suc (suc (suc (suc zero)))) ∷ []) = some LauncherRequest.enforcement
request_of ((suc (suc (suc (suc (suc zero))))) ∷ []) = some LauncherRequest.status
request_of ((suc (suc (suc (suc (suc (suc zero)))))) ∷ []) = some LauncherRequest.list_web_apps
request_of ((suc (suc (suc (suc (suc (suc (suc zero))))))) ∷ app_id) =
    some (LauncherRequest.launch_web app_id)
request_of ((suc (suc (suc (suc (suc (suc (suc (suc zero)))))))) ∷ []) =
    some LauncherRequest.peek_audit
request_of _ = none

abbrev requests : Postcard LauncherRequest
requests = record { to_bytes = request_bytes; from_bytes = request_of }

requests-IsCodec : IsCodec requests
requests-IsCodec (LauncherRequest.hello proto) = refl
requests-IsCodec LauncherRequest.list_apps = refl
requests-IsCodec (LauncherRequest.prepare_launch app_id) = refl
requests-IsCodec (LauncherRequest.launch app_id) = refl
requests-IsCodec LauncherRequest.enforcement = refl
requests-IsCodec LauncherRequest.status = refl
requests-IsCodec LauncherRequest.list_web_apps = refl
requests-IsCodec (LauncherRequest.launch_web app_id) = refl
requests-IsCodec LauncherRequest.peek_audit = refl

abbrev replies : Postcard LauncherReply
replies = record { to_bytes = λ r. 5 ∷ []; from_bytes = λ b. none }

abbrev counting : LauncherRequest → ℕ → ℕ × LauncherReply
counting request n = (n + 1, LauncherReply.launched (some n))

-- The greeting and a request for the status, in two chunks
abbrev session : List Bytes
session = (2 ∷ 0 ∷ 0 ∷ 0 ∷ 0 ∷ 7 ∷ 1 ∷ []) ∷ (0 ∷ 0 ∷ 0 ∷ 5 ∷ []) ∷ []

serve_launcher-run_all_example :
    serve_launcher requests replies counting 4 (on_stream session [] [])
    ≡ some (
      5,
      on_stream [] [] (
          reply_bytes replies
            (LauncherReply.welcome proto_version ∷ LauncherReply.launched (some 4) ∷ [])),
      ok tt,
    )
unfolding encode to_le_bytes
serve_launcher-run_all_example =
    serve_launcher-run_all requests requests-IsCodec replies counting (LauncherRequest.status ∷ [])
      4 session (omega arith, (omega arith, tt)) (refl, (refl, tt)) refl

abbrev shim : Postcard ShimMsg
shim = record { to_bytes = λ m. []; from_bytes = λ b. some (hello 7 9) }

abbrev daemon : Postcard DaemonMsg
daemon = record { to_bytes = λ m. 5 ∷ []; from_bytes = λ b. some (welcome 7) }

servers_end_example :
    ((r : ℕ × Connection × Result TransportError (Unit {0})) × (serve shim daemon
          (λ m n. (n + 1, none))
          0
          (on_stream session [] [])
        ≡ some r))
    × ((r : ℕ × Connection × Result TransportError (Unit {0})) × (serve_launcher requests replies
            counting 0
            (on_stream session [] [])
          ≡ some r))
servers_end_example =
    servers_end shim daemon (λ m n. (n + 1, none)) requests replies counting 0
      (on_stream session [] [])
