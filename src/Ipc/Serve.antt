-- ===== src/Ipc/Serve.antt =====
-- crates/clave-ipc/src/transport.rs: the loops of the two servers, over a handler that changes a state.
pub mod Ends
pub mod Runs
mod Tests
use clave.Prelude.{
  ℕ, zero, suc, ◌+◌, nat_eq, ◌==◌, Option, none, some, List, [], ◌∷◌, Bytes, length, codes, Result,
  ok, err, if◌then◌else◌,
}
use clave.Proto.External.{Postcard}
use clave.Ipc.Message.{proto_version, ShimMsg, DaemonMsg}
use clave.Ipc.Connection.{Connection, TransportError, handshake, truncated, read, write}
use clave.Ipc.Launcher.{LauncherRequest, LauncherReply}

-- The bytes that a stream still gives
abbrev pub stream_size : List (Result ℕ Bytes) → ℕ
stream_size [] = 0
stream_size (ok chunk ∷ rest) = length chunk + stream_size rest
stream_size (err e ∷ rest) = stream_size rest

-- The bytes still to be decoded; each message takes at least four of them.
abbrev pub pending : Connection → ℕ
pending c = length c.buf + stream_size c.incoming

module _ {S A B : Type 0} (requests : Postcard A) (replies : Postcard B)
    (handler : A → S → S × Option B) where
  -- How a server ends: its state, the connection and the result
  abbrev pub Ending : Type 0
  Ending = S × Connection × Result TransportError (Unit {0})

  abbrev pub replied :
      (S → Connection → Option Ending)
      → S
      → Connection × Result TransportError (Unit {0})
      → Option Ending
  replied again s (c, err e) = some (s, c, err e)
  replied again s (c, ok _) = again s c

  unfoldable pub reply_by : Option B → Connection → Connection × Result TransportError (Unit {0})
  unfolding write
  reply_by none c = (c, ok tt)
  reply_by (some reply) c = write replies reply c

  unfoldable pub turn :
      (S → Connection → Option Ending)
      → S
      → Connection × Result TransportError (Option A)
      → Option Ending
  unfolding reply_by
  turn again s (c, err e) = some (s, c, err e)
  turn again s (c, ok none) = some (s, c, ok tt)
  turn again s (c, ok (some msg)) =
      let (s', reply) = handler msg s in replied again s' (reply_by reply c)

  -- `while let Some(msg) = conn.read().await? { … }`; `none` would be a loop that is cut short.
  unfoldable pub serve_loop : ℕ → S → Connection → Option Ending
  unfolding turn read
  serve_loop zero s c = none
  serve_loop (suc fuel) s c = turn (λ s' c'. serve_loop fuel s' c') s (read requests c)

-- `serve`
unfoldable pub serve :
    {S : Type 0} (shim : Postcard ShimMsg) (daemon : Postcard DaemonMsg)
    → (ShimMsg → S → S × Option DaemonMsg)
    → S
    → Connection
    → Option (S × Connection × Result TransportError (Unit {0}))
unfolding serve_loop
serve shim daemon handler s c = serve_loop shim daemon handler (pending c + 1) s c

module _ {S : Type 0} (requests : Postcard LauncherRequest) (replies : Postcard LauncherReply)
    (handler : LauncherRequest → S → S × LauncherReply) where
  -- Every request has a reply.
  abbrev pub always : LauncherRequest → S → S × Option LauncherReply
  always request s = let (s', reply) = handler request s in (s', some reply)

  unfoldable pub serve_rest :
      S → Connection → Option (S × Connection × Result TransportError (Unit {0}))
  unfolding serve_loop
  serve_rest s c = serve_loop requests replies always (pending c + 1) s c

  unfoldable pub greet_launcher :
      S
      → Connection × Result TransportError (Option LauncherRequest)
      → Option (S × Connection × Result TransportError (Unit {0}))
  unfolding write serve_rest
  greet_launcher s (c, err e) = some (s, c, err e)
  greet_launcher s (c, ok none) = some (s, c, err truncated)
  greet_launcher s (c, ok (some (LauncherRequest.hello proto))) =
      if proto == proto_version
      then replied requests replies always serve_rest s
          (write replies (LauncherReply.welcome proto_version) c)
      else some (s, c, err (handshake (codes "protocol version mismatch")))
  greet_launcher s (c, ok (some _)) = some (s, c, err (handshake (codes "expected Hello")))

  unfoldable pub serve_launcher :
      S → Connection → Option (S × Connection × Result TransportError (Unit {0}))
  unfolding read greet_launcher
  serve_launcher s c = greet_launcher s (read requests c)
