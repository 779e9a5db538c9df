-- ===== src/Ipc/Tests.antt =====
-- Frames of one byte, and a greeting.
use clave.Prelude.{
  ℕ, nat_eq, ◌==◌, ◌≡◌, refl, arith, Option, none, some, List, [], ◌∷◌, Bytes, ok, err, to_le_bytes,
  from_le_bytes,
}
use clave.Proto.External.{Postcard}
use clave.Ipc.Frame.{encode, try_decode, too_large}
use clave.Ipc.Message.{ShimMsg, hello, DaemonMsg, welcome}
use clave.Ipc.Connection.{Connection, PeerCred, read_loop, read, write, server_handshake}
use clave.Ipc.Connection.Laws.{send, receive, stream, receive-send}

abbrev byte_of : Bytes → Option ℕ
byte_of (b ∷ []) = some b
byte_of _ = none

abbrev byte : Postcard ℕ
byte = record { to_bytes = λ n. n ∷ []; from_bytes = byte_of }

abbrev quiet : Connection
quiet = record { incoming = []; buf = []; outgoing = []; broken = none }

abbrev chunks : List Bytes
chunks = (1 ∷ 0 ∷ []) ∷ (0 ∷ 0 ∷ 7 ∷ 1 ∷ []) ∷ (0 ∷ 0 ∷ 0 ∷ 9 ∷ []) ∷ []

receive-send_example : receive byte (λ n. refl) 2 (stream chunks) [] ≡ some (7 ∷ 9 ∷ [])
unfolding send write encode to_le_bytes
receive-send_example =
    receive-send byte (λ n. refl) quiet (7 ∷ 9 ∷ []) chunks refl refl
      (ground arith, (ground arith, tt)) (refl, (refl, (refl, tt))) refl

too_large_run : try_decode byte (255 ∷ 255 ∷ 255 ∷ 255 ∷ []) ≡ err too_large
unfolding try_decode from_le_bytes
too_large_run = refl

abbrev shim : Postcard ShimMsg
shim = record { to_bytes = λ m. []; from_bytes = λ b. some (hello 7 9) }

abbrev daemon : Postcard DaemonMsg
daemon = record { to_bytes = λ m. 5 ∷ []; from_bytes = λ b. some (welcome 7) }

abbrev peer : PeerCred
peer = record { uid = 501; pid = none }

abbrev greeting : Connection
greeting = record {
  incoming = ok (0 ∷ 0 ∷ 0 ∷ 0 ∷ []) ∷ [];
  buf = [];
  outgoing = [];
  broken = none;
}

abbrev greeted : Connection
greeted = record { incoming = []; buf = []; outgoing = 1 ∷ 0 ∷ 0 ∷ 0 ∷ 5 ∷ []; broken = none }

handshake_run :
    server_handshake shim daemon (λ c nonce. nonce == 9) (ok peer) greeting ≡ (greeted, ok peer)
unfolding server_handshake read write read_loop encode try_decode to_le_bytes from_le_bytes
handshake_run = refl
