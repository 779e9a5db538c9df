-- ===== src/Ipc/Connection.antt =====
-- crates/clave-ipc/src/transport.rs: a connection over a stream of bytes. The stream gives its bytes
-- in chunks or an I/O error, an empty chunk is its end, and it takes what is written or fails.
pub mod Laws
use clave.Prelude.{
  ℕ, zero, suc, nat_eq, ◌==◌, not, Bool, Option, none, some, List, [], ◌∷◌, ◌++◌, Bytes, Text,
  codes, Result, ok, err, ◌>>=◌, ◌>>◌, fail_if, is_empty, drop, if◌then◌else◌,
}
use clave.Proto.External.{Postcard}
use clave.Ipc.Frame.{FrameError, encode, try_decode}
use clave.Ipc.Message.{proto_version, ShimMsg, hello, DaemonMsg, welcome}

pub data TransportError : Type 0 where
  io : (code : ℕ) → TransportError
  frame : FrameError → TransportError
  handshake : Text → TransportError
  truncated : TransportError
  launch_failed : Text → TransportError

-- The bytes still to be read, and those read and written so far
pub record Connection : Type 0 where
  pub incoming : List (Result ℕ Bytes)
  pub buf : Bytes
  pub outgoing : Bytes
  -- The error that writing fails with
  pub broken : Option ℕ

pub record PeerCred : Type 0 where
  pub uid : ℕ
  pub pid : Option ℕ

module _ {A : Type 0} (postcard : Postcard A) where
  abbrev pub ReadResult : Type 0
  ReadResult = List (Result ℕ Bytes) × Bytes × Result TransportError (Option A)

  abbrev pub after_decode :
      Result FrameError (Option (A × ℕ)) → List (Result ℕ Bytes) → Bytes → ReadResult → ReadResult
  after_decode (err e) incoming buf next = (incoming, buf, err (frame e))
  after_decode (ok (some (msg, consumed))) incoming buf next =
      (incoming, drop consumed buf, ok (some msg))
  after_decode (ok none) incoming buf next = next

  abbrev pub at_end : List (Result ℕ Bytes) → Bytes → ReadResult
  at_end incoming buf =
      if is_empty buf then (incoming, buf, ok none) else (incoming, buf, err truncated)

  -- The loop of `Connection::read`
  unfoldable pub read_loop : List (Result ℕ Bytes) → Bytes → ReadResult
  unfolding try_decode
  read_loop [] buf = after_decode (try_decode postcard buf) [] buf (at_end [] buf)
  read_loop (err e ∷ rest) buf =
      after_decode (try_decode postcard buf) (err e ∷ rest) buf (rest, buf, err (io e))
  read_loop (ok chunk ∷ rest) buf =
      let next = read_loop rest (buf ++ chunk) in
      after_decode (try_decode postcard buf) (ok chunk ∷ rest) buf
        (if is_empty chunk then at_end rest buf else next)

  abbrev pub read_back : Connection → ReadResult → Connection × Result TransportError (Option A)
  read_back c (incoming, buf, r) = (record c { incoming = incoming; buf = buf }, r)

  -- `Connection::read`
  unfoldable pub read : Connection → Connection × Result TransportError (Option A)
  unfolding read_loop
  read c = read_back c (read_loop c.incoming c.buf)

  abbrev pub write_by : Option ℕ → A → Connection → Connection × Result TransportError (Unit {0})
  write_by (some e) msg c = (c, err (io e))
  write_by none msg c = (record c { outgoing = c.outgoing ++ encode postcard msg }, ok tt)

  -- `Connection::write`
  unfoldable pub write : A → Connection → Connection × Result TransportError (Unit {0})
  unfolding encode
  write msg c = write_by c.broken msg c

module _ (shim : Postcard ShimMsg) (daemon : Postcard DaemonMsg)
    (authenticate : PeerCred → ℕ → Bool) where
  abbrev pub welcomed :
      PeerCred
      → Connection × Result TransportError (Unit {0})
      → Connection × Result TransportError PeerCred
  welcomed cred (c, err e) = (c, err e)
  welcomed cred (c, ok _) = (c, ok cred)

  abbrev pub greet :
      PeerCred
      → Connection × Result TransportError (Option ShimMsg)
      → Connection × Result TransportError PeerCred
  greet cred (c, err e) = (c, err e)
  greet cred (c, ok none) = (c, err truncated)
  greet cred (c, ok (some (hello proto nonce))) =
      if not (proto == proto_version)
      then (c, err (handshake (codes "protocol version mismatch")))
      else if not (authenticate cred nonce)
      then (c, err (handshake (codes "peer authentication rejected")))
      else welcomed cred (write daemon (welcome proto_version) c)
  greet cred (c, ok (some _)) = (c, err (handshake (codes "expected Hello")))

  -- `server_handshake`, with the peer's credentials, or the error of reading them
  unfoldable pub server_handshake :
      Result TransportError PeerCred → Connection → Connection × Result TransportError PeerCred
  unfolding read write
  server_handshake (err e) c = (c, err e)
  server_handshake (ok cred) c = greet cred (read shim c)

module _ (shim : Postcard ShimMsg) (daemon : Postcard DaemonMsg) where
  abbrev check_welcome :
      Connection × Result TransportError (Option DaemonMsg)
      → Connection × Result TransportError (Unit {0})
  check_welcome (c, err e) = (c, err e)
  check_welcome (c, ok none) = (c, err truncated)
  check_welcome (c, ok (some (welcome proto))) =
      if proto == proto_version then (c, ok tt) else (c, err (handshake (codes "expected Welcome")))
  check_welcome (c, ok (some _)) = (c, err (handshake (codes "expected Welcome")))

  abbrev after_hello :
      Connection × Result TransportError (Unit {0}) → Connection × Result TransportError (Unit {0})
  after_hello (c, err e) = (c, err e)
  after_hello (c, ok _) = check_welcome (read daemon c)

  unfoldable pub client_handshake : ℕ → Connection → Connection × Result TransportError (Unit {0})
  unfolding read write
  client_handshake nonce c = after_hello (write shim (hello proto_version nonce) c)
