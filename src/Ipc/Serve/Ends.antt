-- ===== src/Ipc/Serve/Ends.antt =====
-- The servers end: each message that is read takes bytes that the stream does not give again.
use clave.Prelude.{
  ℕ, zero, suc, ◌+◌, ◌≤◌, ◌<◌, ◌≡◌, refl, ap, arith, Bool-cases, inl, inr, Option, none, some, List,
  [], ◌∷◌, ◌++◌, Bytes, length, length-append, length-drop, Result, ok, err, codes, nat_eq, ◌==◌,
}
use clave.Proto.External.{Postcard}
use clave.Ipc.Frame.{FrameError, encode, try_decode}
use clave.Ipc.Message.{proto_version, ShimMsg, DaemonMsg}
use clave.Ipc.Connection.{
  Connection, TransportError, ReadResult, after_decode, at_end, read_loop, read_back, read, write,
  write_by,
}
use clave.Ipc.Launcher.{LauncherRequest, LauncherReply}
use clave.Ipc.Serve.{
  stream_size, pending, replied, reply_by, turn, serve_loop, serve, always, serve_rest,
  greet_launcher, serve_launcher,
}

module _ {A : Type 0} (postcard : Postcard A) where
  try_decode_takes :
      (buf : Bytes) (m : A) (n : ℕ)
      → try_decode postcard buf ≡ ok (some (m, n))
      → (4 ≤ n) × (n ≤ length buf)
  unfolding try_decode
  try_decode_takes buf m n h = ground arith

  -- A message that was read leaves less than `n` bytes to come.
  abbrev pub Shrinks : ℕ → ReadResult postcard → Type 0
  Shrinks n (incoming, buf, ok (some m)) = length buf + stream_size incoming < n
  Shrinks n (incoming, buf, ok none) = Unit
  Shrinks n (incoming, buf, err e) = Unit

  Shrinks-le : (n k : ℕ) (r : ReadResult postcard) → n ≤ k → Shrinks n r → Shrinks k r
  Shrinks-le n k (incoming, buf, ok (some m)) le h = omega arith
  Shrinks-le n k (incoming, buf, ok none) le h = tt
  Shrinks-le n k (incoming, buf, err e) le h = tt

  at_end-Shrinks :
      (n : ℕ) (incoming : List (Result ℕ Bytes)) (buf : Bytes)
      → Shrinks n (at_end postcard incoming buf)
  at_end-Shrinks n incoming [] = tt
  at_end-Shrinks n incoming (b ∷ buf) = tt

  after_decode-Shrinks :
      (n : ℕ) (d : Result FrameError (Option (A × ℕ))) (incoming : List (Result ℕ Bytes))
      (buf : Bytes) (next : ReadResult postcard)
      → try_decode postcard buf ≡ d
      → length buf + stream_size incoming ≤ n
      → Shrinks n next
      → Shrinks n (after_decode postcard d incoming buf next)
  after_decode-Shrinks n (err e) incoming buf next h le k = tt
  after_decode-Shrinks n (ok none) incoming buf next h le k = k
  after_decode-Shrinks n (ok (some (m, used))) incoming buf next h le k =
      let (low, high) = try_decode_takes buf m used h in omega (arith, length-drop used buf)

  read_loop-Shrinks :
      (incoming : List (Result ℕ Bytes)) (buf : Bytes)
      → Shrinks (length buf + stream_size incoming) (read_loop postcard incoming buf)
  unfolding read_loop
  read_loop-Shrinks [] buf =
      after_decode-Shrinks _ _ [] buf _ refl (omega arith) (at_end-Shrinks _ [] buf)
  read_loop-Shrinks (err e ∷ rest) buf =
      after_decode-Shrinks _ _ (err e ∷ rest) buf (rest, buf, err (TransportError.io e)) refl
        (omega arith) tt
  read_loop-Shrinks (ok [] ∷ rest) buf =
      after_decode-Shrinks _ _ (ok [] ∷ rest) buf _ refl (omega arith) (at_end-Shrinks _ rest buf)
  read_loop-Shrinks (ok (b ∷ chunk) ∷ rest) buf =
      after_decode-Shrinks _ _ (ok (b ∷ chunk) ∷ rest) buf _ refl (omega arith) (
        Shrinks-le (length (buf ++ (b ∷ chunk)) + stream_size rest)
          (length buf + stream_size (ok (b ∷ chunk) ∷ rest))
          (read_loop postcard rest (buf ++ (b ∷ chunk)))
          (omega (arith, length-append buf (b ∷ chunk)))
          (read_loop-Shrinks rest (buf ++ (b ∷ chunk))))

  -- What a connection has still to give after a message was read from it
  pub read_shrinks :
      (c c' : Connection) (m : A) → read postcard c ≡ (c', ok (some m)) → pending c' < pending c
  unfolding read
  read_shrinks c c' m h =
      from (read_loop postcard c.incoming c.buf) (read_loop-Shrinks c.incoming c.buf) h
    where
      from :
          (r : ReadResult postcard)
          → Shrinks (length c.buf + stream_size c.incoming) r
          → read_back postcard c r ≡ (c', ok (some m))
          → pending c' < pending c
      from (incoming, buf, ok (some m')) k e =
          let same : (record c { incoming = incoming; buf = buf }) ≡ c' = ap (λ p. p.0) e in
          rw (← same) k
      from (incoming, buf, ok none) k e = ground arith
      from (incoming, buf, err x) k e = ground arith

module _ {S A B : Type 0} (requests : Postcard A) (replies : Postcard B)
    (handler : A → S → S × Option B) where
  abbrev pub Ends : Option (S × Connection × Result TransportError (Unit {0})) → Type 0
  Ends o = (r : S × Connection × Result TransportError (Unit {0})) × (o ≡ some r)

  pub replied-Ends :
      (again : S → Connection → Option (S × Connection × Result TransportError (Unit {0}))) (s : S)
      (reply : B) (c : Connection)
      → ((s' : S) (c' : Connection) → pending c' ≡ pending c → Ends (again s' c'))
      → Ends (replied requests replies handler again s (write replies reply c))
  unfolding write
  replied-Ends again s reply c ih = by_broken c.broken
    where
      by_broken :
          (b : Option ℕ)
          → Ends (replied requests replies handler again s (write_by replies b reply c))
      by_broken none = ih s (record c { outgoing = c.outgoing ++ encode replies reply }) refl
      by_broken (some e) = ((s, c, err (TransportError.io e)), refl)

  turn-Ends :
      (again : S → Connection → Option (S × Connection × Result TransportError (Unit {0}))) (s : S)
      (c : Connection) (r : Connection × Result TransportError (Option A))
      → read requests c ≡ r
      → ((s' : S) (c' : Connection) → pending c' < pending c → Ends (again s' c'))
      → Ends (turn requests replies handler again s r)
  unfolding turn reply_by
  turn-Ends again s c (c', err e) h ih = ((s, c', err e), refl)
  turn-Ends again s c (c', ok none) h ih = ((s, c', ok tt), refl)
  turn-Ends again s c (c', ok (some msg)) h ih = by_reply (handler msg s)
    where
      by_reply :
          (p : S × Option B)
          → Ends (
              replied requests replies handler again p.0 (reply_by requests replies handler p.1 c'))
      by_reply (s', none) = ih s' c' (read_shrinks requests c c' msg h)
      by_reply (s', some reply) =
          replied-Ends again s' reply c'
            (λ s'' c'' same. ih s'' c'' (omega (arith, read_shrinks requests c c' msg h, same)))

  -- There is fuel for every message that can be read, and for the end.
  pub serve_loop_ends :
      (fuel : ℕ) (s : S) (c : Connection)
      → pending c < fuel
      → (r : S × Connection × Result TransportError (Unit {0})) × (serve_loop requests replies
            handler fuel s c
          ≡ some r)
  unfolding serve_loop
  serve_loop_ends zero s c h = absurd (omega arith)
  serve_loop_ends (suc fuel) s c h =
      turn-Ends (λ s' c'. serve_loop requests replies handler fuel s' c') s c (read requests c) refl
        (λ s' c' lt. serve_loop_ends fuel s' c' (omega arith))

-- Whatever the stream gives and whatever the handlers do, both servers end, each on any new connection
-- with a result: the fuel of their loops is enough.
pub servers_end :
    {S : Type 0} (shim : Postcard ShimMsg) (daemon : Postcard DaemonMsg)
    (on_shim : ShimMsg → S → S × Option DaemonMsg) (requests : Postcard LauncherRequest)
    (replies : Postcard LauncherReply) (on_launcher : LauncherRequest → S → S × LauncherReply)
    (s : S) (c : Connection)
    → ((r : S × Connection × Result TransportError (Unit {0})) × (serve shim daemon on_shim s c
          ≡ some r))
      × ((r : S × Connection × Result TransportError (Unit {0})) × (serve_launcher requests replies
              on_launcher s c
            ≡ some r))
unfolding serve serve_launcher serve_rest greet_launcher
servers_end {S = S} shim daemon on_shim requests replies on_launcher s c = (
  serve_loop_ends shim daemon on_shim (pending c + 1) s c (omega arith),
  greeted (read requests c),
)
  where
    rest :
        (s' : S) (c' : Connection)
        → Ends requests replies
            (always requests replies on_launcher)
            (serve_rest requests replies on_launcher s' c')
    rest s' c' =
        serve_loop_ends requests replies (always requests replies on_launcher) (pending c' + 1) s'
          c' (omega arith)

    greeted :
        (r : Connection × Result TransportError (Option LauncherRequest))
        → Ends requests replies
            (always requests replies on_launcher)
            (greet_launcher requests replies on_launcher s r)
    greeted (c', err e) = ((s, c', err e), refl)
    greeted (c', ok none) = ((s, c', err TransportError.truncated), refl)
    greeted (c', ok (some (LauncherRequest.hello proto))) =
        elim (Bool-cases (proto == proto_version)) [
          | inl e ↦ rw e (
              replied-Ends requests replies (always requests replies on_launcher)
                (serve_rest requests replies on_launcher) s (LauncherReply.welcome proto_version) c'
                (λ s'' c'' same. rest s'' c''))
          | inr e ↦
              rw e
                ((s, c', err (TransportError.handshake (codes "protocol version mismatch"))), refl)
        ]
    greeted (c', ok (some _)) =
        ((s, c', err (TransportError.handshake (codes "expected Hello"))), refl)
