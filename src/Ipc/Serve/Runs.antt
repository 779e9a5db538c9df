-- ===== src/Ipc/Serve/Runs.antt =====
-- What the servers do with requests that arrive whole: the handler's states in order, and its replies.
use clave.Prelude.{
  ℕ, zero, suc, ◌+◌, ◌≤◌, ◌<◌, ◌≡◌, refl, ap, sym, ◌∙◌, arith, Option, none, some, List, [], ◌∷◌,
  ◌++◌, append_assoc, append_nil, Bytes, length, length-append, Result, ok,
}
use clave.Proto.External.{Postcard, IsCodec}
use clave.Ipc.Frame.{encode, try_decode, max_frame}
use clave.Ipc.Frame.Laws.{length-encode}
use clave.Ipc.Message.{proto_version}
use clave.Ipc.Connection.{Connection, TransportError, read_loop, read_back, read, write}
use clave.Ipc.Connection.Laws.{concat, AreChunks, stream, frames, AreSmall, read_loop-Gives}
use clave.Ipc.Launcher.{LauncherRequest, LauncherReply}
use clave.Ipc.Serve.{
  pending, stream_size, replied, reply_by, turn, serve_loop, always, serve_rest, greet_launcher,
  serve_launcher,
}

-- A connection that takes what is written
abbrev pub on_stream : List Bytes → Bytes → Bytes → Connection
on_stream cs buf out = record { incoming = stream cs; buf = buf; outgoing = out; broken = none }

abbrev pub option_list : {B : Type 0} → Option B → List B
option_list none = []
option_list (some b) = b ∷ []

-- The state after some requests, and the replies to them
abbrev pub run_all : {S A B : Type 0} → (A → S → S × Option B) → List A → S → S × List B
run_all handler [] s = (s, [])
run_all handler (m ∷ ms) s =
    let rest = run_all handler ms (handler m s).0 in (rest.0, option_list (handler m s).1 ++ rest.1)

abbrev pub reply_bytes : {B : Type 0} → Postcard B → List B → Bytes
reply_bytes replies [] = []
reply_bytes replies (r ∷ rs) = encode replies r ++ reply_bytes replies rs

module _ {S A B : Type 0} (requests : Postcard A) (codec : IsCodec requests) (replies : Postcard B)
    (handler : A → S → S × Option B) where
  ends_here :
      (fuel : ℕ) (s : S) (out : Bytes)
      → serve_loop requests replies handler (suc fuel) s (on_stream [] [] out)
        ≡ some (s, on_stream [] [] out, ok tt)
  unfolding serve_loop turn read read_loop try_decode
  ends_here fuel s out = refl

  pub read-on_stream :
      (m : A) (cs : List Bytes) (buf rest out : Bytes)
      → length (requests.to_bytes m) ≤ max_frame
      → AreChunks cs
      → buf ++ concat cs ≡ encode requests m ++ rest
      → (cs' : List Bytes) × (buf' : Bytes) × (read requests (on_stream cs buf out)
          ≡ (on_stream cs' buf' out, ok (some m)))
        × AreChunks cs'
        × (buf' ++ concat cs' ≡ rest)
  unfolding read
  read-on_stream m cs buf rest out small chunks h =
      let (cs', buf', e, more, left) =
        read_loop-Gives requests codec m cs buf rest small chunks h in
      (cs', buf', ap (λ r. read_back requests (on_stream cs buf out) r) e, more, left)

  reply_by-on_stream :
      (o : Option B) (cs : List Bytes) (buf out : Bytes)
      → reply_by requests replies handler o (on_stream cs buf out)
        ≡ (on_stream cs buf (out ++ reply_bytes replies (option_list o)), ok tt)
  unfolding reply_by write
  reply_by-on_stream none cs buf out = ap (λ o. (on_stream cs buf o, ok tt)) (sym (append_nil out))
  reply_by-on_stream (some r) cs buf out =
      ap (λ t. (on_stream cs buf (out ++ t), ok tt)) (sym (append_nil (encode replies r)))

  reply_bytes-append :
      (xs ys : List B)
      → reply_bytes replies (xs ++ ys) ≡ reply_bytes replies xs ++ reply_bytes replies ys
  reply_bytes-append [] ys = refl
  reply_bytes-append (x ∷ xs) ys =
      ap (λ t. encode replies x ++ t) (reply_bytes-append xs ys)
      ∙ sym (append_assoc (encode replies x) (reply_bytes replies xs) (reply_bytes replies ys))

  pub serve_loop-run_all :
      (ms : List A) (fuel : ℕ) (s : S) (cs : List Bytes) (buf out : Bytes)
      → length ms < fuel
      → AreSmall requests codec ms
      → AreChunks cs
      → buf ++ concat cs ≡ frames requests codec ms
      → serve_loop requests replies handler fuel s (on_stream cs buf out)
        ≡ some (
          (run_all handler ms s).0,
          on_stream [] [] (out ++ reply_bytes replies (run_all handler ms s).1),
          ok tt,
        )
  unfolding serve_loop turn
  serve_loop-run_all ms zero s cs buf out lt small chunks h = absurd (omega arith)
  serve_loop-run_all [] (suc fuel) s [] [] out lt small chunks h =
      ends_here fuel s out ∙ ap (λ o. some (s, on_stream [] [] o, ok tt)) (sym (append_nil out))
  serve_loop-run_all [] (suc fuel) s [] (b ∷ buf) out lt small chunks h = cc
  serve_loop-run_all [] (suc fuel) s ([] ∷ cs) buf out lt small chunks h = cc
  serve_loop-run_all [] (suc fuel) s ((b ∷ c) ∷ cs) [] out lt small chunks h = cc
  serve_loop-run_all [] (suc fuel) s ((b ∷ c) ∷ cs) (b' ∷ buf) out lt small chunks h = cc
  serve_loop-run_all (m ∷ ms) (suc fuel) s cs buf out lt (small, smalls) chunks h =
      let (cs', buf', e, more, left) =
        read-on_stream m cs buf (frames requests codec ms) out small chunks h in
      let again : S → Connection → Option (S × Connection × Result TransportError (Unit {0})) =
        λ s' c'. serve_loop requests replies handler fuel s' c' in
      let out' = out ++ reply_bytes replies (option_list (handler m s).1) in
      let rest = run_all handler ms (handler m s).0 in
      ap (λ r. turn requests replies handler again s r) e
      ∙ ap (λ r. replied requests replies handler again (handler m s).0 r)
          (reply_by-on_stream (handler m s).1 cs' buf' out)
      ∙ serve_loop-run_all ms fuel (handler m s).0 cs' buf' out' (omega arith) smalls more left
      ∙ ap (λ o. some (rest.0, on_stream [] [] o, ok tt))
          (append_assoc out (reply_bytes replies (option_list (handler m s).1))
              (reply_bytes replies rest.1)
            ∙ ap (λ t. out ++ t) (sym (reply_bytes-append (option_list (handler m s).1) rest.1)))

stream_size-stream : (cs : List Bytes) → stream_size (stream cs) ≡ length (concat cs)
stream_size-stream [] = refl
stream_size-stream (c ∷ cs) = omega (arith, stream_size-stream cs, length-append c (concat cs))

length-frames :
    {A : Type 0} (postcard : Postcard A) (codec : IsCodec postcard) (ms : List A)
    → AreSmall postcard codec ms
    → length ms ≤ length (frames postcard codec ms)
length-frames postcard codec [] small = omega arith
length-frames postcard codec (m ∷ ms) (small, smalls) = omega (
  arith,
  length-append (encode postcard m) (frames postcard codec ms),
  length-encode postcard codec m small,
  length-frames postcard codec ms smalls,
)

module _ {S : Type 0} (requests : Postcard LauncherRequest) (codec : IsCodec requests)
    (replies : Postcard LauncherReply) (handler : LauncherRequest → S → S × LauncherReply) where
  enough :
      (ms : List LauncherRequest) (cs : List Bytes) (buf out : Bytes)
      → AreSmall requests codec ms
      → buf ++ concat cs ≡ frames requests codec ms
      → length ms < pending (on_stream cs buf out) + 1
  enough ms cs buf out small h = omega (
    arith,
    stream_size-stream cs,
    length-append buf (concat cs),
    ap length h,
    length-frames requests codec ms small,
  )

  -- With an encoding that decodes what it encoded, on a connection that takes what is written: when the
  -- stream holds the greeting of this protocol version and then any requests, each of at most 1 MiB, in
  -- whatever chunks, the launcher's server ends without error at the end of the stream. Its state is that
  -- of the handler on these requests in order, and it has written the welcome and the replies in order.
  pub serve_launcher-run_all :
      (ms : List LauncherRequest) (s : S) (cs : List Bytes)
      → AreSmall requests codec (LauncherRequest.hello proto_version ∷ ms)
      → AreChunks cs
      → concat cs ≡ frames requests codec (LauncherRequest.hello proto_version ∷ ms)
      → serve_launcher requests replies handler s (on_stream cs [] [])
        ≡ some (
          (run_all (always requests replies handler) ms s).0,
          on_stream [] [] (
              reply_bytes replies (
                LauncherReply.welcome proto_version
                ∷ (run_all (always requests replies handler) ms s).1)),
          ok tt,
        )
  unfolding serve_launcher greet_launcher serve_rest write
  serve_launcher-run_all ms s cs (small, smalls) chunks h =
      let (cs', buf', e, more, left) =
        read-on_stream requests codec replies (always requests replies handler)
          (LauncherRequest.hello proto_version) cs [] (frames requests codec ms) [] small chunks
          h in
      ap (λ r. greet_launcher requests replies handler s r) e
      ∙ serve_loop-run_all requests codec replies (always requests replies handler) ms
          (pending (on_stream cs' buf' (encode replies (LauncherReply.welcome proto_version))) + 1)
          s cs' buf' (encode replies (LauncherReply.welcome proto_version))
          (enough ms cs' buf' (encode replies (LauncherReply.welcome proto_version)) smalls left)
          smalls more left
