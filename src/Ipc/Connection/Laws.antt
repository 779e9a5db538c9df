-- ===== src/Ipc/Connection/Laws.antt =====
-- Messages arrive whole and in order, however the stream cuts them into chunks.
use clave.Prelude.{
  ℕ, zero, suc, nat_eq, ◌+◌, ◌≤◌, ◌<◌, ◌≡◌, refl, arith, ap, sym, ◌∙◌, Bool, true, false, Option,
  none, some, List, [], ◌∷◌, ◌++◌, Bytes, Result, ok, err, is_empty, length, drop, All, map,
  append_assoc, append_nil, length-append, ltb, map_option, if◌then◌else◌, Bool-cases, inl, inr,
}
use clave.Proto.External.{Postcard, IsCodec}
use clave.Ipc.Frame.{max_frame, encode, try_decode}
use clave.Ipc.Frame.Laws.{length-encode, later, incomplete, complete}
use clave.Ipc.Message.{proto_version, ShimMsg, hello, DaemonMsg, welcome}
use clave.Ipc.Connection.{
  TransportError, Connection, PeerCred, ReadResult, after_decode, at_end, read_loop, read, write,
  write_by, greet, welcomed, server_handshake,
}

abbrev pub concat : List Bytes → Bytes
concat [] = []
concat (c ∷ cs) = c ++ concat cs

-- Chunks that a stream gives: none of them is empty.
abbrev pub AreChunks : List Bytes → Type 0
AreChunks cs = All (λ c. is_empty c ≡ false) cs

abbrev pub stream : List Bytes → List (Result ℕ Bytes)
stream cs = map ok cs

module _ {A : Type 0} (postcard : Postcard A) (codec : IsCodec postcard) where
  -- The frames of some messages, one after the other.
  abbrev pub frames : List A → Bytes
  frames [] = []
  frames (m ∷ ms) = encode postcard m ++ frames ms

  -- The message that is read, and what is then left of the buffer and the stream.
  abbrev pub Gives : A → Bytes → ReadResult postcard → Type 0
  Gives msg rest r =
      (cs : List Bytes) × (buf : Bytes) × (r ≡ (stream cs, buf, ok (some msg)))
      × AreChunks cs
      × (buf ++ concat cs ≡ rest)

  -- The first frame is complete in the buffer.
  module _ (msg : A) (cs : List Bytes) (buf rest : Bytes)
      (small : length (postcard.to_bytes msg) ≤ max_frame) (chunks : AreChunks cs)
      (h : buf ++ concat cs ≡ encode postcard msg ++ rest) where
    decoded :
        (next : ReadResult postcard)
        → 4 + length (postcard.to_bytes msg) ≤ length buf
        → Gives msg rest (after_decode postcard (try_decode postcard buf) (stream cs) buf next)
    decoded next enough = (
      cs,
      drop (4 + length (postcard.to_bytes msg)) buf,
      ap (λ d. after_decode postcard d (stream cs) buf next)
          (complete postcard codec msg small buf (concat cs) rest h enough),
      chunks,
      later postcard codec msg small buf (concat cs) rest h enough,
    )

    awaited :
        (next : ReadResult postcard)
        → length buf < 4 + length (postcard.to_bytes msg)
        → after_decode postcard (try_decode postcard buf) (stream cs) buf next ≡ next
    awaited next short =
        ap (λ d. after_decode postcard d (stream cs) buf next)
          (incomplete postcard codec msg small buf (concat cs) rest h short)

    total : length buf + length (concat cs) ≡ 4 + length (postcard.to_bytes msg) + length rest
    total = omega (
      arith,
      length-append buf (concat cs),
      ap length h,
      length-append (encode postcard msg) rest,
      length-encode postcard codec msg small,
    )

  pub read_loop-Gives :
      (msg : A) (cs : List Bytes) (buf rest : Bytes)
      → length (postcard.to_bytes msg) ≤ max_frame
      → AreChunks cs
      → buf ++ concat cs ≡ encode postcard msg ++ rest
      → Gives msg rest (read_loop postcard (stream cs) buf)
  unfolding read_loop
  read_loop-Gives msg [] buf rest small chunks h =
      decoded msg [] buf rest small chunks h (at_end postcard [] buf)
        (omega (arith, total msg [] buf rest small chunks h))
  read_loop-Gives msg (c ∷ cs) buf rest small chunks h =
      elim (Bool-cases (ltb (length buf) (4 + length (postcard.to_bytes msg)))) [
        | inl short ↦
            let joined = append_assoc buf c (concat cs) ∙ h in
            let (cs', buf', e, more, left) =
              read_loop-Gives msg cs (buf ++ c) rest small chunks.1 joined in
            (
              cs',
              buf',
              awaited msg (c ∷ cs) buf rest small chunks h
                    (if is_empty c
                      then at_end postcard (stream cs) buf
                      else read_loop postcard (stream cs) (buf ++ c))
                    (ground arith)
                  ∙ ap
                      (λ b.
                        if b
                        then at_end postcard (stream cs) buf
                        else read_loop postcard (stream cs) (buf ++ c))
                      chunks.0
                  ∙ e,
              more,
              left,
            )
        | inr enough ↦
            decoded msg (c ∷ cs) buf rest small chunks h
              (if is_empty c
                then at_end postcard (stream cs) buf
                else read_loop postcard (stream cs) (buf ++ c))
              (ground arith)
      ]

  abbrev pub AreSmall : List A → Type 0
  AreSmall ms = All (λ m. length (postcard.to_bytes m) ≤ max_frame) ms

  -- Messages that one end writes, one after the other.
  unfoldable pub send : List A → Connection → Connection
  send [] c = c
  send (m ∷ ms) c = send ms (write postcard m c).0

  -- The messages that the other end reads, when there are so many and no more.
  abbrev pub if_ended : ReadResult postcard → Option (List A)
  if_ended (incoming, buf, ok none) = some []
  if_ended _ = none

  abbrev pub cons_read :
      ReadResult postcard → (List (Result ℕ Bytes) → Bytes → Option (List A)) → Option (List A)
  cons_read (incoming, buf, ok (some m)) later = map_option (λ ms. m ∷ ms) (later incoming buf)
  cons_read _ later = none

  unfoldable pub receive : ℕ → List (Result ℕ Bytes) → Bytes → Option (List A)
  receive zero incoming buf = if_ended (read_loop postcard incoming buf)
  receive (suc n) incoming buf = cons_read (read_loop postcard incoming buf) (λ i b. receive n i b)

  nothing_left : receive zero (stream []) [] ≡ some []
  unfolding receive read_loop try_decode
  nothing_left = ground arith

  frames_received :
      (ms : List A) (cs : List Bytes) (buf : Bytes)
      → AreSmall ms
      → AreChunks cs
      → buf ++ concat cs ≡ frames ms
      → receive (length ms) (stream cs) buf ≡ some ms
  unfolding receive
  frames_received [] [] [] small chunks h = nothing_left
  frames_received [] [] (b ∷ buf) small chunks h = ground arith
  frames_received [] ([] ∷ cs) buf small chunks h = ground arith
  frames_received [] ((b ∷ c) ∷ cs) [] small chunks h = ground arith
  frames_received [] ((b ∷ c) ∷ cs) (b' ∷ buf) small chunks h = ground arith
  frames_received (m ∷ ms) cs buf small chunks h =
      let (cs', buf', e, more, left) = read_loop-Gives m cs buf (frames ms) small.0 chunks h in
      ap (λ r. cons_read r (λ i b. receive (length ms) i b)) e
      ∙ ap (λ o. map_option (λ t. m ∷ t) o) (frames_received ms cs' buf' small.1 more left)

  send-outgoing :
      (ms : List A) (c : Connection)
      → c.broken ≡ none
      → (send ms c).outgoing ≡ c.outgoing ++ frames ms
  unfolding send write
  send-outgoing [] c h = sym (append_nil c.outgoing)
  send-outgoing (m ∷ ms) c h =
      let wrote : write postcard m c
          ≡ (record c { outgoing = c.outgoing ++ encode postcard m }, ok tt) =
        ap (λ b. write_by postcard b m c) h in
      ap (λ p. (send ms p.0).outgoing) wrote
      ∙ send-outgoing ms (record c { outgoing = c.outgoing ++ encode postcard m }) h
      ∙ append_assoc c.outgoing (encode postcard m) (frames ms)

  -- With an encoding that decodes what it encoded: whatever messages are written on a new connection that
  -- takes them, each of at most 1 MiB, they are read at its other end in the same order, and then the end
  -- of the stream, however the stream cuts the bytes into chunks.
  pub receive-send :
      (sender : Connection) (ms : List A) (cs : List Bytes)
      → sender.broken ≡ none
      → sender.outgoing ≡ []
      → AreSmall ms
      → AreChunks cs
      → concat cs ≡ (send ms sender).outgoing
      → receive (length ms) (stream cs) [] ≡ some ms
  receive-send sender ms cs works new small chunks h =
      frames_received ms cs [] small chunks
        (h ∙ send-outgoing ms sender works ∙ ap (λ t. t ++ frames ms) new)

module _ (shim : Postcard ShimMsg) (daemon : Postcard DaemonMsg)
    (authenticate : PeerCred → ℕ → Bool) where
  read_keeps : (c : Connection) → (read shim c).0.outgoing ≡ c.outgoing
  unfolding read
  read_keeps c = refl

  welcomed_lem :
      (cred cred' : PeerCred) (c c' : Connection)
      → welcomed shim daemon authenticate cred (write daemon (welcome proto_version) c)
        ≡ (c', ok cred')
      → (cred' ≡ cred) × (c'.outgoing ≡ c.outgoing ++ encode daemon (welcome proto_version))
  unfolding write
  welcomed_lem cred cred' c c' h = by_broken c.broken h
    where
      by_broken :
          (b : Option ℕ)
          → welcomed shim daemon authenticate cred (write_by daemon b (welcome proto_version) c)
            ≡ (c', ok cred')
          → (cred' ≡ cred) × (c'.outgoing ≡ c.outgoing ++ encode daemon (welcome proto_version))
      by_broken none e = (ground arith, sym (ap (λ p. p.0.outgoing) e))
      by_broken (some code) e = ground arith

  -- What the peer has sent and been told when it is taken in.
  abbrev pub WasAdmitted :
      PeerCred
      → Connection × Result TransportError (Option ShimMsg)
      → Connection × PeerCred
      → Type 0
  WasAdmitted cred r (c', cred') =
      (nonce : ℕ) × (r.1 ≡ ok (some (hello proto_version nonce)))
      × (authenticate cred nonce ≡ true)
      × (cred' ≡ cred)
      × (c'.outgoing ≡ r.0.outgoing ++ encode daemon (welcome proto_version))

  greet_lem :
      (cred cred' : PeerCred) (r : Connection × Result TransportError (Option ShimMsg))
      (c' : Connection)
      → greet shim daemon authenticate cred r ≡ (c', ok cred')
      → WasAdmitted cred r (c', cred')
  greet_lem cred cred' (c, err e) c' h = ground arith
  greet_lem cred cred' (c, ok none) c' h = ground arith
  greet_lem cred cred' (c, ok (some (hello proto nonce))) c' h =
      let version : proto ≡ proto_version = ground arith in
      let trusted : authenticate cred nonce ≡ true = ground arith in
      let told : welcomed shim daemon authenticate cred (write daemon (welcome proto_version) c)
          ≡ (c', ok cred') =
        ground arith in
      let (same, out) = welcomed_lem cred cred' c c' told in
      (nonce, ap (λ v. ok (some (hello v nonce))) version, trusted, same, out)
  greet_lem cred cred' (c, ok (some (ShimMsg.request_decision i a))) c' h = ground arith
  greet_lem cred cred' (c, ok (some (ShimMsg.window_created w))) c' h = ground arith
  greet_lem cred cred' (c, ok (some (ShimMsg.window_destroyed w))) c' h = ground arith
  greet_lem cred cred' (c, ok (some ShimMsg.heartbeat)) c' h = ground arith

  -- A handshake that succeeds read a greeting of this protocol version whose nonce the authenticator
  -- takes for the peer's credentials, gives those credentials, and has written the welcome and nothing else.
  pub server_handshake_lem :
      (cred cred' : PeerCred) (c c' : Connection)
      → server_handshake shim daemon authenticate (ok cred) c ≡ (c', ok cred')
      → WasAdmitted cred (read shim c) (c', cred') × ((read shim c).0.outgoing ≡ c.outgoing)
  unfolding server_handshake
  server_handshake_lem cred cred' c c' h = (greet_lem cred cred' (read shim c) c' h, read_keeps c)
