-- ===== src/Ipc/Frame/Laws.antt =====
-- A prefix of framed messages is decoded as soon as its first frame is complete, and not before.
use clave.Prelude.{
  ℕ, nat_eq, ◌+◌, ◌%◌, ◌^◌, ◌≤◌, ◌<◌, ◌≡◌, refl, arith, ap, sym, ◌∙◌, none, some, ◌++◌, Bytes, ok,
  to_le_bytes, from_le_bytes, length-to_le_bytes, from_le_bytes-to_le_bytes, length, take, drop,
  length-append, length-drop, take-append, drop-append_two, take-append_at, drop-append_at,
  append_assoc, take-append_le, drop-append_le,
}
use clave.Proto.External.{Postcard, IsCodec}
use clave.Ipc.Frame.{max_frame, encode, try_decode}

module _ {A : Type 0} (postcard : Postcard A) (codec : IsCodec postcard) (msg : A)
    (small : length (postcard.to_bytes msg) ≤ max_frame) where
  abbrev prefix : Bytes
  prefix = to_le_bytes 4 (length (postcard.to_bytes msg) % 2 ^ 32)

  abbrev size : ℕ
  size = length (postcard.to_bytes msg)

  length-prefix : length prefix ≡ 4
  length-prefix = length-to_le_bytes 4 (size % 2 ^ 32)

  pub length-encode : length (encode postcard msg) ≡ 4 + size
  unfolding encode
  length-encode = omega (arith, length-append prefix (postcard.to_bytes msg), length-prefix)

  announced : from_le_bytes prefix ≡ size
  announced = from_le_bytes-to_le_bytes 4 (size % 2 ^ 32) (omega arith) ∙ omega arith

  -- What a buffer holds, with what is still to come, of the frame and the bytes after it.
  module _ (buf tail rest : Bytes) (split : buf ++ tail ≡ encode postcard msg ++ rest) where
    whole : buf ++ tail ≡ prefix ++ (postcard.to_bytes msg ++ rest)
    unfolding encode
    whole = split ∙ append_assoc prefix (postcard.to_bytes msg) rest

    header : 4 ≤ length buf → from_le_bytes (take 4 buf) ≡ size
    header h =
        ap from_le_bytes (
          sym (take-append_le 4 buf tail h)
          ∙ ap (λ t. take 4 t) whole
          ∙ take-append_at 4 prefix (postcard.to_bytes msg ++ rest) length-prefix)
        ∙ announced

    after_header : 4 ≤ length buf → drop 4 buf ++ tail ≡ postcard.to_bytes msg ++ rest
    after_header h =
        sym (drop-append_le 4 buf tail h)
        ∙ ap (λ t. drop 4 t) whole
        ∙ drop-append_at 4 prefix (postcard.to_bytes msg ++ rest) length-prefix

    body : 4 + size ≤ length buf → take size (drop 4 buf) ≡ postcard.to_bytes msg
    body h =
        sym (take-append_le size (drop 4 buf) tail (omega (arith, length-drop 4 buf)))
        ∙ ap (λ t. take size t) (after_header (omega arith))
        ∙ take-append (postcard.to_bytes msg) rest

    pub later : 4 + size ≤ length buf → drop (4 + size) buf ++ tail ≡ rest
    later h =
        sym (drop-append_le (4 + size) buf tail h)
        ∙ ap (λ t. drop (4 + size) t) whole
        ∙ drop-append_two 4 size prefix (postcard.to_bytes msg) rest length-prefix refl

    pub incomplete : length buf < 4 + size → try_decode postcard buf ≡ ok none
    unfolding try_decode
    incomplete h = ground (arith, header)

    pub complete : 4 + size ≤ length buf → try_decode postcard buf ≡ ok (some (msg, 4 + size))
    unfolding try_decode
    complete h = ground (arith, header, body h, codec msg)
