-- ===== src/Ipc/Frame.antt =====
-- crates/clave-ipc/src/lib.rs: a message is framed by the length of its postcard encoding, in four
-- little-endian bytes.
pub mod Laws
use clave.Prelude.{
  ℕ, ◌+◌, ◌%◌, ◌^◌, ltb, Option, none, some, ◌++◌, Bytes, Result, ok, err, ◌>>=◌, ◌>>◌, fail_if,
  to_le_bytes, from_le_bytes, length, take, drop, if◌then◌else◌,
}
use clave.Proto.External.{Postcard}

abbrev pub max_frame : ℕ
max_frame = 1048576

pub data FrameError : Type 0 where
  too_large malformed : FrameError

module _ {A : Type 0} (postcard : Postcard A) where
  -- The debug assertion on the length is not part of a release build.
  unfoldable pub encode : A → Bytes
  encode msg = let body = postcard.to_bytes msg in to_le_bytes 4 (length body % 2 ^ 32) ++ body

  abbrev delivered : ℕ → Option A → Result FrameError (Option (A × ℕ))
  delivered end none = err malformed
  delivered end (some msg) = ok (some (msg, end))

  unfoldable pub try_decode : Bytes → Result FrameError (Option (A × ℕ))
  try_decode buf =
      if ltb (length buf) 4
      then ok none
      else let len = from_le_bytes (take 4 buf) in
        if ltb max_frame len
        then err too_large
        else if ltb (length buf) (4 + len)
        then ok none
        else delivered (4 + len) (postcard.from_bytes (take len (drop 4 buf)))
