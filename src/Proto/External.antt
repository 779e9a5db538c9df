-- ===== src/Proto/External.antt =====
-- What crates/clave-proto/src takes from other crates: Ed25519 signatures (ed25519_compact),
-- SHA-256 (sha2) and the postcard encoding. A key and a signature are their bytes.
use clave.Prelude.{◌≡◌, Bool, true, Option, some, Bytes, length}

pub record Ed25519 : Type 0 where
  -- `PublicKey::from_slice` and `Signature::from_slice` succeed
  pub is_public_key : Bytes → Bool
  pub is_signature : Bytes → Bool
  -- key, message, signature
  pub verifies : Bytes → Bytes → Bytes → Bool
  -- `KeyPair::from_seed(seed).pk`, and its signature of a message
  pub public_of : Bytes → Bytes
  pub sign : Bytes → Bytes → Bytes

-- A signature is accepted under the public key of the seed that made it.
pub record IsSignatureScheme (e : Ed25519) : Type 0 where
  pub public_is_key : (seed : Bytes) → e.is_public_key (e.public_of seed) ≡ true
  pub sign_is_signature : (seed m : Bytes) → e.is_signature (e.sign seed m) ≡ true
  pub sign_verifies : (seed m : Bytes) → e.verifies (e.public_of seed) m (e.sign seed m) ≡ true

-- The encoding of one type of messages. Encoding into a growing buffer does not fail.
pub record Postcard (A : Type 0) : Type 0 where
  pub to_bytes : A → Bytes
  pub from_bytes : Bytes → Option A

-- Decoding gives back what was encoded.
abbrev pub IsCodec : {A : Type 0} → Postcard A → Type 0
IsCodec {A} p = (a : A) → p.from_bytes (p.to_bytes a) ≡ some a

-- A hash function with digests of 32 bytes.
abbrev pub HasDigests : (Bytes → Bytes) → Type 0
HasDigests hash = (m : Bytes) → length (hash m) ≡ 32
