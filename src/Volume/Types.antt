-- ===== src/Volume/Types.antt =====
-- crates/clave-volume/src/lib.rs and the key types and ciphers: what AES key wrap (aes_kw), XTS
-- (xts_mode over aes) and X25519 (ed25519_compact) offer. Keys are their bytes.
use clave.Prelude.{ℕ, Bool, ◌≡◌, ◌*◌, Bytes, Text, Option, some, Result, length}

pub data VolumeError : Type 0 where
  access_denied locked key_destroyed key_unwrap seal rng wipe_marker_set out_of_range misaligned :
      VolumeError
  io : Text → VolumeError

-- How a call fails: with an error value, or by a panic (a slice out of range).
pub data Fault : Type 0 where
  volume_error : VolumeError → Fault
  panic : Fault

abbrev pub dek_len : ℕ
dek_len = 64

abbrev pub sector_size : ℕ
sector_size = 4096

pub record Ciphers : Type 0 where
  -- `KekAes256::wrap` and `unwrap`: the key that wraps, and what it wraps
  pub kw_wrap : Bytes → Bytes → Bytes
  pub kw_unwrap : Bytes → Bytes → Option Bytes
  -- `Xts128::encrypt_area` and `decrypt_area` with the default tweak: the keys for data and tweak,
  -- the size of a sector, the first sector, and the area
  pub encrypt_area : Bytes → Bytes → ℕ → ℕ → Bytes → Bytes
  pub decrypt_area : Bytes → Bytes → ℕ → ℕ → Bytes → Bytes

-- Unwrapping undoes wrapping a data key, and decrypting undoes encrypting whole sectors, which keeps their length.
pub record AreCiphers (c : Ciphers) : Type 0 where
  pub unwrap_wrap :
      (kek dek : Bytes) → length dek ≡ dek_len → c.kw_unwrap kek (c.kw_wrap kek dek) ≡ some dek
  pub decrypt_encrypt :
      (bytes tweak area : Bytes) (first n : ℕ)
      → length area ≡ n * sector_size
      → c.decrypt_area bytes tweak sector_size first
          (c.encrypt_area bytes tweak sector_size first area)
        ≡ area
  pub length_encrypt :
      (bytes tweak area : Bytes) (first n : ℕ)
      → length area ≡ n * sector_size
      → length (c.encrypt_area bytes tweak sector_size first area) ≡ n * sector_size

-- `KeyStore`: the calls of a key store with state `K`. A data key is 64 bytes.
pub record KeyStore (K : Type 0) : Type 0 where
  pub unwrap_dek : ℕ → K → Result VolumeError Bytes
  pub has_key : ℕ → K → Bool
  pub destroy : ℕ → K → K × Result VolumeError (Unit {0})

-- `BackingStore`: the calls of a store of sectors with state `B`. Reading fills a buffer.
pub record BackingStore (B : Type 0) : Type 0 where
  pub read_sector : ℕ → Bytes → B → Result Fault Bytes
  pub write_sector : ℕ → Bytes → B → B × Result Fault (Unit {0})
  pub set_wipe_marker : B → B × Result Fault (Unit {0})
  pub is_wiped : B → Bool
