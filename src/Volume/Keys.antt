-- ===== src/Volume/Keys.antt =====
-- crates/clave-volume/src/keys.rs, store.rs and seal.rs: wrapped keys, the store that keeps them and
-- the sealing of a data key to a device.
pub mod Laws
use clave.Prelude.{
  ℕ, nat_eq, ◌≡◌, ◌++◌, Bytes, Option, none, some, Result, ok, err, ok_or, map_err, ◌>>=◌, Map,
  lookup, insert, remove, contains_key, codes, length, take, drop, replicate,
}
use clave.Volume.Types.{VolumeError, key_destroyed, key_unwrap, seal, Ciphers, KeyStore}

abbrev pub Dek : Type 0
Dek = Bytes

abbrev pub data_key : Dek → Bytes
data_key dek = take 32 dek

abbrev pub tweak_key : Dek → Bytes
tweak_key dek = drop 32 dek

-- `Kek::wrap`
unfoldable pub wrap : Ciphers → Bytes → Dek → Bytes
wrap c kek dek = c.kw_wrap kek dek

-- `Kek::unwrap`
unfoldable pub unwrap : Ciphers → Bytes → Bytes → Result VolumeError Dek
unwrap c kek wrapped = ok_or (c.kw_unwrap kek wrapped) key_unwrap

pub record Entry : Type 0 where
  pub kek : Bytes
  pub wrapped : Bytes

abbrev pub MemKeyStore : Type 0
MemKeyStore = Map ℕ Entry

-- `MemKeyStore::provision`
unfoldable pub provision : Ciphers → ℕ → Bytes → Dek → MemKeyStore → MemKeyStore
provision c container kek dek store =
    insert container (record { kek = kek; wrapped = wrap c kek dek }) store

-- `MemKeyStore::unwrap_dek`
unfoldable pub unwrap_dek : Ciphers → ℕ → MemKeyStore → Result VolumeError Dek
unwrap_dek c container store = do
  entry ← ok_or (lookup container store) key_destroyed
  unwrap c entry.kek entry.wrapped

-- `MemKeyStore::destroy`
unfoldable pub destroy : ℕ → MemKeyStore → MemKeyStore × Result VolumeError (Unit {0})
destroy container store = (remove container store, ok tt)

abbrev pub mem_key_store : Ciphers → KeyStore MemKeyStore
mem_key_store c = record { unwrap_dek = unwrap_dek c; has_key = contains_key; destroy = destroy }

-- X25519: the public key of a secret, if it is not refused, and the shared secret.
pub record X25519 : Type 0 where
  pub recover_public : Bytes → Option Bytes
  pub dh : Bytes → Bytes → Option Bytes

-- Both sides of an exchange get the same secret, or none.
abbrev pub Agrees : X25519 → Type 0
Agrees x =
    (a b pa pb : Bytes)
    → x.recover_public a ≡ some pa
    → x.recover_public b ≡ some pb
    → x.dh pa b ≡ x.dh pb a

pub record KeyPair : Type 0 where
  pub pk : Bytes
  pub sk : Bytes

-- `DeviceSealingKey::from_secret`
unfoldable pub from_secret : X25519 → Bytes → Result VolumeError KeyPair
from_secret x secret = do
  pk ← ok_or (x.recover_public secret) seal
  ok (record { pk = pk; sk = secret })

pub record SealedDek : Type 0 where
  pub ephemeral_pub : Bytes
  pub wrapped : Bytes

-- `derive_kek`, with SHA-256 as a parameter
unfoldable pub derive_kek : (Bytes → Bytes) → Bytes → Bytes → Bytes → Bytes
derive_kek sha256 shared ephemeral_pub device_pub =
    sha256 (codes "clave-volume/seal/v1" ++ (ephemeral_pub ++ (device_pub ++ shared)))

-- `seal_dek`, with the pair that it generates
unfoldable pub seal_dek :
    Ciphers → X25519 → (Bytes → Bytes) → Bytes → KeyPair → Dek → Result VolumeError SealedDek
seal_dek c x sha256 device_pub ephemeral dek = do
  shared ← ok_or (x.dh device_pub ephemeral.sk) seal
  let kek = derive_kek sha256 shared ephemeral.pk device_pub
  ok (record { ephemeral_pub = ephemeral.pk; wrapped = wrap c kek dek })

-- `open_dek`
unfoldable pub open_dek :
    Ciphers → X25519 → (Bytes → Bytes) → KeyPair → SealedDek → Result VolumeError Dek
open_dek c x sha256 device sealed = do
  shared ← ok_or (x.dh sealed.ephemeral_pub device.sk) seal
  unwrap c (derive_kek sha256 shared sealed.ephemeral_pub device.pk) sealed.wrapped
