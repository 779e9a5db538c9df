-- ===== src/Volume/Disk.antt =====
-- crates/clave-volume/src/volume.rs: the volume over any key store and any backing store. The gate
-- is the registry of supervised processes.
pub mod Laws
pub mod Sectors
pub mod RoundTrip
use clave.Prelude.{
  ℕ, nat_eq, ◌==◌, ◌+◌, ◌*◌, ◌/◌, ◌%◌, ◌^◌, Bool, true, false, not, Option, none, some, List, [],
  ◌++◌, Bytes, Result, ok, err, ◌>>=◌, ◌>>◌, fail_if, ok_or, map_err, is_some, zero, suc, length,
  take, drop, if◌then◌else◌,
}
use clave.Platform.Types.{ProcId}
use clave.Core.Zone.{ZoneRegistry, is_supervised}
use clave.Volume.Types.{
  VolumeError, access_denied, locked, key_destroyed, wipe_marker_set, misaligned, Fault,
  volume_error, sector_size, Ciphers, KeyStore, BackingStore,
}
use clave.Volume.Keys.{Dek, data_key, tweak_key}

-- `first_sector + i`, in a `u64` that wraps around
abbrev pub next_sector : ℕ → ℕ
next_sector s = (s + 1) % (2 ^ 64)

pub record ClaveVolume (K B : Type 0) : Type 0 where
  pub container : ℕ
  pub key_version : ℕ
  pub keystore : K
  pub backing : B
  pub gate : ZoneRegistry
  -- The data key that the cipher was made of.
  pub cipher : Option Dek

module _ (c : Ciphers) where
  -- `XtsCipher::encrypt`
  unfoldable pub encrypt : Dek → ℕ → Bytes → Bytes
  encrypt dek first area = c.encrypt_area (data_key dek) (tweak_key dek) sector_size first area

  -- `XtsCipher::decrypt`
  unfoldable pub decrypt : Dek → ℕ → Bytes → Bytes
  decrypt dek first area = c.decrypt_area (data_key dek) (tweak_key dek) sector_size first area

abbrev pub filled :
    Result Fault Bytes → Bytes → Bytes × Result Fault (Unit {0}) → Bytes × Result Fault (Unit {0})
filled (err e) buf rest = (buf, err e)
filled (ok got) buf rest = (got ++ rest.0, rest.1)

module _ {B : Type 0} where
  abbrev pub after_write :
      B × Result Fault (Unit {0}) → (B → B × Result Fault (Unit {0})) → B × Result Fault (Unit {0})
  after_write (b, err e) rest = (b, err e)
  after_write (b, ok _) rest = rest b

module _ {K B : Type 0} where
  -- `ClaveVolume::new`
  abbrev pub new : ℕ → ℕ → K → B → ZoneRegistry → ClaveVolume K B
  new id version ks b zones = record {
    container = id;
    key_version = version;
    keystore = ks;
    backing = b;
    gate = zones;
    cipher = none;
  }

  abbrev pub is_unlocked : ClaveVolume K B → Bool
  is_unlocked v = is_some v.cipher

  abbrev pub with_cipher : Option Dek → ClaveVolume K B → ClaveVolume K B
  with_cipher d v = record v { cipher = d }

  -- `ClaveVolume::lock`
  abbrev pub lock : ClaveVolume K B → ClaveVolume K B
  lock v = with_cipher none v

  -- `ClaveVolume::authorize`
  unfoldable pub authorize : ProcId → ClaveVolume K B → Result Fault Dek
  unfolding is_supervised
  authorize caller v = do
    fail_if (not (is_supervised caller v.gate)) (volume_error access_denied)
    ok_or v.cipher (volume_error locked)

module _ {K B : Type 0} (ks : KeyStore K) (bs : BackingStore B) (c : Ciphers) where
  abbrev pub mount :
      ClaveVolume K B → Result VolumeError Dek → ClaveVolume K B × Result Fault (Unit {0})
  mount v (err e) = (v, err (volume_error e))
  mount v (ok dek) = (with_cipher (some dek) v, ok tt)

  -- `ClaveVolume::unlock`
  unfoldable pub unlock : ClaveVolume K B → ClaveVolume K B × Result Fault (Unit {0})
  unlock v =
      if bs.is_wiped v.backing
      then (v, err (volume_error wipe_marker_set))
      else if not (ks.has_key v.container v.keystore)
      then (v, err (volume_error key_destroyed))
      else mount v (ks.unwrap_dek v.container v.keystore)

  -- The loop of `read` over the sectors of the buffer: what the buffer then holds
  unfoldable pub read_sectors : ℕ → ℕ → Bytes → B → Bytes × Result Fault (Unit {0})
  read_sectors zero s buf b = (buf, ok tt)
  read_sectors (suc n) s buf b =
      filled (bs.read_sector s (take sector_size buf) b) buf
        (read_sectors n (next_sector s) (drop sector_size buf) b)

  -- The loop of `write` over the sectors of the ciphertext
  unfoldable pub write_sectors : ℕ → ℕ → Bytes → B → B × Result Fault (Unit {0})
  write_sectors zero s ct b = (b, ok tt)
  write_sectors (suc n) s ct b =
      after_write (bs.write_sector s (take sector_size ct) b)
        (λ b'. write_sectors n (next_sector s) (drop sector_size ct) b')

  abbrev pub decrypted : Dek → ℕ → Bytes × Result Fault (Unit {0}) → Bytes × Result Fault (Unit {0})
  decrypted dek first (buf, err e) = (buf, err e)
  decrypted dek first (buf, ok u) = (decrypt c dek first buf, ok u)

  abbrev pub read_with : Result Fault Dek → ℕ → Bytes → B → Bytes × Result Fault (Unit {0})
  read_with (err e) first out b = (out, err e)
  read_with (ok dek) first out b =
      if not (length out % sector_size == 0)
      then (out, err (volume_error misaligned))
      else decrypted dek first (read_sectors (length out / sector_size) first out b)

  -- `ClaveVolume::read`: what the caller's buffer then holds
  unfoldable pub read : ProcId → ℕ → Bytes → ClaveVolume K B → Bytes × Result Fault (Unit {0})
  unfolding authorize read_sectors
  read caller first out v = read_with (authorize caller v) first out v.backing

  abbrev pub write_with : Result Fault Dek → ℕ → Bytes → B → B × Result Fault (Unit {0})
  write_with (err e) first bytes b = (b, err e)
  write_with (ok dek) first bytes b =
      if not (length bytes % sector_size == 0)
      then (b, err (volume_error misaligned))
      else write_sectors (length bytes / sector_size) first (encrypt c dek first bytes) b

  -- `ClaveVolume::write`
  unfoldable pub write :
      ProcId → ℕ → Bytes → ClaveVolume K B → ClaveVolume K B × Result Fault (Unit {0})
  unfolding authorize write_sectors encrypt
  write caller first bytes v =
      let done = write_with (authorize caller v) first bytes v.backing in
      (record v { backing = done.0 }, done.1)

  abbrev pub marked :
      ClaveVolume K B → B × Result Fault (Unit {0}) → ClaveVolume K B × Result Fault (Unit {0})
  marked v (b, r) = (record v { backing = b }, r)

  abbrev pub destroyed :
      ClaveVolume K B
      → K × Result VolumeError (Unit {0})
      → ClaveVolume K B × Result Fault (Unit {0})
  destroyed v (k, err e) = (record v { keystore = k }, err (volume_error e))
  destroyed v (k, ok _) = marked (record v { keystore = k }) (bs.set_wipe_marker v.backing)

  -- `ClaveVolume::wipe`
  unfoldable pub wipe : ClaveVolume K B → ClaveVolume K B × Result Fault (Unit {0})
  wipe v = destroyed (lock v) (ks.destroy v.container v.keystore)
