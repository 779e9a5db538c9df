-- ===== src/Volume/Disk/Laws.antt =====
-- Who reads and writes the volume, and that a wipe is final.
use clave.Prelude.{
  ℕ, nat_eq, ◌%◌, ◌≡◌, refl, arith, ap, ◌∙◌, ◌/◌, is_some, true, false, none, List, [], ◌∷◌, Bytes,
  Result, ok, err, length, lookup-remove, zero, suc, take, drop,
}
use clave.Platform.Types.{ProcId}
use clave.Core.Zone.{ZoneRegistry, is_supervised}
use clave.Volume.Types.{
  VolumeError, access_denied, locked, wipe_marker_set, Fault, volume_error, sector_size, Ciphers,
  KeyStore, BackingStore,
}
use clave.Volume.Keys.{Dek, mem_key_store, destroy}
use clave.Volume.Container.{mem_backing, MemBacking, write_sector, overwrite, range}
use clave.Volume.Disk.{
  ClaveVolume, is_unlocked, lock, authorize, unlock, after_write, read, write_sectors, encrypt,
  write, read_with, write_with, destroyed, wipe, next_sector,
}

-- A destroyed key is gone.
pub record IsKeyStore {K : Type 0} (ks : KeyStore K) : Type 0 where
  pub destroys :
      (id : ℕ) (k : K) → (ks.destroy id k).1 ≡ ok tt → ks.has_key id (ks.destroy id k).0 ≡ false

-- The wipe marker is set, and stays when sectors are written.
pub record IsBackingStore {B : Type 0} (bs : BackingStore B) : Type 0 where
  pub marks :
      (b : B) → (bs.set_wipe_marker b).1 ≡ ok tt → bs.is_wiped (bs.set_wipe_marker b).0 ≡ true
  pub keeps_set : (b : B) → bs.is_wiped b ≡ true → bs.is_wiped (bs.set_wipe_marker b).0 ≡ true
  pub keeps_mark :
      (s : ℕ) (buf : Bytes) (b : B) → bs.is_wiped (bs.write_sector s buf b).0 ≡ bs.is_wiped b

pub mem_key_store-IsKeyStore : (c : Ciphers) → IsKeyStore (mem_key_store c)
unfolding destroy
mem_key_store-IsKeyStore c = record { destroys = λ id k h. ground (arith, lookup-remove id id k) }

overwrite-wiped :
    (buf : Bytes) (b : MemBacking) (r : Result Fault (ℕ × ℕ))
    → (overwrite buf b r).0.wiped ≡ b.wiped
overwrite-wiped buf b (err e) = refl
overwrite-wiped buf b (ok (off, end)) = ground arith

pub mem_backing-IsBackingStore : IsBackingStore mem_backing
unfolding write_sector
mem_backing-IsBackingStore = record {
  marks = λ b h. refl;
  keeps_set = λ b h. refl;
  keeps_mark = λ s buf b. overwrite-wiped buf b (range s (length buf) (length b.bytes));
}

module _ {K B : Type 0} where
  authorize_denied :
      (caller : ProcId) (v : ClaveVolume K B)
      → is_supervised caller v.gate ≡ false
      → authorize caller v ≡ err (volume_error access_denied)
  unfolding authorize
  authorize_denied caller v h = ground arith

  authorize-locked :
      (caller : ProcId) (v : ClaveVolume K B)
      → is_supervised caller v.gate ≡ true
      → is_unlocked v ≡ false
      → authorize caller v ≡ err (volume_error locked)
  unfolding authorize
  authorize-locked caller v h k = ground arith

  authorize_ok :
      (caller : ProcId) (v : ClaveVolume K B) (dek : Dek)
      → authorize caller v ≡ ok dek
      → (is_supervised caller v.gate ≡ true) × (is_unlocked v ≡ true)
  unfolding authorize
  authorize_ok caller v dek h = (ground arith, ground arith)

module _ {K B : Type 0} (ks : KeyStore K) (bs : BackingStore B) (c : Ciphers) where
  read_with_ok :
      (r : Result Fault Dek) (first : ℕ) (buf : Bytes) (b : B)
      → (read_with ks bs c r first buf b).1 ≡ ok tt
      → (dek : Dek) × (r ≡ ok dek) × (length buf % sector_size ≡ 0)
  read_with_ok (err e) first buf b h = ground arith
  read_with_ok (ok dek) first buf b h = (dek, refl, ground arith)

  refused :
      (caller : ProcId) (first : ℕ) (buf : Bytes) (v : ClaveVolume K B) (e : Fault)
      → authorize caller v ≡ err e
      → (read ks bs c caller first buf v ≡ (buf, err e))
        × (write ks bs c caller first buf v ≡ (v, err e))
  unfolding read write
  refused caller first buf v e h = (
    ap (λ r. read_with ks bs c r first buf v.backing) h,
    ap
        (λ r.
          let done = write_with ks bs c r first buf v.backing in
          (record v { backing = done.0 }, done.1))
        h,
  )

  -- A caller outside the registry is denied reads and writes, locked or not, and its buffer and the
  -- volume stay as they were.
  pub outsider_denied :
      (caller : ProcId) (first : ℕ) (buf : Bytes) (v : ClaveVolume K B)
      → is_supervised caller v.gate ≡ false
      → (read ks bs c caller first buf v ≡ (buf, err (volume_error access_denied)))
        × (write ks bs c caller first buf v ≡ (v, err (volume_error access_denied)))
  outsider_denied caller first buf v h =
      refused caller first buf v (volume_error access_denied) (authorize_denied caller v h)

  -- A supervised caller finds a locked volume locked, for reads and writes, and its buffer and the
  -- volume stay as they were.
  pub locked_refused :
      (caller : ProcId) (first : ℕ) (buf : Bytes) (v : ClaveVolume K B)
      → is_supervised caller v.gate ≡ true
      → is_unlocked v ≡ false
      → (read ks bs c caller first buf v ≡ (buf, err (volume_error locked)))
        × (write ks bs c caller first buf v ≡ (v, err (volume_error locked)))
  locked_refused caller first buf v h k =
      refused caller first buf v (volume_error locked) (authorize-locked caller v h k)

  -- A read that succeeds was by a supervised caller, of an unlocked volume, into a buffer of whole sectors.
  pub read_ok :
      (caller : ProcId) (first : ℕ) (buf : Bytes) (v : ClaveVolume K B)
      → (read ks bs c caller first buf v).1 ≡ ok tt
      → (is_supervised caller v.gate ≡ true)
        × (is_unlocked v ≡ true)
        × (length buf % sector_size ≡ 0)
  unfolding read
  read_ok caller first buf v h =
      let (dek, opened, aligned) = read_with_ok (authorize caller v) first buf v.backing h in
      let (inside, unlocked) = authorize_ok caller v dek opened in (inside, unlocked, aligned)

module _ {K B : Type 0} (ks : KeyStore K) (bs : BackingStore B) (c : Ciphers) where
  -- A call of the volume, or a change of the registry that it shares.
  pub data Op : Type 0 where
    lock_op unlock_op wipe_op : Op
    read_op write_op : (caller : ProcId) (first : ℕ) (buf : Bytes) → Op
    rezone_op : (zones : ZoneRegistry) → Op

  unfoldable pub step : Op → ClaveVolume K B → ClaveVolume K B
  unfolding unlock write wipe
  step lock_op v = lock v
  step unlock_op v = (unlock ks bs c v).0
  step wipe_op v = (wipe ks bs c v).0
  step (read_op caller first buf) v = v
  step (write_op caller first buf) v = (write ks bs c caller first buf v).0
  step (rezone_op zones) v = record v { gate = zones }

  unfoldable pub run : List Op → ClaveVolume K B → ClaveVolume K B
  unfolding step
  run [] v = v
  run (op ∷ ops) v = run ops (step op v)

  -- Wiped: marked as such, and locked.
  abbrev pub IsDead : ClaveVolume K B → Type 0
  IsDead v = (bs.is_wiped v.backing ≡ true) × (v.cipher ≡ none)

  module _ (marks : IsBackingStore bs) where
    write_sectors-wiped :
        (n s : ℕ) (ct : Bytes) (b : B)
        → bs.is_wiped (write_sectors ks bs c n s ct b).0 ≡ bs.is_wiped b
    unfolding write_sectors
    write_sectors-wiped zero s ct b = refl
    write_sectors-wiped (suc n) s ct b =
        by_write (bs.write_sector s (take sector_size ct) b) refl
          (λ b'. write_sectors-wiped n (next_sector s) (drop sector_size ct) b')
      where
        by_write :
            (r : B × Result Fault (Unit {0}))
            → bs.write_sector s (take sector_size ct) b ≡ r
            → ((b' : B)
                → bs.is_wiped (write_sectors ks bs c n (next_sector s) (drop sector_size ct) b').0
                  ≡ bs.is_wiped b')
            → bs.is_wiped
                (after_write r
                  (λ b'. write_sectors ks bs c n (next_sector s) (drop sector_size ct) b')).0
              ≡ bs.is_wiped b
        by_write (b', err e) h rest = ground (arith, marks.keeps_mark s (take sector_size ct) b)
        by_write (b', ok _) h rest =
            ground (arith, marks.keeps_mark s (take sector_size ct) b, rest b')

    write_with-wiped :
        (r : Result Fault Dek) (first : ℕ) (buf : Bytes) (b : B)
        → bs.is_wiped (write_with ks bs c r first buf b).0 ≡ bs.is_wiped b
    write_with-wiped (err e) first buf b = refl
    write_with-wiped (ok dek) first buf b =
        ground
          (arith, write_sectors-wiped (length buf / sector_size) first (encrypt c dek first buf) b)

    pub unlock_dead :
        (v : ClaveVolume K B)
        → IsDead v
        → unlock ks bs c v ≡ (v, err (volume_error wipe_marker_set))
    unfolding unlock
    unlock_dead v (marked_so, shut) = ground arith

    marked-IsDead :
        (v : ClaveVolume K B) (r : K × Result VolumeError (Unit {0}))
        → v.cipher ≡ none
        → (destroyed ks bs c v r).1 ≡ ok tt
        → IsDead (destroyed ks bs c v r).0
    marked-IsDead v (k, err e) shut h = ground arith
    marked-IsDead v (k, ok _) shut h = (marks.marks v.backing h, shut)

    still-IsDead :
        (v : ClaveVolume K B) (r : K × Result VolumeError (Unit {0}))
        → IsDead v
        → IsDead (destroyed ks bs c v r).0
    still-IsDead v (k, err e) dead = dead
    still-IsDead v (k, ok _) dead = (marks.keeps_set v.backing dead.0, dead.1)

    pub wiped-IsDead :
        (v : ClaveVolume K B) → (wipe ks bs c v).1 ≡ ok tt → IsDead (wipe ks bs c v).0
    unfolding wipe
    wiped-IsDead v h = marked-IsDead (lock v) (ks.destroy v.container v.keystore) refl h

    pub step-IsDead : (op : Op) (v : ClaveVolume K B) → IsDead v → IsDead (step op v)
    unfolding step write wipe
    step-IsDead lock_op v dead = (dead.0, refl)
    step-IsDead unlock_op v dead = ground (arith, unlock_dead v dead)
    step-IsDead wipe_op v dead =
        still-IsDead (lock v) (ks.destroy v.container v.keystore) (dead.0, refl)
    step-IsDead (read_op caller first buf) v dead = dead
    step-IsDead (write_op caller first buf) v dead =
        (write_with-wiped (authorize caller v) first buf v.backing ∙ dead.0, dead.1)
    step-IsDead (rezone_op zones) v dead = dead

    run-IsDead : (ops : List Op) (v : ClaveVolume K B) → IsDead v → IsDead (run ops v)
    unfolding run
    run-IsDead [] v dead = dead
    run-IsDead (op ∷ ops) v dead = run-IsDead ops (step op v) (step-IsDead op v dead)

    destroyed_key :
        (v : ClaveVolume K B) (r : K × Result VolumeError (Unit {0}))
        → (destroyed ks bs c v r).1 ≡ ok tt
        → ((destroyed ks bs c v r).0.keystore ≡ r.0) × (r.1 ≡ ok tt)
    destroyed_key v (k, err e) h = ground arith
    destroyed_key v (k, ok _) h = (refl, refl)

    wipe_destroys :
        IsKeyStore ks
        → (v : ClaveVolume K B) → (wipe ks bs c v).1 ≡ ok tt
        → ks.has_key v.container (wipe ks bs c v).0.keystore ≡ false
    unfolding wipe
    wipe_destroys keys v h =
        let (kept, done) = destroyed_key (lock v) (ks.destroy v.container v.keystore) h in
        ap (λ k. ks.has_key v.container k) kept ∙ keys.destroys v.container v.keystore done

    -- Over a key store that forgets what is destroyed and a backing store whose wipe marker lasts: a wipe
    -- that succeeds has destroyed the container's key, and no sequence of further calls and registry
    -- changes gets the volume unlocked.
    pub wipe_is_final :
        IsKeyStore ks
        → (v : ClaveVolume K B) (ops : List Op) → (wipe ks bs c v).1 ≡ ok tt
        → (ks.has_key v.container (wipe ks bs c v).0.keystore ≡ false)
          × (is_unlocked (run ops (wipe ks bs c v).0) ≡ false)
          × (unlock ks bs c (run ops (wipe ks bs c v).0)
              ≡ (run ops (wipe ks bs c v).0, err (volume_error wipe_marker_set)))
    wipe_is_final keys v ops h =
        let dead = run-IsDead ops (wipe ks bs c v).0 (wiped-IsDead v h) in
        (wipe_destroys keys v h, ap is_some dead.1, unlock_dead (run ops (wipe ks bs c v).0) dead)
