-- ===== src/Volume/Tests.antt =====
-- A volume of two sectors, with ciphers that change nothing, which satisfies the laws.
use clave.Prelude.{
  ℕ, nat_eq, ◌+◌, ◌*◌, ◌^◌, ◌≡◌, refl, arith, false, some, List, [], ◌∷◌, Bytes, ok, err, take,
  drop, replicate, length-replicate, contains_key, lookup,
}
use clave.Platform.Types.{ProcId, windows}
use clave.Core.Zone.{ZoneRegistry, launcher, is_supervised}
use clave.Volume.Types.{
  access_denied, wipe_marker_set, volume_error, sector_size, Ciphers, AreCiphers,
}
use clave.Volume.Keys.{Dek, unwrap, MemKeyStore, mem_key_store, unwrap_dek, destroy}
use clave.Volume.Container.{MemBacking, mem_backing, zeroed, range}
use clave.Volume.Container.Laws.{range_wraps}
use clave.Volume.Disk.{ClaveVolume, new, with_cipher, is_unlocked, unlock, read, write, wipe}
use clave.Volume.Disk.Laws.{
  mem_key_store-IsKeyStore, mem_backing-IsBackingStore, Op, lock_op, unlock_op, write_op, rezone_op,
  run, wipe_is_final,
}
use clave.Volume.Disk.RoundTrip.{read-write}

abbrev plain : Ciphers
plain = record {
  kw_wrap = λ kek dek. dek;
  kw_unwrap = λ kek wrapped. some wrapped;
  encrypt_area = λ k t size first area. area;
  decrypt_area = λ k t size first area. area;
}

plain_laws : AreCiphers plain
plain_laws = record {
  unwrap_wrap = λ kek dek h. refl;
  decrypt_encrypt = λ k t area first n h. refl;
  length_encrypt = λ k t area first n h. h;
}

abbrev key : Dek
key = replicate 64 22

abbrev worker : ProcId
worker = windows 1 1

abbrev zones : ZoneRegistry
zones = record { members = (worker, record { id = worker; reason = launcher }) ∷ [] }

abbrev disk : ClaveVolume MemKeyStore MemBacking
disk = new 5 1 ((5, record { kek = []; wrapped = key }) ∷ []) (zeroed 2) zones

abbrev open_disk : ClaveVolume MemKeyStore MemBacking
open_disk = with_cipher (some key) disk

unlock_run : unlock (mem_key_store plain) mem_backing plain disk ≡ (open_disk, ok tt)
unfolding unlock unwrap_dek unwrap lookup
unlock_run = refl

outsider_is_denied :
    (read (mem_key_store plain) mem_backing plain (windows 2 1) 0 (7 ∷ []) open_disk
      ≡ (7 ∷ [], err (volume_error access_denied)))
    × (write (mem_key_store plain) mem_backing plain (windows 2 1) 0 (7 ∷ []) open_disk
        ≡ (open_disk, err (volume_error access_denied)))
unfolding is_supervised lookup read write
outsider_is_denied = (refl, refl)

abbrev later : List (Op (mem_key_store plain) mem_backing plain)
later = unlock_op ∷ rezone_op zones ∷ write_op worker 0 [] ∷ lock_op ∷ unlock_op ∷ []

wipe_is_final_example :
    (contains_key 5 (wipe (mem_key_store plain) mem_backing plain open_disk).0.keystore ≡ false)
    × (is_unlocked (
          run
            (mem_key_store plain)
            mem_backing
            plain
            later
            (wipe (mem_key_store plain) mem_backing plain open_disk).0)
        ≡ false)
    × (unlock (mem_key_store plain) mem_backing plain (
          run
            (mem_key_store plain)
            mem_backing
            plain
            later
            (wipe (mem_key_store plain) mem_backing plain open_disk).0)
        ≡ (
          run
              (mem_key_store plain)
              mem_backing
              plain
              later
              (wipe (mem_key_store plain) mem_backing plain open_disk).0,
          err (volume_error wipe_marker_set),
        ))
unfolding wipe destroy
wipe_is_final_example =
    wipe_is_final (mem_key_store plain) mem_backing plain mem_backing-IsBackingStore
      (mem_key_store-IsKeyStore plain) open_disk later refl

abbrev note : Bytes
note = replicate 4096 66

abbrev blank : Bytes
blank = replicate 4096 0

read-write_example :
    ((write (mem_key_store plain) mem_backing plain worker 1 note open_disk).1 ≡ ok tt)
    × (read
          (mem_key_store plain)
          mem_backing
          plain
          worker
          1
          blank
          (write (mem_key_store plain) mem_backing plain worker 1 note open_disk).0
        ≡ (note, ok tt))
    × (take
          (1 * sector_size)
          (write (mem_key_store plain) mem_backing plain worker 1 note open_disk).0.backing.bytes
        ≡ take (1 * sector_size) open_disk.backing.bytes)
    × (drop
          (1 * sector_size + 1 * sector_size)
          (write (mem_key_store plain) mem_backing plain worker 1 note open_disk).0.backing.bytes
        ≡ drop (1 * sector_size + 1 * sector_size) open_disk.backing.bytes)
unfolding is_supervised lookup
read-write_example =
    read-write plain plain_laws worker 1 1 open_disk key note blank refl refl
      (omega (arith, length-replicate {A = ℕ} 8192 0))
      (omega (arith, length-replicate {A = ℕ} 8192 0)) (length-replicate {A = ℕ} 4096 66)
      (length-replicate {A = ℕ} 4096 0)

range_wraps_example : range (1 + 2 ^ 52) 4096 8192 ≡ range 1 4096 8192
range_wraps_example = range_wraps 1 4096 8192
