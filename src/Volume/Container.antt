-- ===== src/Volume/Container.antt =====
-- crates/clave-volume/src/container.rs: a backing store in memory. A sector's offset is computed in a
-- `usize` of 64 bits, which wraps around in a release build.
pub mod Laws
use clave.Prelude.{
  ℕ, nat_eq, ◌==◌, ◌+◌, ◌*◌, ◌%◌, ◌^◌, Bool, true, false, not, ◌||◌, List, ◌++◌, Bytes, Result, ok,
  err, ◌>>=◌, ◌>>◌, fail_if, ltb, length, take, drop, replicate, if◌then◌else◌, if◌then◌else◌,
}
use clave.Volume.Types.{
  VolumeError, misaligned, out_of_range, Fault, volume_error, panic, sector_size, BackingStore,
}

pub record MemBacking : Type 0 where
  pub bytes : Bytes
  pub wiped : Bool

-- `MemBacking::zeroed`
abbrev pub zeroed : ℕ → MemBacking
zeroed sectors = record { bytes = replicate (sectors * sector_size) 0; wiped = false }

-- `MemBacking::range`
unfoldable pub range : ℕ → ℕ → ℕ → Result Fault (ℕ × ℕ)
range sector len cap = do
  fail_if (not (len == sector_size)) (volume_error misaligned)
  let off = (sector * sector_size) % (2 ^ 64)
  let end = (off + sector_size) % (2 ^ 64)
  fail_if (ltb cap end) (volume_error out_of_range)
  ok (off, end)

-- `data[off..end]`
abbrev pub slice : ℕ × ℕ → Bytes → Result Fault Bytes
slice (off, end) bytes = do
  fail_if (ltb end off || ltb (length bytes) end) panic
  ok (take sector_size (drop off bytes))

-- `data[off..].copy_from_slice(buf)`, for the length of `buf`
abbrev pub splice : ℕ → Bytes → Bytes → Bytes
splice off buf bytes = take off bytes ++ (buf ++ drop (off + length buf) bytes)

-- `MemBacking::read_sector`: what the buffer then holds
unfoldable pub read_sector : ℕ → Bytes → MemBacking → Result Fault Bytes
unfolding range
read_sector sector buf b = do at ← range sector (length buf) (length b.bytes); slice at b.bytes

abbrev pub overwrite :
    Bytes → MemBacking → Result Fault (ℕ × ℕ) → MemBacking × Result Fault (Unit {0})
overwrite buf b (err e) = (b, err e)
overwrite buf b (ok (off, end)) =
    if ltb end off
    then (b, err panic)
    else (record { bytes = splice off buf b.bytes; wiped = b.wiped }, ok tt)

-- `MemBacking::write_sector`
unfoldable pub write_sector : ℕ → Bytes → MemBacking → MemBacking × Result Fault (Unit {0})
unfolding range
write_sector sector buf b = overwrite buf b (range sector (length buf) (length b.bytes))

-- `MemBacking::set_wipe_marker`
abbrev pub set_wipe_marker : MemBacking → MemBacking × Result Fault (Unit {0})
set_wipe_marker b = (record { bytes = b.bytes; wiped = true }, ok tt)

abbrev pub mem_backing : BackingStore MemBacking
mem_backing = record {
  read_sector = read_sector;
  write_sector = write_sector;
  set_wipe_marker = set_wipe_marker;
  is_wiped = λ b. b.wiped;
}
