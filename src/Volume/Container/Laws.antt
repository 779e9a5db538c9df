-- ===== src/Volume/Container/Laws.antt =====
-- A sector is found where it stands, as long as its offset is no more than a machine word.
use clave.Prelude.{
  ℕ, nat_eq, ◌+◌, ◌*◌, ◌^◌, ◌≤◌, ◌<◌, ◌≡◌, ◌↔◌, ap, ◌∙◌, ◌>>=◌, arith, Bool, ◌++◌, Bytes, ok,
  length, take, drop, length-append, take-append_at, drop-append_at, drop-append_two, append_assoc,
}
use clave.Volume.Types.{sector_size}
use clave.Volume.Container.{range, read_sector, write_sector, slice}

-- For sectors below 2 ^ 52 - 1 (16 EiB), a range is given exactly for a whole sector's length and a sector that
-- lies inside the capacity, and it is then the sector's place.
pub range_iff :
    (sector len cap off end : ℕ)
    → sector + 1 < 2 ^ 52
    → cap < 2 ^ 64
    → (range sector len cap ≡ ok (off, end)) ↔ (
        (len ≡ sector_size)
        × (off ≡ sector * sector_size)
        × (end ≡ off + sector_size)
        × (end ≤ cap))
unfolding range
range_iff sector len cap off end small fits = ground arith

-- The offset wraps around: the range of a sector is also given for the number 2 ^ 52 above it.
pub range_wraps : (sector len cap : ℕ) → range (sector + 2 ^ 52) len cap ≡ range sector len cap
unfolding range
range_wraps sector len cap = ground arith

range_at :
    (s len cap : ℕ)
    → len ≡ sector_size
    → s * sector_size + sector_size ≤ cap
    → cap < 2 ^ 64
    → range s len cap ≡ ok (s * sector_size, s * sector_size + sector_size)
unfolding range
range_at s len cap l inside fits = ground arith

slice_inside :
    (off end : ℕ) (b : Bytes)
    → off ≤ end
    → end ≤ length b
    → slice (off, end) b ≡ ok (take sector_size (drop off b))
slice_inside off end b h k = ground arith

module _ (s : ℕ) (a c z buf : Bytes) (starts : length a ≡ s * sector_size)
    (whole : length c ≡ sector_size) (aligned : length buf ≡ sector_size)
    (fits : length (a ++ (c ++ z)) < 2 ^ 64) where
  inside : s * sector_size + sector_size ≤ length (a ++ (c ++ z))
  inside = omega (arith, length-append a (c ++ z), length-append c z)

  range_here :
      range s (length buf) (length (a ++ (c ++ z)))
      ≡ ok (s * sector_size, s * sector_size + sector_size)
  range_here = range_at s (length buf) (length (a ++ (c ++ z))) aligned inside fits

  slice_here : slice (s * sector_size, s * sector_size + sector_size) (a ++ (c ++ z)) ≡ ok c
  slice_here =
      slice_inside (s * sector_size) (s * sector_size + sector_size) (a ++ (c ++ z)) (omega arith)
        inside
      ∙ ap (λ t. ok (take sector_size t)) (drop-append_at (s * sector_size) a (c ++ z) starts)
      ∙ ap ok (take-append_at sector_size c z whole)

  pub read_sector_at :
      (w : Bool) → read_sector s buf (record { bytes = a ++ (c ++ z); wiped = w }) ≡ ok c
  unfolding read_sector
  read_sector_at w = ap (λ r. r >>= λ at. slice at (a ++ (c ++ z))) range_here ∙ slice_here

  pub write_sector_at :
      (w : Bool)
      → write_sector s buf (record { bytes = a ++ (c ++ z); wiped = w })
        ≡ (record { bytes = (a ++ buf) ++ z; wiped = w }, ok tt)
  unfolding write_sector
  write_sector_at w = ground (
    arith,
    range_here,
    inside,
    take-append_at (s * sector_size) a (c ++ z) starts,
    drop-append_two (s * sector_size) (length buf) a c z starts (omega arith),
    append_assoc a buf z,
  )
