-- ===== src/Volume/Disk/Sectors.antt =====
-- The loops of the volume over the sectors of the store in memory.
use clave.Prelude.{
  ℕ, zero, suc, ◌*◌, ◌/◌, ◌%◌, ◌^◌, ◌<◌, ◌≡◌, refl, arith, ap, sym, ◌∙◌, Bool, [], ◌∷◌, ◌++◌, Bytes,
  ok, length, take, drop, length-append, length-take, length-drop, append-take-drop, append_assoc,
}
use clave.Volume.Types.{sector_size, Ciphers}
use clave.Volume.Keys.{Dek, mem_key_store}
use clave.Volume.Container.{MemBacking, mem_backing, read_sector}
use clave.Volume.Container.Laws.{read_sector_at, write_sector_at}
use clave.Volume.Disk.{
  encrypt, decrypt, next_sector, filled, after_write, read_sectors, write_sectors, read_with,
  write_with,
}

abbrev pub of_bytes : Bool → Bytes → MemBacking
of_bytes w data_bytes = record { bytes = data_bytes; wiped = w }

-- The first sector of a whole number of them, and the rest.
head_len :
    (n : ℕ) (xs : Bytes)
    → length xs ≡ suc n * sector_size
    → length (take sector_size xs) ≡ sector_size
head_len n xs h = length-take sector_size xs (omega arith)

rest_len :
    (n : ℕ) (xs : Bytes)
    → length xs ≡ suc n * sector_size
    → length (drop sector_size xs) ≡ n * sector_size
rest_len n xs h = omega (arith, length-drop sector_size xs)

-- A piece of a list is its first sector and the rest.
regroup :
    (a xs z : Bytes) → a ++ (xs ++ z) ≡ a ++ (take sector_size xs ++ (drop sector_size xs ++ z))
regroup a xs z =
    ap (λ t. a ++ (t ++ z)) (sym (append-take-drop sector_size xs))
    ∙ ap (λ t. a ++ t) (append_assoc (take sector_size xs) (drop sector_size xs) z)

regrouped_fits :
    (a xs z : Bytes)
    → length (a ++ (xs ++ z)) < 2 ^ 64
    → length (a ++ (take sector_size xs ++ (drop sector_size xs ++ z))) < 2 ^ 64
regrouped_fits a xs z h = omega (arith, ap length (regroup a xs z))

module _ (n s : ℕ) (a old z : Bytes) (la : length a ≡ s * sector_size)
    (lo : length old ≡ suc n * sector_size) (fits : length (a ++ (old ++ z)) < 2 ^ 64) where
  next_small : next_sector s ≡ suc s
  next_small = ground (arith, length-append a (old ++ z), length-append old z)

  -- The piece after one sector, with `b` in its place.
  module _ (b : Bytes) (lb : length b ≡ sector_size) where
    next_starts : length (a ++ b) ≡ suc s * sector_size
    next_starts = omega (arith, length-append a b)

    next_fits : length ((a ++ b) ++ (drop sector_size old ++ z)) < 2 ^ 64
    next_fits = omega (
      arith,
      length-append a (old ++ z),
      length-append old z,
      length-append (a ++ b) (drop sector_size old ++ z),
      length-append (drop sector_size old) z,
      length-append a b,
      rest_len n old lo,
    )

module _ (c : Ciphers) where
  -- The sectors of `old`, that stand between `a` and `z`, are overwritten by `ct`.
  pub write_sectors_lem :
      (n s : ℕ) (a old z ct : Bytes) (w : Bool)
      → length a ≡ s * sector_size
      → length old ≡ n * sector_size
      → length ct ≡ n * sector_size
      → length (a ++ (old ++ z)) < 2 ^ 64
      → write_sectors (mem_key_store c) mem_backing c n s ct (of_bytes w (a ++ (old ++ z)))
        ≡ (of_bytes w (a ++ (ct ++ z)), ok tt)
  unfolding write_sectors
  write_sectors_lem zero s a [] z [] w la lo lc fits = refl
  write_sectors_lem zero s a (_ ∷ _) z ct w la lo lc fits = ground arith
  write_sectors_lem zero s a [] z (_ ∷ _) w la lo lc fits = ground arith
  write_sectors_lem (suc n) s a old z ct w la lo lc fits =
      let here = take sector_size ct in
      let rest = drop sector_size ct in
      let lh = head_len n ct lc in
      let go = write_sectors (mem_key_store c) mem_backing c n in
      ap (λ t. write_sectors (mem_key_store c) mem_backing c (suc n) s ct (of_bytes w t))
        (regroup a old z)
      ∙ ap (λ r. after_write r (λ b. go (next_sector s) rest b))
          (write_sector_at s a (take sector_size old) (drop sector_size old ++ z) here la
            (head_len n old lo) lh (regrouped_fits a old z fits) w)
      ∙ ap (λ k. go k rest (of_bytes w ((a ++ here) ++ (drop sector_size old ++ z))))
          (next_small n s a old z la lo fits)
      ∙ write_sectors_lem n (suc s) (a ++ here) (drop sector_size old) z rest w
          (next_starts n s a old z la lo fits here lh) (rest_len n old lo) (rest_len n ct lc)
          (next_fits n s a old z la lo fits here lh)
      ∙ ap (λ t. (of_bytes w t, ok tt)) (append_assoc a here (rest ++ z) ∙ sym (regroup a ct z))

  -- The sectors of `ct`, that stand between `a` and `z`, are read.
  pub read_sectors_lem :
      (n s : ℕ) (a ct z buf : Bytes) (w : Bool)
      → length a ≡ s * sector_size
      → length ct ≡ n * sector_size
      → length buf ≡ n * sector_size
      → length (a ++ (ct ++ z)) < 2 ^ 64
      → read_sectors (mem_key_store c) mem_backing c n s buf (of_bytes w (a ++ (ct ++ z)))
        ≡ (ct, ok tt)
  unfolding read_sectors
  read_sectors_lem zero s a [] z [] w la lo lc fits = refl
  read_sectors_lem zero s a (_ ∷ _) z ct w la lo lc fits = ground arith
  read_sectors_lem zero s a [] z (_ ∷ _) w la lo lc fits = ground arith
  read_sectors_lem (suc n) s a ct z buf w la lc lb fits =
      let here = take sector_size ct in
      let rest = drop sector_size ct in
      let lh = head_len n ct lc in
      let go = read_sectors (mem_key_store c) mem_backing c n in
      let later = drop sector_size buf in
      ap (λ r. filled r buf (go (next_sector s) later (of_bytes w (a ++ (ct ++ z)))))
        (ap (λ t. read_sector s (take sector_size buf) (of_bytes w t)) (regroup a ct z)
          ∙ read_sector_at s a here (rest ++ z) (take sector_size buf) la lh (head_len n buf lb)
              (regrouped_fits a ct z fits) w)
      ∙ ap (λ k. filled (ok here) buf (go k later (of_bytes w (a ++ (ct ++ z)))))
          (next_small n s a ct z la lc fits)
      ∙ ap (λ t. filled (ok here) buf (go (suc s) later (of_bytes w t)))
          (regroup a ct z ∙ sym (append_assoc a here (rest ++ z)))
      ∙ ap (λ r. filled (ok here) buf r)
          (read_sectors_lem n (suc s) (a ++ here) rest z later w
            (next_starts n s a ct z la lc fits here lh) (rest_len n ct lc) (rest_len n buf lb)
            (next_fits n s a ct z la lc fits here lh))
      ∙ ap (λ t. (t, ok tt)) (append-take-drop sector_size ct)

  pub write_with_lem :
      (dek : Dek) (first n : ℕ) (written : Bytes) (b : MemBacking)
      → length written ≡ n * sector_size
      → write_with (mem_key_store c) mem_backing c (ok dek) first written b
        ≡ write_sectors (mem_key_store c) mem_backing c n first (encrypt c dek first written) b
  write_with_lem dek first n written b h =
      let count : length written / sector_size ≡ n = omega arith in ground arith

  pub read_with_lem :
      (dek : Dek) (first n : ℕ) (buf : Bytes) (b : MemBacking) (got : Bytes)
      → length buf ≡ n * sector_size
      → read_sectors (mem_key_store c) mem_backing c n first buf b ≡ (got, ok tt)
      → read_with (mem_key_store c) mem_backing c (ok dek) first buf b
        ≡ (decrypt c dek first got, ok tt)
  read_with_lem dek first n buf b got h k =
      let count : length buf / sector_size ≡ n = omega arith in
      let whole : length buf % sector_size ≡ 0 = omega arith in ground arith
