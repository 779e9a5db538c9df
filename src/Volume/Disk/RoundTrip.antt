-- ===== src/Volume/Disk/RoundTrip.antt =====
-- What is written to the volume in memory is read back, and nothing else changes.
use clave.Prelude.{
  ℕ, ◌+◌, ◌*◌, ◌^◌, ◌≤◌, ◌<◌, ◌≡◌, arith, ap, sym, ◌∙◌, true, some, ◌++◌, Bytes, ok, length, take,
  drop, length-append, length-take, length-drop, append-take-drop, take-append_at, drop-append_two,
}
use clave.Platform.Types.{ProcId}
use clave.Core.Zone.{is_supervised}
use clave.Volume.Types.{sector_size, Ciphers, AreCiphers}
use clave.Volume.Keys.{Dek, data_key, tweak_key, MemKeyStore, mem_key_store}
use clave.Volume.Container.{MemBacking, mem_backing}
use clave.Volume.Disk.{
  ClaveVolume, authorize, encrypt, decrypt, write_sectors, read, write, read_with, write_with,
}
use clave.Volume.Disk.Sectors.{
  of_bytes, write_sectors_lem, read_sectors_lem, write_with_lem, read_with_lem,
}

module _ (c : Ciphers) where
  -- The three parts of the store: before the written sectors, in their place, and after them.
  module _ (caller : ProcId) (first n : ℕ) (v : ClaveVolume MemKeyStore MemBacking) (dek : Dek)
      (inside : is_supervised caller v.gate ≡ true) (opened : v.cipher ≡ some dek)
      (room : (first + n) * sector_size ≤ length v.backing.bytes)
      (fits : length v.backing.bytes < 2 ^ 64) where
    abbrev before : Bytes
    before = take (first * sector_size) v.backing.bytes

    abbrev old : Bytes
    old = take (n * sector_size) (drop (first * sector_size) v.backing.bytes)

    abbrev after : Bytes
    after = drop (n * sector_size) (drop (first * sector_size) v.backing.bytes)

    parts : before ++ (old ++ after) ≡ v.backing.bytes
    parts =
        ap (λ t. before ++ t)
          (append-take-drop (n * sector_size) (drop (first * sector_size) v.backing.bytes))
        ∙ append-take-drop (first * sector_size) v.backing.bytes

    length-before : length before ≡ first * sector_size
    length-before = length-take (first * sector_size) v.backing.bytes (omega arith)

    length-old : length old ≡ n * sector_size
    length-old =
        length-take (n * sector_size) (drop (first * sector_size) v.backing.bytes)
          (omega (arith, length-drop (first * sector_size) v.backing.bytes))

    parts_fit : length (before ++ (old ++ after)) < 2 ^ 64
    parts_fit = omega (arith, ap length parts)

    authorized : authorize caller v ≡ ok dek
    unfolding authorize
    authorized = ground arith

    -- The volume with these sectors in place of the old ones.
    abbrev with_sectors : Bytes → ClaveVolume MemKeyStore MemBacking
    with_sectors ct = record v { backing = of_bytes v.backing.wiped (before ++ (ct ++ after)) }

    module _ (laws : AreCiphers c) (area : Bytes) (whole : length area ≡ n * sector_size) where
      ct_len : length (encrypt c dek first area) ≡ n * sector_size
      unfolding encrypt
      ct_len = laws.length_encrypt (data_key dek) (tweak_key dek) area first n whole

      write_lem :
          write (mem_key_store c) mem_backing c caller first area v
          ≡ (with_sectors (encrypt c dek first area), ok tt)
      unfolding write
      write_lem =
          ap (λ done. (record v { backing = done.0 }, done.1))
            (ap (λ r. write_with (mem_key_store c) mem_backing c r first area v.backing) authorized
              ∙ write_with_lem c dek first n area v.backing whole
              ∙ ap
                  (λ t.
                    write_sectors (mem_key_store c) mem_backing c n first (encrypt c dek first area)
                      (of_bytes v.backing.wiped t))
                  (sym parts)
              ∙ write_sectors_lem c n first before old after (encrypt c dek first area)
                  v.backing.wiped length-before length-old ct_len parts_fit)

      same_len : length (before ++ (encrypt c dek first area ++ after)) ≡ length v.backing.bytes
      same_len = omega (
        arith,
        length-append before (encrypt c dek first area ++ after),
        length-append (encrypt c dek first area) after,
        length-append before (old ++ after),
        length-append old after,
        ap length parts,
        ct_len,
        length-old,
      )

      read_lem :
          (buf : Bytes)
          → length buf ≡ n * sector_size
          → read
              (mem_key_store c)
              mem_backing
              c
              caller
              first
              buf
              (with_sectors (encrypt c dek first area))
            ≡ (area, ok tt)
      unfolding read decrypt encrypt
      read_lem buf h =
          ap
            (λ r.
              read_with (mem_key_store c) mem_backing c r first buf
                (of_bytes v.backing.wiped (before ++ (encrypt c dek first area ++ after))))
            authorized
          ∙ read_with_lem c dek first n buf
              (of_bytes v.backing.wiped (before ++ (encrypt c dek first area ++ after)))
              (encrypt c dek first area) h
              (read_sectors_lem c n first before (encrypt c dek first area) after buf
                v.backing.wiped length-before ct_len h (omega (arith, same_len)))
          ∙ ap (λ t. (t, ok tt))
              (laws.decrypt_encrypt (data_key dek) (tweak_key dek) area first n whole)

-- With ciphers whose decryption undoes their encryption: a supervised caller's write of whole sectors to
-- an unlocked volume in memory, inside its size of less than 2 ^ 64 bytes, succeeds, and the same caller
-- then reads from the same place what was written. The bytes of the store before and after the written
-- sectors are as they were.
pub read-write :
    (c : Ciphers) (laws : AreCiphers c) (caller : ProcId) (first n : ℕ)
    (v : ClaveVolume MemKeyStore MemBacking) (dek : Dek) (area buf : Bytes)
    → is_supervised caller v.gate ≡ true
    → v.cipher ≡ some dek
    → (first + n) * sector_size ≤ length v.backing.bytes
    → length v.backing.bytes < 2 ^ 64
    → length area ≡ n * sector_size
    → length buf ≡ n * sector_size
    → ((write (mem_key_store c) mem_backing c caller first area v).1 ≡ ok tt)
      × (read
            (mem_key_store c)
            mem_backing
            c
            caller
            first
            buf
            (write (mem_key_store c) mem_backing c caller first area v).0
          ≡ (area, ok tt))
      × (take
            (first * sector_size)
            (write (mem_key_store c) mem_backing c caller first area v).0.backing.bytes
          ≡ take (first * sector_size) v.backing.bytes)
      × (drop
            (first * sector_size + n * sector_size)
            (write (mem_key_store c) mem_backing c caller first area v).0.backing.bytes
          ≡ drop (first * sector_size + n * sector_size) v.backing.bytes)
read-write c laws caller first n v dek area buf inside opened room fits la lb =
    let wrote = write_lem c caller first n v dek inside opened room fits laws area la in
    let ct = encrypt c dek first area in
    let lc = ct_len c caller first n v dek inside opened room fits laws area la in
    let start = length-before c caller first n v dek inside opened room fits in
    let a = before c caller first n v dek inside opened room fits in
    let o = old c caller first n v dek inside opened room fits in
    let z = after c caller first n v dek inside opened room fits in
    (
      ap (λ p. p.1) wrote,
      ap (λ p. read (mem_key_store c) mem_backing c caller first buf p.0) wrote
          ∙ read_lem c caller first n v dek inside opened room fits laws area la buf lb,
      ap (λ p. take (first * sector_size) p.0.backing.bytes) wrote
          ∙ take-append_at (first * sector_size) a (ct ++ z) start,
      ap (λ p. drop (first * sector_size + n * sector_size) p.0.backing.bytes) wrote
          ∙ drop-append_two (first * sector_size) (n * sector_size) a ct z start lc
          ∙ sym (
              drop-append_two (first * sector_size) (n * sector_size) a o z start
                (length-old c caller first n v dek inside opened room fits))
          ∙ ap (λ t. drop (first * sector_size + n * sector_size) t)
              (parts c caller first n v dek inside opened room fits),
    )
