-- ===== src/Volume/Keys/Laws.antt =====
-- What is wrapped is unwrapped: in the key store, and over a sealed key.
use clave.Prelude.{
  ℕ, nat_eq, ◌≡◌, ◌≢◌, refl, arith, false, Bytes, Option, none, some, ok, err, lookup-insert,
  lookup-remove, contains_key, length,
}
use clave.Volume.Types.{key_destroyed, Ciphers, AreCiphers, dek_len}
use clave.Volume.Keys.{
  Dek, wrap, unwrap, Entry, MemKeyStore, provision, unwrap_dek, destroy, X25519, Agrees, KeyPair,
  SealedDek, seal_dek, open_dek, derive_kek,
}

module _ (c : Ciphers) (laws : AreCiphers c) where
  -- With a key wrap that unwraps what it wrapped: after `provision` with a key of 64 bytes, the container's
  -- key is unwrapped and each other container has the key that it had; after `destroy`, the container has
  -- no key and each other container still has its own.
  pub provision_destroy :
      (id other : ℕ) (kek : Bytes) (dek : Dek) (store : MemKeyStore)
      → length dek ≡ dek_len
      → other ≢ id
      → (unwrap_dek c id (provision c id kek dek store) ≡ ok dek)
        × (unwrap_dek c other (provision c id kek dek store) ≡ unwrap_dek c other store)
        × (unwrap_dek c id ((destroy id store).0) ≡ err key_destroyed)
        × (contains_key id ((destroy id store).0) ≡ false)
        × (unwrap_dek c other ((destroy id store).0) ≡ unwrap_dek c other store)
  unfolding unwrap_dek provision destroy unwrap wrap
  provision_destroy id other kek dek store h ne =
      let new : Entry = record { kek = kek; wrapped = wrap c kek dek } in
      let back = laws.unwrap_wrap kek dek h in
      let there = lookup-insert id id new store in
      let apart = lookup-insert id other new store in
      let gone = lookup-remove id id store in
      let kept = lookup-remove id other store in
      (ground arith, ground arith, ground arith, ground arith, ground arith)

  module _ (x : X25519) (agrees : Agrees x) (sha256 : Bytes → Bytes) where
    -- With a key wrap that unwraps what it wrapped, and an exchange that gives both sides the same secret: a
    -- data key of 64 bytes that is sealed to a device's public key, with any ephemeral pair, is opened
    -- again by the device.
    pub open_dek-seal_dek :
        (device ephemeral : KeyPair) (dek : Dek) (sealed : SealedDek)
        → x.recover_public device.sk ≡ some device.pk
        → x.recover_public ephemeral.sk ≡ some ephemeral.pk
        → length dek ≡ dek_len
        → seal_dek c x sha256 device.pk ephemeral dek ≡ ok sealed
        → open_dek c x sha256 device sealed ≡ ok dek
    unfolding seal_dek open_dek unwrap wrap
    open_dek-seal_dek device ephemeral dek sealed d e len h =
        by_dh (x.dh device.pk ephemeral.sk) refl
      where
        by_dh :
            (r : Option Bytes)
            → x.dh device.pk ephemeral.sk ≡ r
            → open_dek c x sha256 device sealed ≡ ok dek
        by_dh none eq = ground arith
        by_dh (some shared) eq = ground (
          arith,
          agrees device.sk ephemeral.sk device.pk ephemeral.pk d e,
          laws.unwrap_wrap (derive_kek sha256 shared ephemeral.pk device.pk) dek len,
        )
