-- ===== src/Gateway/Server/Handed.antt =====
-- What the gateway records of a device that it enrols, and the policy and the key that it hands it.
use clave.Prelude.{
  ℕ, ◌+◌, ◌%◌, ◌^◌, ◌≡◌, refl, ◌∙◌, Option, none, some, Map, lookup, insert, lookup-insert,
  map_option, Bytes, nat_eq, list_eq, pair_eq, eq_refl, Result, ok, ok_injective, ok_or, ◌>>=◌,
  Option-cases, inl, inr,
}
use mathlib.Core.Path.{subst}
use clave.Core.Policy.{UnixTime, PolicyBundle}
use clave.Identity.Email.{WorkspaceId, UserId}
use clave.Proto.External.{Ed25519, Postcard}
use clave.Proto.Command.{Envelope, SignedCommand, update_policy, sign}
use clave.Proto.Enroll.{WrappedVolumeKey}
use clave.Volume.Types.{Ciphers, seal}
use clave.Volume.Keys.{Dek, KeyPair, X25519, derive_kek, seal_dek, wrap}
use clave.Gateway.Action.{GatewayError}
use clave.Gateway.Policies.{MemPolicyIssuer, next_count, current, sign_bundle, sign_current}
use clave.Gateway.VolumeKeys.{
  Containers, KeyService, wraps, seals, issue_key, issue_wrapped, wrapped_for, issue_sealed,
  sealed_for, key_of,
}
use clave.Gateway.Store.{DeviceId, active, StoredDevice, Inner, update_at}
use clave.Gateway.Store.Devices.{known_or_new}
use clave.Gateway.Server.{key_for, sign_with}

-- A device that enrols in a store with new tables of keys and devices: the workspace's device with
-- this key becomes active again and stays the device of the user who enrolled it first; a new key
-- gets a device of this user.
pub data IsRecorded (ws : WorkspaceId) (user : UserId) (pubkey : Bytes) (s : Inner)
    (keys : Map (WorkspaceId × Bytes) DeviceId) (devices : Map DeviceId StoredDevice)
    (id : DeviceId) : Type 0 where
  again :
      lookup (ws, pubkey) s.devices_by_key ≡ some id
      → keys ≡ s.devices_by_key
      → lookup id devices
        ≡ map_option (λ (d : StoredDevice). record d { status = active }) (lookup id s.devices)
      → IsRecorded ws user pubkey s keys devices id
  anew :
      lookup (ws, pubkey) s.devices_by_key ≡ none
      → lookup (ws, pubkey) keys ≡ some id
      → lookup id devices
        ≡ some (record { workspace = ws; enrolled_by = user; pubkey = pubkey; status = active })
      → IsRecorded ws user pubkey s keys devices id

lookup-inserted :
    {V : Type 0} (id : DeviceId) (v : V) (m : Map DeviceId V) → lookup id (insert id v m) ≡ some v
lookup-inserted id v m = lookup-insert id id v m ∙ rw (eq_refl id) refl

lookup-update_at :
    (id : DeviceId) (f : StoredDevice → StoredDevice) (m : Map DeviceId StoredDevice)
    → lookup id (update_at id f m) ≡ map_option f (lookup id m)
lookup-update_at id f m = elim (Option-cases (lookup id m)) [
  | inl missing ↦ rw missing missing
  | inr (d, found) ↦ rw found (lookup-inserted id (f d) m)
]

pub known_or_new-IsRecorded :
    (ws : WorkspaceId) (user : UserId) (pubkey : Bytes) (s : Inner) (o : Option DeviceId)
    → lookup (ws, pubkey) s.devices_by_key ≡ o
    → let (id, s') = known_or_new ws user pubkey s o in
      IsRecorded ws user pubkey s s'.devices_by_key s'.devices id
known_or_new-IsRecorded ws user pubkey s (some id) known =
    again known refl (lookup-update_at id (λ d. record d { status = active }) s.devices)
known_or_new-IsRecorded ws user pubkey s none unknown =
    let id = (s.next_device + 1) % 2 ^ 128 in
    anew unknown
      (lookup-insert (ws, pubkey) (ws, pubkey) id s.devices_by_key
        ∙ rw (eq_refl {A = WorkspaceId × Bytes} (ws, pubkey)) refl)
      (lookup-inserted id _ s.devices)

module _ (ed : Ed25519) (codec : Postcard Envelope) (ws : WorkspaceId) (now : UnixTime) where
  -- What is signed for a device, by an issuer and from its current policy, under the next count.
  pub data IsSigned
      : Option MemPolicyIssuer → Option SignedCommand → Option MemPolicyIssuer → Type 0 where
    no_issuer : IsSigned none none none
    no_policy : (p : MemPolicyIssuer) → current ws p ≡ none → IsSigned (some p) none (some p)
    signed :
        (p : MemPolicyIssuer) (b : PolicyBundle)
        → current ws p ≡ some b
        → IsSigned
            (some p)
            (some (sign ed codec p.signer (next_count p.counter) now (update_policy b)))
            (some (record p { counter = next_count p.counter }))

  pub sign_with-IsSigned :
      (o : Option MemPolicyIssuer)
      → IsSigned o (sign_with ed codec ws now o).0 (sign_with ed codec ws now o).1
  unfolding sign_with sign_current sign_bundle
  sign_with-IsSigned none = no_issuer
  sign_with-IsSigned (some p) = elim (Option-cases (current ws p)) [
    | inl e ↦ rw e (no_policy p e)
    | inr (b, e) ↦ rw e (signed p b e)
  ]

module _ (c : Ciphers) (ws : WorkspaceId) where
  abbrev containers_of : KeyService → Containers
  containers_of (wraps m) = m
  containers_of (seals x sha256 ephemeral m) = m

  -- The key that a device is handed: none without a service, without a key of the device, or without
  -- a container of the workspace; otherwise its data key, wrapped under the key that was sent, or
  -- under one that is derived from an exchange with it.
  pub data IsHanded : Option KeyService → Option Bytes → Option WrappedVolumeKey → Type 0 where
    no_service : (kek : Option Bytes) → IsHanded none kek none
    no_key : (s : KeyService) → IsHanded (some s) none none
    no_container :
        (s : KeyService) (kek : Bytes)
        → lookup ws (containers_of s) ≡ none
        → IsHanded (some s) (some kek) none
    wrapped :
        (m : Containers) (kek : Bytes) (container : ℕ) (dek : Dek)
        → lookup ws m ≡ some (container, dek)
        → IsHanded (some (wraps m)) (some kek) (
            some (record {
              container = container;
              wrapped_dek = c.kw_wrap kek dek;
              ephemeral_pub = none;
            }))
    sealed :
        (x : X25519) (sha256 : Bytes → Bytes) (ephemeral : KeyPair) (m : Containers)
        (device_pub : Bytes) (shared : Bytes) (container : ℕ) (dek : Dek)
        → lookup ws m ≡ some (container, dek)
        → x.dh device_pub ephemeral.sk ≡ some shared
        → IsHanded (some (seals x sha256 ephemeral m)) (some device_pub) (
            some (record {
              container = container;
              wrapped_dek = c.kw_wrap (derive_kek sha256 shared ephemeral.pk device_pub) dek;
              ephemeral_pub = some ephemeral.pk;
            }))

  pub key_for-IsHanded :
      (service : Option KeyService) (kek : Option Bytes) (k : Option WrappedVolumeKey)
      → key_for c ws service kek ≡ ok k
      → IsHanded service kek k
  unfolding key_for issue_key issue_wrapped wrapped_for wrap issue_sealed seal_dek
  key_for-IsHanded none kek k e = subst (IsHanded none kek) (ok_injective e) (no_service kek)
  key_for-IsHanded (some s) none k e = subst (IsHanded (some s) none) (ok_injective e) (no_key s)
  key_for-IsHanded (some (wraps m)) (some kek) k e = by_container (lookup ws m) refl e
    where
      by_container :
          (o : Option (ℕ × Dek))
          → lookup ws m ≡ o
          → Path (Result GatewayError (Option WrappedVolumeKey)) (ok (wrapped_for c kek o)) (ok k)
          → IsHanded (some (wraps m)) (some kek) k
      by_container none missing e =
          subst (IsHanded (some (wraps m)) (some kek)) (ok_injective e)
            (no_container (wraps m) kek missing)
      by_container (some (container, dek)) found e =
          subst (IsHanded (some (wraps m)) (some kek)) (ok_injective e)
            (wrapped m kek container dek found)
  key_for-IsHanded (some (seals x sha256 ephemeral m)) (some kek) k e =
      by_container (lookup ws m) refl e
    where
      by_shared :
          (container : ℕ) (dek : Dek) (shared : Option Bytes)
          → lookup ws m ≡ some (container, dek)
          → x.dh kek ephemeral.sk ≡ shared
          → Path
              (Result GatewayError (Option WrappedVolumeKey))
              (key_of container (do
                shared ← ok_or shared seal
                ok (record {
                  ephemeral_pub = ephemeral.pk;
                  wrapped = c.kw_wrap (derive_kek sha256 shared ephemeral.pk kek) dek;
                })))
              (ok k)
          → IsHanded (some (seals x sha256 ephemeral m)) (some kek) k
      by_shared container dek none found exchanged e = cc
      by_shared container dek (some shared) found exchanged e =
          subst (IsHanded (some (seals x sha256 ephemeral m)) (some kek)) (ok_injective e)
            (sealed x sha256 ephemeral m kek shared container dek found exchanged)

      by_container :
          (o : Option (ℕ × Dek))
          → lookup ws m ≡ o
          → Path
              (Result GatewayError (Option WrappedVolumeKey))
              (sealed_for c x sha256 kek ephemeral o)
              (ok k)
          → IsHanded (some (seals x sha256 ephemeral m)) (some kek) k
      by_container none missing e =
          subst (IsHanded (some (seals x sha256 ephemeral m)) (some kek)) (ok_injective e)
            (no_container (seals x sha256 ephemeral m) kek missing)
      by_container (some (container, dek)) found e =
          by_shared container dek (x.dh kek ephemeral.sk) found refl e
