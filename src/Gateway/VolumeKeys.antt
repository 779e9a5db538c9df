-- ===== src/Gateway/VolumeKeys.antt =====
-- crates/clave-gateway/src/volume.rs: the services that hand a workspace's data key to a device,
-- wrapped under a key that the device has named, or sealed to its public key.
use clave.Prelude.{ℕ, Option, none, some, Map, lookup, insert, Bytes, nat_eq, Result, ok, err}
use clave.Identity.Email.{WorkspaceId}
use clave.Proto.Enroll.{WrappedVolumeKey}
use clave.Volume.Types.{VolumeError, Ciphers}
use clave.Volume.Keys.{Dek, KeyPair, X25519, SealedDek, wrap, seal_dek}
use clave.Gateway.Action.{GatewayError, store_error, seal_failed}

-- The container and the data key of each workspace: `MemVolumeKeyService`, and
-- `SealedVolumeKeyService` too.
abbrev pub Containers : Type 0
Containers = Map WorkspaceId (ℕ × Dek)

-- `set_container`
abbrev pub set_container : WorkspaceId → ℕ → Dek → Containers → Containers
set_container w container dek m = insert w (container, dek) m

unfoldable pub wrapped_for : Ciphers → Bytes → Option (ℕ × Dek) → Option WrappedVolumeKey
unfolding wrap
wrapped_for c device_kek none = none
wrapped_for c device_kek (some (container, dek)) =
    some
      (record { container = container; wrapped_dek = wrap c device_kek dek; ephemeral_pub = none })

-- `MemVolumeKeyService::issue_wrapped_volume_key`
unfoldable pub issue_wrapped : Ciphers → WorkspaceId → Bytes → Containers → Option WrappedVolumeKey
unfolding wrapped_for
issue_wrapped c w device_kek m = wrapped_for c device_kek (lookup w m)

abbrev pub key_of : ℕ → Result VolumeError SealedDek → Result GatewayError (Option WrappedVolumeKey)
key_of container (err e) = err (store_error seal_failed)
key_of container (ok sealed) = ok (
    some (record {
      container = container;
      wrapped_dek = sealed.wrapped;
      ephemeral_pub = some sealed.ephemeral_pub;
    }))

module _ (c : Ciphers) (x : X25519) (sha256 : Bytes → Bytes) where
  abbrev pub sealed_for :
      Bytes → KeyPair → Option (ℕ × Dek) → Result GatewayError (Option WrappedVolumeKey)
  unfolding seal_dek
  sealed_for device_kek ephemeral none = ok none
  sealed_for device_kek ephemeral (some (container, dek)) =
      key_of container (seal_dek c x sha256 device_kek ephemeral dek)

  -- `SealedVolumeKeyService::issue_wrapped_volume_key`, with the pair that `seal_dek` generates
  unfoldable pub issue_sealed :
      WorkspaceId → Bytes → KeyPair → Containers → Result GatewayError (Option WrappedVolumeKey)
  unfolding sealed_for
  issue_sealed w device_kek ephemeral m = sealed_for device_kek ephemeral (lookup w m)

-- A key service: one that wraps, or one that seals, with the pair that it generates next
pub data KeyService : Type 0 where
  wraps : Containers → KeyService
  seals : X25519 → (Bytes → Bytes) → KeyPair → Containers → KeyService

-- `issue_wrapped_volume_key` of the service
unfoldable pub issue_key :
    Ciphers → KeyService → WorkspaceId → Bytes → Result GatewayError (Option WrappedVolumeKey)
unfolding issue_wrapped issue_sealed
issue_key c (wraps m) w device_kek = ok (issue_wrapped c w device_kek m)
issue_key c (seals x sha256 ephemeral m) w device_kek =
    issue_sealed c x sha256 w device_kek ephemeral m
