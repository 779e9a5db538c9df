-- ===== src/Enroll/Boot.antt =====
-- crates/clave-daemon/src/enrollment_store.rs: what an enrolled device keeps, and the boot from it.
-- A file is its contents, if it exists; a write of it that fails is ignored, and leaves it as it was.
use clave.Prelude.{
  ℕ, Bool, true, false, Option, none, some, Bytes, replicate, Result, ok, err, ok_or, map_err,
  ◌>>=◌, if◌then◌else◌,
}
use clave.Core.Policy.{UnixTime, PolicyBundle}
use clave.Proto.External.{Ed25519, Postcard}
use clave.Proto.Command.{Envelope, update_policy, GatewaySigningKey, sign}
use clave.Proto.Verify.{GatewayVerifier, new_verifier, with_high_water}
use clave.Proto.Enroll.{WrappedVolumeKey, new_grant}
use clave.Volume.Types.{Ciphers}
use clave.Volume.Keys.{Dek, KeyPair, X25519, wrap}
use clave.Daemon.Loop.{Checkpoint}
use clave.Enroll.Accept.{
  DeviceEnrollment, DeviceVolumeKey, symmetric, sealed, EnrollError, unexpected_symmetric_key,
  malformed_volume_key, bad_tenant_key, accept,
}
use clave.Enroll.Client.{EnrollmentRecord}

abbrev pub dev_tenant_seed : Bytes
dev_tenant_seed = replicate 32 0x6A

abbrev pub dev_device_kek : Bytes
dev_device_kek = replicate 32 0x4B

abbrev pub dev_dek : Dek
dev_dek = replicate 64 0xDE

abbrev pub dev_device_signing_seed : Bytes
dev_device_signing_seed = replicate 32 0xD5

-- The key that opens the volume: the record's own, or the device's sealing key.
abbrev device_key : Option Bytes → Option KeyPair → Result EnrollError DeviceVolumeKey
device_key (some kek) _ = ok (symmetric kek)
device_key none (some pair) = ok (sealed pair)
device_key none none = err unexpected_symmetric_key

-- `FileEnrollmentStore`: `load` and `save`
module _ (records : Postcard EnrollmentRecord) where
  abbrev decode_file : Option Bytes → Option EnrollmentRecord
  decode_file none = none
  decode_file (some bytes) = records.from_bytes bytes

  unfoldable pub load : Option Bytes → Option EnrollmentRecord
  load file = decode_file file

  unfoldable pub save : (writes : Bool) → EnrollmentRecord → Option Bytes → Option Bytes
  save writes r file = if writes then some (records.to_bytes r) else file

-- `expect`: an error is a panic.
abbrev pub expect : {A : Type 0} → Result EnrollError A → Option A
expect (ok a) = some a
expect (err e) = none

abbrev pub high_water_of : Option Checkpoint → ℕ
high_water_of none = 0
high_water_of (some k) = k.gateway_high_water

pub record BootedEnrollment : Type 0 where
  pub record_of : EnrollmentRecord
  pub policy : PolicyBundle
  pub container : ℕ
  pub dek : Dek
  pub gateway : GatewayVerifier
  pub device_signer : Bytes
  pub bootstrapped : Bool

module _ (c : Ciphers) (x : X25519) (sha256 : Bytes → Bytes) (ed : Ed25519)
    (codec : Postcard Envelope) where
  -- `EnrollmentRecord::open_volume`
  unfoldable pub open_volume :
      EnrollmentRecord → Option KeyPair → UnixTime → Result EnrollError (ℕ × Dek)
  unfolding accept
  open_volume r sealing now = do
    key ← device_key r.device_kek sealing
    let enrollment : DeviceEnrollment = record {
      tenant = r.tenant;
      pinned_tenant_key = r.pinned_tenant_key;
      volume_key = key;
    }
    accepted ← accept c x sha256 ed codec enrollment (new_grant none r.volume_key) now
    ok_or accepted.volume malformed_volume_key

  abbrev or_given : PolicyBundle → Option PolicyBundle → PolicyBundle
  or_given policy none = policy
  or_given policy (some verified) = verified

  -- `bootstrap_dev_enrollment`; an error stands for its panic.
  unfoldable pub bootstrap_dev_enrollment :
      PolicyBundle → ℕ → UnixTime → Result EnrollError EnrollmentRecord
  unfolding sign wrap accept
  bootstrap_dev_enrollment policy container now =
      let signer : GatewaySigningKey = record { seed = dev_tenant_seed; tenant = 1 } in
      let signed = sign ed codec signer 1 now (update_policy policy) in
      let volume_key : WrappedVolumeKey = record {
        container = container;
        wrapped_dek = wrap c dev_device_kek dev_dek;
        ephemeral_pub = none;
      } in
      let enrollment : DeviceEnrollment = record {
        tenant = 1;
        pinned_tenant_key = ed.public_of dev_tenant_seed;
        volume_key = symmetric dev_device_kek;
      } in
      do
        accepted ←
            accept c x sha256 ed codec enrollment (new_grant (some signed) (some volume_key)) now
        ok (record {
          tenant = 1;
          pinned_tenant_key = ed.public_of dev_tenant_seed;
          policy = or_given policy accepted.policy;
          volume_key = some volume_key;
          device_signing_seed = dev_device_signing_seed;
          device_kek = some dev_device_kek;
          tls = none;
        })

  -- The end of `boot_enrollment`, with the record that was loaded or made.
  unfoldable pub boot_from :
      EnrollmentRecord → Option Checkpoint → Bool → UnixTime → Option BootedEnrollment
  unfolding open_volume new_verifier
  boot_from r checkpoint bootstrapped now = expect do
    opened ← open_volume r none now
    v ← map_err (λ _. bad_tenant_key) (new_verifier ed codec r.tenant r.pinned_tenant_key)
    ok (record {
      record_of = r;
      policy = r.policy;
      container = opened.0;
      dek = opened.1;
      gateway = with_high_water (high_water_of checkpoint) v;
      device_signer = r.device_signing_seed;
      bootstrapped = bootstrapped;
    })

  module _ (records : Postcard EnrollmentRecord) where
    -- A record that was just made is saved.
    unfoldable pub boot_new :
        Option Checkpoint
        → Bool
        → UnixTime
        → Option Bytes
        → Result EnrollError EnrollmentRecord
        → Option BootedEnrollment × Option Bytes
    unfolding boot_from save
    boot_new checkpoint writes now file (err e) = (none, file)
    boot_new checkpoint writes now file (ok r) =
        (boot_from r checkpoint true now, save records writes r file)

    unfoldable pub boot_with :
        ℕ
        → PolicyBundle
        → Option Checkpoint
        → Bool
        → UnixTime
        → Option Bytes
        → Option EnrollmentRecord
        → Option BootedEnrollment × Option Bytes
    unfolding bootstrap_dev_enrollment boot_from boot_new
    boot_with container demo checkpoint writes now file (some r) =
        (boot_from r checkpoint false now, file)
    boot_with container demo checkpoint writes now file none =
        boot_new checkpoint writes now file (bootstrap_dev_enrollment demo container now)

    -- `boot_enrollment`: what is booted, or `none` for a panic, and the file afterwards.
    unfoldable pub boot_enrollment :
        ℕ
        → PolicyBundle
        → Option Checkpoint
        → (writes : Bool) → UnixTime
        → Option Bytes
        → Option BootedEnrollment × Option Bytes
    unfolding load boot_with
    boot_enrollment container demo checkpoint writes now file =
        boot_with container demo checkpoint writes now file (load records file)
