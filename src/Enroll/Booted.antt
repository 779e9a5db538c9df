-- ===== src/Enroll/Booted.antt =====
-- A device that boots again is the device that it was.
use clave.Prelude.{
  ℕ, ◌+◌, ◌<◌, ◌≤◌, ◌≡◌, refl, arith, Bool, true, false, Option, none, some, Bytes, length,
  length-replicate, nat_eq, ok,
}
use clave.Core.Policy.{UnixTime, PolicyBundle}
use clave.Proto.External.{Ed25519, Postcard, IsSignatureScheme}
use clave.Proto.Command.{
  Envelope, new_envelope, GatewayCommand, GatewaySigningKey, sign, default_max_age_secs,
  max_future_skew_secs,
}
use clave.Proto.Verify.{GatewayVerifier, new_verifier, verify, with_high_water}
use clave.Proto.Verify.Laws.{verify-sign}
use clave.Proto.Enroll.{WrappedVolumeKey}
use clave.Volume.Types.{Ciphers, AreCiphers, dek_len}
use clave.Volume.Keys.{Dek, X25519, wrap, unwrap}
use clave.Gateway.Policies.{new_issuer}
use clave.Gateway.Policies.Accepted.{IsEncoded, Round, Trusts, verify-newest}
use clave.Daemon.Loop.{Checkpoint}
use clave.Enroll.Accept.{symmetric, accept, open_volume_key, open_by, open_granted, verify_granted}
use clave.Enroll.Client.{EnrollmentRecord}
use clave.Enroll.Granted.{AddsEight}
use clave.Enroll.Boot.{
  dev_tenant_seed, dev_device_kek, dev_dek, dev_device_signing_seed, BootedEnrollment, open_volume,
  bootstrap_dev_enrollment, boot_from, boot_enrollment, boot_with, boot_new, load, save,
  high_water_of,
}

abbrev dev_signer : GatewaySigningKey
dev_signer = record { seed = dev_tenant_seed; tenant = 1 }

abbrev pub wrapped_key : Ciphers → ℕ → Bytes → Dek → WrappedVolumeKey
wrapped_key c container kek dek = record {
  container = container;
  wrapped_dek = c.kw_wrap kek dek;
  ephemeral_pub = none;
}

abbrev pub dev_verifier : Ed25519 → GatewayVerifier
dev_verifier ed = record {
  tenant = 1;
  key = ed.public_of dev_tenant_seed;
  high_water = 0;
  max_age_secs = default_max_age_secs;
}

abbrev pub dev_record : Ciphers → Ed25519 → PolicyBundle → ℕ → EnrollmentRecord
dev_record c ed policy container = record {
  tenant = 1;
  pinned_tenant_key = ed.public_of dev_tenant_seed;
  policy = policy;
  volume_key = some (wrapped_key c container dev_device_kek dev_dek);
  device_signing_seed = dev_device_signing_seed;
  device_kek = some dev_device_kek;
  tls = none;
}

abbrev pub dev_booted :
    Ciphers → Ed25519 → PolicyBundle → ℕ → Option Checkpoint → Bool → BootedEnrollment
dev_booted c ed policy container checkpoint bootstrapped = record {
  record_of = dev_record c ed policy container;
  policy = policy;
  container = container;
  dek = dev_dek;
  gateway = with_high_water (high_water_of checkpoint) (dev_verifier ed);
  device_signer = dev_device_signing_seed;
  bootstrapped = bootstrapped;
}

module _ (c : Ciphers) (x : X25519) (sha256 : Bytes → Bytes) (ed : Ed25519)
    (codec : Postcard Envelope) (laws : AreCiphers c) (adds : AddsEight c)
    (scheme : IsSignatureScheme ed) where
  open_granted-wrapped :
      (container : ℕ) (kek : Bytes) (dek : Dek)
      → length dek ≡ dek_len
      → open_granted c x sha256 (symmetric kek) (some (wrapped_key c container kek dek))
        ≡ ok (some (container, dek))
  unfolding open_granted open_volume_key open_by unwrap
  open_granted-wrapped container kek dek long =
      rw (adds kek dek long, laws.unwrap_wrap kek dek long) refl

  new_verifier-dev : new_verifier ed codec 1 (ed.public_of dev_tenant_seed) ≡ ok (dev_verifier ed)
  unfolding new_verifier
  new_verifier-dev = rw (scheme.public_is_key dev_tenant_seed) refl

  dev_dek_long : length dev_dek ≡ dek_len
  dev_dek_long = length-replicate {A = ℕ} 64 0xDE

  bootstrap_dev_enrollment_lem :
      (policy : PolicyBundle) (container : ℕ) (now : UnixTime)
      → IsEncoded codec policy
      → bootstrap_dev_enrollment c x sha256 ed codec policy container now
        ≡ ok (dev_record c ed policy container)
  unfolding bootstrap_dev_enrollment accept verify_granted wrap
  bootstrap_dev_enrollment_lem policy container now codes =
      let r : Round = record { workspace = 0; issued_at = now; arrives = true; now = now } in
      let trusts : Trusts ed (dev_verifier ed) (new_issuer dev_signer 0) = record {
        key = refl;
        tenant = refl;
        max_age = refl;
        behind = omega arith;
      } in
      rw new_verifier-dev (
        rw
          (verify-newest ed codec scheme (dev_verifier ed) (new_issuer dev_signer 0) policy r codes
            (omega arith) trusts (omega arith, omega arith))
          (rw (open_granted-wrapped container dev_device_kek dev_dek dev_dek_long) refl))

  boot_from-dev :
      (policy : PolicyBundle) (container : ℕ) (checkpoint : Option Checkpoint) (bootstrapped : Bool)
      (now : UnixTime)
      → boot_from c x sha256 ed codec (dev_record c ed policy container) checkpoint bootstrapped now
        ≡ some (dev_booted c ed policy container checkpoint bootstrapped)
  unfolding boot_from open_volume accept verify_granted
  boot_from-dev policy container checkpoint bootstrapped now =
      rw new_verifier-dev
        (rw (open_granted-wrapped container dev_device_kek dev_dek dev_dek_long) refl)

  -- A device that boots for the first time enrols itself with the policy it is given and keeps that,
  -- provided that the file can be written and the policy and the record survive their encoding: every
  -- later boot, whatever
  -- policy, container, checkpoint or time it is given, finds the same record, policy, container and
  -- data key, and differs only in the mark, which is the checkpoint's. This supposes that the signatures
  -- and the ciphers keep their laws, and that a wrapped key has 8 bytes more.
  pub boot_enrollment_again :
      (records : Postcard EnrollmentRecord)
      → (container container' : ℕ) (demo demo' : PolicyBundle)
        (checkpoint checkpoint' : Option Checkpoint) (writes : Bool) (now later : UnixTime)
      → IsEncoded codec demo
      → records.from_bytes (records.to_bytes (dev_record c ed demo container))
        ≡ some (dev_record c ed demo container)
      → let (first, file) =
          boot_enrollment c x sha256 ed codec records container demo checkpoint true now none in
        let (second, file') =
          boot_enrollment c x sha256 ed codec records container' demo' checkpoint' writes later
            file in
        (first ≡ some (dev_booted c ed demo container checkpoint true))
        × (second ≡ some (dev_booted c ed demo container checkpoint' false))
        × (file' ≡ file)
  unfolding boot_enrollment boot_with boot_new load save
  boot_enrollment_again records container container' demo demo' checkpoint checkpoint' writes now
        later codes kept =
      rw (bootstrap_dev_enrollment_lem demo container now codes) (
        rw kept (
          boot_from-dev demo container checkpoint true now,
          boot_from-dev demo container checkpoint' false later,
          refl,
        ))

  -- A device that boots without a checkpoint takes every command of its gateway whose count is not 0 and
  -- that is within the allowed age and skew, also those that were signed, or that it has obeyed, before
  -- it enrolled: its record has no count. This supposes that the signatures keep their laws, that the
  -- command survives its encoding, that the record's volume key opens, and that it pins the key of
  -- the gateway.
  pub verify-boot_from :
      (kept : EnrollmentRecord) (signer : GatewaySigningKey) (opened : ℕ × Dek)
      (bootstrapped : Bool) (now issued_at later : UnixTime) (counter : ℕ) (cmd : GatewayCommand)
      → codec.from_bytes (codec.to_bytes (new_envelope signer.tenant counter issued_at cmd))
        ≡ some (new_envelope signer.tenant counter issued_at cmd)
      → kept.tenant ≡ signer.tenant
      → kept.pinned_tenant_key ≡ ed.public_of signer.seed
      → open_volume c x sha256 ed codec kept none now ≡ ok opened
      → 0 < counter
      → later ≤ issued_at + default_max_age_secs
      → issued_at ≤ later + max_future_skew_secs
      → (b : BootedEnrollment) × (boot_from c x sha256 ed codec kept none bootstrapped now ≡ some b)
        × ((verify ed codec b.gateway (sign ed codec signer counter issued_at cmd) later).0
            ≡ ok cmd)
  unfolding boot_from new_verifier
  verify-boot_from kept signer opened bootstrapped now issued_at later counter cmd codes tenant key
        opens positive recent ahead =
      let v : GatewayVerifier = record {
        tenant = signer.tenant;
        key = ed.public_of signer.seed;
        high_water = 0;
        max_age_secs = default_max_age_secs;
      } in
      let pinned : new_verifier ed codec signer.tenant (ed.public_of signer.seed) ≡ ok v =
        rw (scheme.public_is_key signer.seed) refl in
      let same : new_verifier ed codec kept.tenant kept.pinned_tenant_key ≡ ok v =
        rw (tenant, key) pinned in
      let taken =
        verify-sign ed codec signer v counter issued_at later cmd scheme codes pinned recent ahead
          positive in
      rw (opens, same) (_, refl, taken)
