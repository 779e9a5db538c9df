-- ===== src/Enroll/Accept.antt =====
-- crates/clave-daemon/src/enroll.rs: the check of what the gateway has granted.
use clave.Prelude.{
  ℕ, ◌+◌, not, Option, none, some, Bytes, length, nat_eq, ◌==◌, Result, ok, err, ◌>>=◌, ◌>>◌,
  fail_if, map_err,
}
use clave.Core.Policy.{UnixTime, PolicyBundle}
use clave.Proto.External.{Ed25519, Postcard}
use clave.Proto.Command.{
  TenantId, ProtoError, Envelope, GatewayCommand, update_policy, SignedCommand,
}
use clave.Proto.Verify.{GatewayVerifier, new_verifier, verify}
use clave.Proto.Enroll.{WrappedVolumeKey, EnrollmentGrant}
use clave.Volume.Types.{Ciphers, dek_len}
use clave.Volume.Keys.{Dek, KeyPair, X25519, unwrap, open_dek}

-- `WRAPPED_DEK_LEN`
abbrev pub wrapped_dek_len : ℕ
wrapped_dek_len = dek_len + 8

pub data DeviceVolumeKey : Type 0 where
  symmetric : (kek : Bytes) → DeviceVolumeKey
  sealed : (key : KeyPair) → DeviceVolumeKey

pub record DeviceEnrollment : Type 0 where
  pub tenant : TenantId
  pub pinned_tenant_key : Bytes
  pub volume_key : DeviceVolumeKey

pub record AcceptedEnrollment : Type 0 where
  pub verifier : GatewayVerifier
  pub policy : Option PolicyBundle
  pub volume : Option (ℕ × Dek)

pub data EnrollError : Type 0 where
  bad_tenant_key not_a_policy_command malformed_volume_key volume_key_unwrap : EnrollError
  unexpected_sealed_key unexpected_symmetric_key : EnrollError
  policy_rejected : ProtoError → EnrollError

-- `map_err(|_| e)`
abbrev or_error : {E A : Type 0} → EnrollError → Result E A → Result EnrollError A
or_error e r = map_err (λ _. e) r

module _ (c : Ciphers) (x : X25519) (sha256 : Bytes → Bytes) where
  unfoldable pub open_by : DeviceVolumeKey → Option Bytes → Bytes → Result EnrollError Dek
  unfolding unwrap open_dek
  open_by (sealed pair) (some ephemeral_pub) wrapped =
      or_error volume_key_unwrap
        (open_dek c x sha256 pair (record { ephemeral_pub = ephemeral_pub; wrapped = wrapped }))
  open_by (symmetric kek) none wrapped = or_error volume_key_unwrap (unwrap c kek wrapped)
  open_by (symmetric kek) (some ephemeral_pub) wrapped = err unexpected_sealed_key
  open_by (sealed pair) none wrapped = err unexpected_symmetric_key

  -- `DeviceEnrollment::open_volume_key`
  unfoldable pub open_volume_key : DeviceVolumeKey → WrappedVolumeKey → Result EnrollError (ℕ × Dek)
  unfolding open_by
  open_volume_key key vk = do
    fail_if (not (length vk.wrapped_dek == wrapped_dek_len)) malformed_volume_key
    dek ← open_by key vk.ephemeral_pub vk.wrapped_dek
    ok (vk.container, dek)

  unfoldable pub open_granted :
      DeviceVolumeKey → Option WrappedVolumeKey → Result EnrollError (Option (ℕ × Dek))
  unfolding open_volume_key
  open_granted key none = ok none
  open_granted key (some vk) = do opened ← open_volume_key key vk; ok (some opened)

  abbrev pub policy_of :
      Result ProtoError GatewayCommand × GatewayVerifier
      → Result EnrollError (Option PolicyBundle × GatewayVerifier)
  policy_of (ok (update_policy bundle), v) = ok (some bundle, v)
  policy_of (ok _, v) = err not_a_policy_command
  policy_of (err e, v) = err (policy_rejected e)

  module _ (ed : Ed25519) (codec : Postcard Envelope) where
    unfoldable pub verify_granted :
        GatewayVerifier
        → Option SignedCommand
        → UnixTime
        → Result EnrollError (Option PolicyBundle × GatewayVerifier)
    unfolding verify
    verify_granted v none now = ok (none, v)
    verify_granted v (some signed) now = policy_of (verify ed codec v signed now)

    -- `DeviceEnrollment::accept`
    unfoldable pub accept :
        DeviceEnrollment → EnrollmentGrant → UnixTime → Result EnrollError AcceptedEnrollment
    unfolding new_verifier verify_granted open_granted
    accept e grant now = do
      fresh ← or_error bad_tenant_key (new_verifier ed codec e.tenant e.pinned_tenant_key)
      checked ← verify_granted fresh grant.policy now
      volume ← open_granted e.volume_key grant.volume_key
      ok (record { verifier = checked.1; policy = checked.0; volume = volume })
