-- ===== src/Enroll/Granted.antt =====
-- What the gateway grants, the device takes.
use clave.Prelude.{
  ℕ, ◌+◌, ◌<◌, ◌≡◌, refl, sym, ok_injective, ap, ◌∙◌, arith, Option, none, some, Bytes, Text,
  length, lookup, nat_eq, list_eq, pair_eq, ok,
}
use clave.Core.Policy.{UnixTime, PolicyBundle}
use clave.Identity.Email.{WorkspaceId}
use clave.Proto.External.{Ed25519, Postcard, IsSignatureScheme}
use clave.Proto.Command.{Envelope, update_policy, sign, default_max_age_secs}
use clave.Proto.Audit.{u64_mod}
use clave.Proto.Enroll.{WrappedVolumeKey, TlsCredentials}
use clave.Proto.Verify.{GatewayVerifier, new_verifier}
use clave.Volume.Types.{Ciphers, AreCiphers, dek_len}
use clave.Volume.Keys.{Dek, X25519, wrap, unwrap}
use clave.Gateway.Policies.{MemPolicyIssuer, current, sign_current, sign_bundle, next_count}
use clave.Gateway.Policies.Accepted.{IsEncoded, Round, IsTimely, Trusts, verify-newest}
use clave.Gateway.VolumeKeys.{Containers, issue_wrapped, wrapped_for, wraps, issue_key}
use clave.Gateway.Provider.{IdentityProvider}
use clave.Gateway.Server.{
  Gateway, Approval, EnrollmentCompletion, complete_enrollment, sign_with, key_for,
}
use clave.Gateway.Server.Enrolled.{complete_enrollment-Completed}
use clave.Enroll.Accept.{
  wrapped_dek_len, symmetric, accept, open_volume_key, open_by, open_granted, verify_granted,
}
use clave.Enroll.Client.{approved, EnrollmentConfig, EnrollmentRecord, finish}
use clave.Enroll.Boot.{open_volume}

-- AES key wrap adds 8 bytes.
abbrev pub AddsEight : Ciphers → Type 0
AddsEight c =
    (kek dek : Bytes) → length dek ≡ dek_len → length (c.kw_wrap kek dek) ≡ wrapped_dek_len

-- A device that pins the key of this issuer.
pub record Pins (ed : Ed25519) (cfg : EnrollmentConfig) (issuer : MemPolicyIssuer) : Type 0 where
  pub tenant : cfg.tenant ≡ issuer.signer.tenant
  pub key : cfg.pinned_tenant_key ≡ ed.public_of issuer.signer.seed

module _ (c : Ciphers) (x : X25519) (sha256 : Bytes → Bytes) (ed : Ed25519)
    (codec : Postcard Envelope) (laws : AreCiphers c) (adds : AddsEight c)
    (scheme : IsSignatureScheme ed) where
  open_granted-issue_wrapped :
      (ws container : ℕ) (kek : Bytes) (dek : Dek) (containers : Containers)
      → lookup ws containers ≡ some (container, dek)
      → length dek ≡ dek_len
      → open_granted c x sha256 (symmetric kek) (issue_wrapped c ws kek containers)
        ≡ ok (some (container, dek))
  unfolding open_granted open_volume_key open_by issue_wrapped wrapped_for wrap unwrap
  open_granted-issue_wrapped ws container kek dek containers found long =
      rw found (rw (adds kek dek long, laws.unwrap_wrap kek dek long) refl)

  abbrev fresh_verifier : EnrollmentConfig → GatewayVerifier
  fresh_verifier cfg = record {
    tenant = cfg.tenant;
    key = cfg.pinned_tenant_key;
    high_water = 0;
    max_age_secs = default_max_age_secs;
  }

  new_verifier-Pins :
      (cfg : EnrollmentConfig) (issuer : MemPolicyIssuer)
      → Pins ed cfg issuer
      → new_verifier ed codec cfg.tenant cfg.pinned_tenant_key ≡ ok (fresh_verifier cfg)
  unfolding new_verifier
  new_verifier-Pins cfg issuer pins =
      rw pins.key (rw (scheme.public_is_key issuer.signer.seed) refl)

  signed_policy :
      (ws : WorkspaceId) (issuer : MemPolicyIssuer) (b : PolicyBundle) (issued_at : UnixTime)
      → current ws issuer ≡ some b
      → issuer.counter + 1 < u64_mod
      → (sign_current ed codec ws issued_at issuer).0
        ≡ some (sign ed codec issuer.signer (issuer.counter + 1) issued_at (update_policy b))
  unfolding sign_current sign_bundle
  signed_policy ws issuer b issued_at now_b room =
      let n : next_count issuer.counter ≡ issuer.counter + 1 = omega arith in rw (now_b, n) refl

  -- The record that `finish` makes.
  abbrev pub enrolled_record :
      EnrollmentConfig
      → PolicyBundle
      → Option WrappedVolumeKey
      → Option TlsCredentials
      → EnrollmentRecord
  enrolled_record cfg b volume_key tls = record {
    tenant = cfg.tenant;
    pinned_tenant_key = cfg.pinned_tenant_key;
    policy = b;
    volume_key = volume_key;
    device_signing_seed = cfg.device_signing_seed;
    device_kek = some cfg.device_wrapping_key;
    tls = tls;
  }

  module _ (cfg : EnrollmentConfig) (issuer : MemPolicyIssuer) (pins : Pins ed cfg issuer)
      (ws container : ℕ) (dek : Dek) (containers : Containers) (b : PolicyBundle)
      (current_b : current ws issuer ≡ some b)
      (found : lookup ws containers ≡ some (container, dek)) (long : length dek ≡ dek_len)
      (room : issuer.counter + 1 < u64_mod) (codes : IsEncoded codec b) where
    finish-granted :
        (r : Round) (tls : Option TlsCredentials)
        → IsTimely r
        → finish c x sha256 ed codec cfg
            (approved
              (sign_current ed codec ws r.issued_at issuer).0
              (issue_wrapped c ws cfg.device_wrapping_key containers)
              tls)
            r.now
          ≡ ok (enrolled_record cfg b (issue_wrapped c ws cfg.device_wrapping_key containers) tls)
    unfolding finish accept verify_granted
    finish-granted r tls timely =
        let trusts : Trusts ed (fresh_verifier cfg) issuer = record {
          key = pins.key;
          tenant = pins.tenant;
          max_age = refl;
          behind = omega arith;
        } in
        rw (signed_policy ws issuer b r.issued_at current_b room) (
          rw (new_verifier-Pins cfg issuer pins) (
            rw
              (verify-newest ed codec scheme (fresh_verifier cfg) issuer b r codes room trusts
                timely)
              (rw
                (open_granted-issue_wrapped ws container cfg.device_wrapping_key dek containers
                  found long)
                refl)))

    open_volume-granted :
        (tls : Option TlsCredentials) (later : UnixTime)
        → open_volume c x sha256 ed codec
            (enrolled_record cfg b (issue_wrapped c ws cfg.device_wrapping_key containers) tls)
            none
            later
          ≡ ok (container, dek)
    unfolding open_volume accept verify_granted
    open_volume-granted tls later = rw (new_verifier-Pins cfg issuer pins) (
        rw
          (open_granted-issue_wrapped ws container cfg.device_wrapping_key dek containers found
            long)
          refl)

    -- Enrolment from end to end. The gateway has approved a device that sent its wrapping key; the
    -- gateway has an issuer with a current policy for the workspace, and a key service that wraps, with the
    -- workspace's container and a data key of 64 bytes; the device pins the issuer's key and tenant; the
    -- issuer's count is below 2 ^ 64 - 1, and the answer reaches the device within the allowed age and
    -- skew. Then the device accepts what it was granted, and keeps this policy, and at any later time
    -- its record opens the workspace's container with this data key. This supposes that the
    -- signatures and the ciphers keep their laws, that a wrapped key has 8 bytes more, and that the
    -- policy survives its encoding.
    pub finish-complete_enrollment :
        (idp : IdentityProvider) (device_code : Text) (pubkey : Bytes) (r : Round) (g h : Gateway)
        (a : Approval)
        → complete_enrollment ed codec c idp ws device_code pubkey
            (some cfg.device_wrapping_key)
            r.issued_at
            g
          ≡ (ok (EnrollmentCompletion.approved a), h)
        → g.policy_issuer ≡ some issuer
        → g.volume_keys ≡ some (wraps containers)
        → IsTimely r
        → (later : UnixTime)
        → (kept : EnrollmentRecord) × (finish c x sha256 ed codec cfg
              (approved a.policy a.volume_key a.tls)
              r.now
            ≡ ok kept)
          × (kept.policy ≡ b)
          × (open_volume c x sha256 ed codec kept none later ≡ ok (container, dek))
    unfolding sign_with key_for issue_key
    finish-complete_enrollment idp device_code pubkey r g h a done has_issuer has_keys timely
          later =
        let completed =
          complete_enrollment-Completed idp ed codec c ws device_code pubkey
            (some cfg.device_wrapping_key) r.issued_at g h a done in
        let e = completed.enrolled in
        let policy : a.policy ≡ (sign_current ed codec ws r.issued_at issuer).0 =
          e.policy ∙ ap (λ o. (sign_with ed codec ws r.issued_at o).0) has_issuer in
        let volume_key : a.volume_key ≡ issue_wrapped c ws cfg.device_wrapping_key containers =
          ok_injective
            (sym e.volume_key ∙ ap (λ o. key_for c ws o (some cfg.device_wrapping_key)) has_keys) in
        rw (policy, volume_key)
          (
            enrolled_record cfg b (issue_wrapped c ws cfg.device_wrapping_key containers) a.tls,
            finish-granted r a.tls timely,
            refl,
            open_volume-granted a.tls later,
          )
