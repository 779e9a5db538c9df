-- ===== src/Enroll/Tests.antt =====
-- The enrolment of a device, from the gateway's approval to its second boot.
use clave.Prelude.{
  ℕ, ◌+◌, ◌≡◌, refl, ap, ◌∙◌, arith, true, false, Option, none, some, [], ◌∷◌, ◌++◌, Bytes, ok,
  lookup, list_beq, nat_eq, list_eq, pair_eq, length-append, length-replicate, take, take-append_at,
  replicate, Result, ltb, if◌then◌else◌,
}
use clave.Identity.Model.{member, active, optional, email_code, Workspace}
use clave.Identity.Authz.{authorize_enrollment, active_member_role}
use clave.Proto.External.{Postcard}
use clave.Proto.Command.{update_policy, GatewaySigningKey, sign}
use clave.Proto.Verify.{verify, new_verifier}
use clave.Proto.Samples.{toy_scheme, toy_scheme_lem, toy_hash, plain_policy, policy_codec}
use clave.Proto.Enroll.{WrappedVolumeKey}
use clave.Volume.Types.{Ciphers, AreCiphers}
use clave.Volume.Keys.{X25519, Dek}
use clave.Gateway.Store.{Inner, new_store, upsert_user}
use clave.Gateway.Store.Devices.{record_device}
use clave.Gateway.Provider.{VerifiedUser, IdentityProvider, mock_identity_provider}
use clave.Gateway.Ledger.{new_ledger}
use clave.Gateway.Policies.{MemPolicyIssuer, current}
use clave.Gateway.VolumeKeys.{Containers, wraps, issue_wrapped}
use clave.Gateway.Server.{
  Gateway, Approval, EnrollmentCompletion, complete_enrollment, enroll_approved, sign_with,
  authorize_enrollment_poll,
}
use clave.Gateway.Server.Enrolled.{Completed, complete_enrollment-Completed}
use clave.Enroll.Client.{
  PollStatus, EnrollClientError, EnrollmentConfig, EnrollmentRecord, CompletionStatus, poll_loop,
  enough_polls, finish,
}
use clave.Enroll.Polls.{Ended, poll_loop_ends}
use clave.Enroll.Granted.{AddsEight, finish-complete_enrollment}
use clave.Enroll.Boot.{
  dev_tenant_seed, dev_dek, BootedEnrollment, open_volume, boot_enrollment, boot_from,
}
use clave.Enroll.Booted.{dev_record, dev_booted, boot_enrollment_again, verify-boot_from}

-- Approved by the third poll.
abbrev answers : ℕ → Result EnrollClientError PollStatus
answers k = if ltb k 2 then ok PollStatus.pending else ok PollStatus.approved

poll_loop_ends_example : Ended answers 5 0 (poll_loop answers 5 (enough_polls 5) 0)
poll_loop_ends_example = poll_loop_ends answers 5

poll_run : poll_loop answers 5 6 0 ≡ some (ok tt)
unfolding poll_loop
poll_run = refl

-- Wrapping adds eight zeros.
abbrev padding : Ciphers
padding = record {
  kw_wrap = λ kek dek. dek ++ replicate 8 0;
  kw_unwrap = λ kek wrapped. some (take 64 wrapped);
  encrypt_area = λ k t size first area. area;
  decrypt_area = λ k t size first area. area;
}

padding-AreCiphers : AreCiphers padding
padding-AreCiphers = record {
  unwrap_wrap = λ kek dek h. ap some (take-append_at 64 dek (replicate 8 0) h);
  decrypt_encrypt = λ k t area first n h. refl;
  length_encrypt = λ k t area first n h. h;
}

padding-AddsEight : AddsEight padding
padding-AddsEight kek dek h = length-append dek (replicate 8 0) ∙ ap (λ n. n + 8) h

abbrev no_exchange : X25519
no_exchange = record { recover_public = λ s. none; dh = λ p s. none }

abbrev key : Dek
key = replicate 64 22

abbrev acme : Workspace
acme = record { id = 7; allowed_domains = []; sso = optional }

abbrev store : Inner
store = record new_store {
  next_user = 1;
  workspaces = (7, acme) ∷ [];
  users = ((5 ∷ []), 1) ∷ [];
  memberships = ((7, 1), record { workspace = 7; user = 1; role = member; status = active }) ∷ [];
}

abbrev user : VerifiedUser
user = record {
  email = 5 ∷ [];
  idp_user_id = [];
  workspace = 7;
  method = email_code;
  access_token = [];
  refresh_token = [];
}

abbrev idp : IdentityProvider
idp =
    mock_identity_provider user (1 ∷ [])
      (record { user_code = []; verification_uri = []; device_code = [] })

abbrev issuer : MemPolicyIssuer
issuer = record {
  signer = record { seed = 7 ∷ []; tenant = 3 };
  policies = (7, plain_policy 2 ∷ []) ∷ [];
  counter = 4;
}

abbrev containers : Containers
containers = (7, (12, key)) ∷ []

abbrev gateway : Gateway
gateway = record {
  store = store;
  policy_issuer = some issuer;
  volume_keys = some (wraps containers);
  audit = new_ledger;
  audit_store = none;
  device_ca = none;
}

abbrev cfg : EnrollmentConfig
cfg = record {
  workspace = 7;
  tenant = 3;
  pinned_tenant_key = 7 ∷ [];
  device_identity_pubkey = 9 ∷ [];
  device_wrapping_key = 6 ∷ [];
  device_signing_seed = 9 ∷ [];
  max_polls = 5;
}

abbrev approval : Approval
approval = record {
  device = 1;
  user = 1;
  role = member;
  policy = (sign_with toy_scheme policy_codec 7 100 (some issuer)).0;
  volume_key = issue_wrapped padding 7 (6 ∷ []) containers;
  tls = none;
}

abbrev after : Gateway
after =
    (complete_enrollment toy_scheme policy_codec padding idp 7 (1 ∷ []) (9 ∷ []) (some (6 ∷ [])) 100
      gateway).1

approval_run :
    complete_enrollment toy_scheme policy_codec padding idp 7
      (1 ∷ [])
      (9 ∷ [])
      (some (6 ∷ []))
      100
      gateway
    ≡ (ok (EnrollmentCompletion.approved approval), after)
unfolding complete_enrollment enroll_approved authorize_enrollment_poll upsert_user
    authorize_enrollment active_member_role record_device lookup list_beq
approval_run = refl

complete_enrollment-Completed_example :
    Completed idp toy_scheme policy_codec padding 7
      (1 ∷ [])
      (9 ∷ [])
      (some (6 ∷ []))
      100
      gateway
      after
      approval
complete_enrollment-Completed_example =
    complete_enrollment-Completed idp toy_scheme policy_codec padding 7 (1 ∷ []) (9 ∷ [])
      (some (6 ∷ [])) 100 gateway after approval approval_run

finish-complete_enrollment_example :
    (kept : EnrollmentRecord) × (finish padding no_exchange toy_hash toy_scheme policy_codec cfg
        (CompletionStatus.approved approval.policy approval.volume_key approval.tls)
        110
      ≡ ok kept)
    × (kept.policy ≡ plain_policy 2)
    × (open_volume padding no_exchange toy_hash toy_scheme policy_codec kept none 500
        ≡ ok (12, key))
unfolding current lookup
finish-complete_enrollment_example =
    finish-complete_enrollment padding no_exchange toy_hash toy_scheme policy_codec
      padding-AreCiphers padding-AddsEight toy_scheme_lem cfg issuer
      (record { tenant = refl; key = refl }) 7 12 key containers (plain_policy 2) refl refl
      (length-replicate {A = ℕ} 64 22) (omega arith) (λ tenant counter issued_at. refl) idp (1 ∷ [])
      (9 ∷ []) (record { workspace = 7; issued_at = 100; arrives = true; now = 110 }) gateway after
      approval approval_run refl refl (omega arith, omega arith) 500

abbrev container_of : Option WrappedVolumeKey → ℕ
container_of none = 0
container_of (some vk) = vk.container

abbrev decode_record : Bytes → Option EnrollmentRecord
decode_record (v ∷ n ∷ []) = some (dev_record padding toy_scheme (plain_policy v) n)
decode_record _ = none

-- An encoding of the records of the development enrolment.
abbrev record_codec : Postcard EnrollmentRecord
record_codec = record {
  to_bytes = λ r. r.policy.version ∷ container_of r.volume_key ∷ [];
  from_bytes = decode_record;
}

boot_enrollment_again_example :
    let (first, file) =
      boot_enrollment padding no_exchange toy_hash toy_scheme policy_codec record_codec 12
        (plain_policy 3)
        none
        true
        100
        none in
    let (second, file') =
      boot_enrollment padding no_exchange toy_hash toy_scheme policy_codec record_codec 13
        (plain_policy 5)
        none
        false
        900
        file in
    (first ≡ some (dev_booted padding toy_scheme (plain_policy 3) 12 none true))
    × (second ≡ some (dev_booted padding toy_scheme (plain_policy 3) 12 none false))
    × (file' ≡ file)
boot_enrollment_again_example =
    boot_enrollment_again padding no_exchange toy_hash toy_scheme policy_codec padding-AreCiphers
      padding-AddsEight toy_scheme_lem record_codec 12 13 (plain_policy 3) (plain_policy 5) none
      none false 100 900 (λ tenant counter issued_at. refl) refl

abbrev dev_signer : GatewaySigningKey
dev_signer = record { seed = dev_tenant_seed; tenant = 1 }

dev_opens :
    open_volume padding no_exchange toy_hash toy_scheme policy_codec
      (dev_record padding toy_scheme (plain_policy 3) 12)
      none
      200
    ≡ ok (12, dev_dek)
unfolding open_volume clave.Enroll.Accept.accept new_verifier clave.Enroll.Accept.open_granted
dev_opens = refl

-- The policy with count 1, that the device has enrolled with, is taken again.
verify-boot_from_example :
    (b : BootedEnrollment) × (boot_from padding no_exchange toy_hash toy_scheme policy_codec
        (dev_record padding toy_scheme (plain_policy 3) 12)
        none
        false
        200
      ≡ some b)
    × ((verify toy_scheme policy_codec b.gateway
          (sign toy_scheme policy_codec dev_signer 1 100 (update_policy (plain_policy 3)))
          210).0
        ≡ ok (update_policy (plain_policy 3)))
verify-boot_from_example =
    verify-boot_from padding no_exchange toy_hash toy_scheme policy_codec padding-AreCiphers
      padding-AddsEight toy_scheme_lem (dev_record padding toy_scheme (plain_policy 3) 12)
      dev_signer (12, dev_dek) false 200 100 210 1 (update_policy (plain_policy 3)) refl refl refl
      dev_opens (omega arith) (omega arith) (omega arith)
