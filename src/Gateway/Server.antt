-- ===== src/Gateway/Server.antt =====
-- crates/clave-gateway/src/gateway.rs: the gateway as a whole, over `MemStore`, with the services it
-- has been given; the enrolment of devices, the audit batches, the policies.
pub mod Handed
pub mod Enrolled
pub mod Audit
pub mod Policy
use clave.Prelude.{
  ℕ, Option, none, some, List, [], ◌∷◌, ◌++◌, map, Text, Bytes, Result, ok, err, find, filter, any,
  nat_eq, ◌==◌, lookup, pair_eq, length, if◌then◌else◌, is_some, map_option,
}
use clave.Core.Audit.{AuditEvent}
use clave.Core.Policy.{UnixTime, PolicyBundle}
use clave.Identity.Email.{WorkspaceId, UserId}
use clave.Identity.Model.{Role, Workspace}
use clave.Identity.Authz.{EnrollmentDecision, authorize_enrollment, manage_policy, view_audit}
use clave.Proto.External.{Ed25519, Postcard}
use clave.Proto.Command.{Envelope, SignedCommand}
use clave.Proto.Audit.{SpoolEntry, SignedSpoolBatch, ChainHash, genesis}
use clave.Proto.Enroll.{WrappedVolumeKey, TlsCredentials}
use clave.Volume.Types.{Ciphers}
use clave.Gateway.Action.{
  GatewayError, unauthorized, no_such_workspace, not_found, no_policy_issuer, no_policy, Action,
  pure, raise, lift, gets, modify, require_some, ◌>>=◌, ◌>>◌,
}
use clave.Gateway.Store.{DeviceId, DeviceRecord, Inner, workspace, upsert_user, membership}
use clave.Gateway.Store.Devices.{
  record_device, set_device_fingerprint, device_by_fingerprint, list_devices,
}
use clave.Gateway.Provider.{VerifiedUser, IdentityProvider, DeviceAuth, RequestContext}
use clave.Gateway.Admin.{require}
use clave.Gateway.Ledger.{
  AuditLedger, AuditAlert, AuditRecord, IngestError, MemAuditState, PersistedChain, register_device,
  restore_device, ingest, high_water, head_for, events_for, register, append, keep_alert,
  load_chains,
}
use clave.Gateway.Policies.{MemPolicyIssuer, sign_current, current, author_policy, policy_versions}
use clave.Gateway.VolumeKeys.{KeyService, issue_key}

-- `IssuedTls`, and a `DeviceCertIssuer`: a certificate authority (rcgen) makes the certificates.
pub record IssuedTls : Type 0 where
  pub ca_pem : Bytes
  pub cert_pem : Bytes
  pub key_pem : Bytes
  pub fingerprint : Bytes

pub record DeviceCertIssuer : Type 0 where
  pub issue : DeviceId → Result GatewayError IssuedTls
  pub server_name : Text
  pub gateway_addr : Text

-- The store, and what the `with_` functions configure.
pub record Gateway : Type 0 where
  pub store : Inner
  pub policy_issuer : Option MemPolicyIssuer
  pub volume_keys : Option KeyService
  pub audit : AuditLedger
  pub audit_store : Option MemAuditState
  pub device_ca : Option DeviceCertIssuer

pub data EnrollmentOutcome : Type 0 where
  pending : EnrollmentOutcome
  approved : (user : UserId) (role : Role) → EnrollmentOutcome

pub record Approval : Type 0 where
  pub device : DeviceId
  pub user : UserId
  pub role : Role
  pub policy : Option SignedCommand
  pub volume_key : Option WrappedVolumeKey
  pub tls : Option TlsCredentials

pub data EnrollmentCompletion : Type 0 where
  pending : EnrollmentCompletion
  approved : Approval → EnrollmentCompletion

-- A call of the store from the gateway.
abbrev pub on_store : {A : Type 0} → Action Inner A → Action Gateway A
on_store m g = let (r, s) = m g.store in (r, record g { store = s })

abbrev decide_enrollment : UserId → EnrollmentDecision → Action Inner (Option (UserId × Role))
decide_enrollment user (EnrollmentDecision.allow w role) = pure (some (user, role))
decide_enrollment user (EnrollmentDecision.deny reason) = raise (unauthorized reason)

abbrev authorize_user : WorkspaceId → Option VerifiedUser → Action Inner (Option (UserId × Role))
unfolding upsert_user authorize_enrollment
authorize_user ws none = pure none
authorize_user ws (some vu) = do
  found ← workspace ws
  w ← require_some no_such_workspace found
  user ← upsert_user vu.email vu.idp_user_id
  m ← membership ws user
  decide_enrollment user (authorize_enrollment w m)

unfoldable pub authorize_enrollment_poll :
    IdentityProvider → WorkspaceId → Text → Action Inner (Option (UserId × Role))
unfolding authorize_user
authorize_enrollment_poll idp ws device_code = do
  vu ← lift (idp.poll_device_auth device_code)
  authorize_user ws vu

abbrev outcome_of : Option (UserId × Role) → EnrollmentOutcome
outcome_of none = EnrollmentOutcome.pending
outcome_of (some (user, role)) = EnrollmentOutcome.approved user role

unfoldable pub poll_enrollment :
    IdentityProvider → WorkspaceId → Text → Action Gateway EnrollmentOutcome
unfolding authorize_enrollment_poll
poll_enrollment idp ws device_code = do
  found ← on_store (authorize_enrollment_poll idp ws device_code)
  pure (outcome_of found)

abbrev pub begin_enrollment : IdentityProvider → WorkspaceId → Action Gateway DeviceAuth
begin_enrollment idp ws = lift (idp.begin_device_auth ws)

-- The device is entered in the ledger and, if there is one, in the audit store.
abbrev pub enter_device : DeviceId → Bytes → Gateway → Gateway
unfolding register_device register
enter_device device pubkey g = record g {
  audit = register_device device pubkey g.audit;
  audit_store = map_option (register device pubkey) g.audit_store;
}

unfoldable pub key_for :
    Ciphers
    → WorkspaceId
    → Option KeyService
    → Option Bytes
    → Result GatewayError (Option WrappedVolumeKey)
unfolding issue_key
key_for c ws (some service) (some kek) = issue_key c service ws kek
key_for c ws _ _ = ok none

-- A failure of the issuer is only logged.
abbrev with_certificate :
    DeviceId
    → DeviceCertIssuer
    → Result GatewayError IssuedTls
    → Action Gateway (Option TlsCredentials)
unfolding set_device_fingerprint
with_certificate device issuer (err e) = pure none
with_certificate device issuer (ok issued) = do
  on_store (set_device_fingerprint device issued.fingerprint)
  pure (
      some (record {
        ca_pem = issued.ca_pem;
        cert_pem = issued.cert_pem;
        key_pem = issued.key_pem;
        server_name = issuer.server_name;
        gateway_addr = issuer.gateway_addr;
      }))

abbrev tls_for : DeviceId → Option DeviceCertIssuer → Action Gateway (Option TlsCredentials)
unfolding with_certificate
tls_for device none = pure none
tls_for device (some issuer) = with_certificate device issuer (issuer.issue device)

module _ (ed : Ed25519) (codec : Postcard Envelope) where
  unfoldable pub sign_with :
      WorkspaceId
      → UnixTime
      → Option MemPolicyIssuer
      → Option SignedCommand × Option MemPolicyIssuer
  unfolding sign_current
  sign_with ws now none = (none, none)
  sign_with ws now (some issuer) =
      let (signed, issuer') = sign_current ed codec ws now issuer in (signed, some issuer')

  -- `issue_initial_policy` of the issuer, if there is one
  abbrev initial_policy : WorkspaceId → UnixTime → Action Gateway (Option SignedCommand)
  unfolding sign_with
  initial_policy ws now g =
      let (signed, issuer) = sign_with ws now g.policy_issuer in
      (ok signed, record g { policy_issuer = issuer })

module _ (ed : Ed25519) (codec : Postcard Envelope) (c : Ciphers) where
  -- The branch of `complete_enrollment` for an approved user.
  unfoldable pub enroll_approved :
      WorkspaceId
      → Bytes
      → Option Bytes
      → UnixTime
      → UserId × Role
      → Action Gateway EnrollmentCompletion
  unfolding record_device enter_device initial_policy key_for tls_for
  enroll_approved ws pubkey wrapping_key now (user, role) = do
    device ← on_store (record_device ws user pubkey)
    modify (enter_device device pubkey)
    policy ← initial_policy ed codec ws now
    volume_key ← λ g. (key_for c ws g.volume_keys wrapping_key, g)
    ca ← gets (λ g. g.device_ca)
    tls ← tls_for device ca
    pure (
        EnrollmentCompletion.approved (record {
          device = device;
          user = user;
          role = role;
          policy = policy;
          volume_key = volume_key;
          tls = tls;
        }))

  abbrev complete_by :
      WorkspaceId
      → Bytes
      → Option Bytes
      → UnixTime
      → Option (UserId × Role)
      → Action Gateway EnrollmentCompletion
  unfolding enroll_approved
  complete_by ws pubkey wrapping_key now none = pure EnrollmentCompletion.pending
  complete_by ws pubkey wrapping_key now (some found) =
      enroll_approved ws pubkey wrapping_key now found

  unfoldable pub complete_enrollment :
      IdentityProvider
      → WorkspaceId
      → Text
      → Bytes
      → Option Bytes
      → UnixTime
      → Action Gateway EnrollmentCompletion
  unfolding authorize_enrollment_poll complete_by
  complete_enrollment idp ws device_code pubkey wrapping_key now = do
    found ← on_store (authorize_enrollment_poll idp ws device_code)
    complete_by ws pubkey wrapping_key now found
