-- ===== src/Enroll/Client.antt =====
-- crates/clave-daemon/src/enroll_client.rs: the client that enrols a device, and waits until it is
-- approved. The transport is a parameter; `polls n` is its answer to the n-th poll.
use clave.Prelude.{
  ℕ, zero, suc, ◌+◌, Option, none, some, Text, Bytes, leb, Result, ok, err, ◌>>=◌, ◌>>◌, ok_or,
  map_err, if◌then◌else◌,
}
use clave.Core.Policy.{UnixTime, PolicyBundle}
use clave.Proto.External.{Ed25519, Postcard}
use clave.Proto.Command.{TenantId, Envelope, SignedCommand}
use clave.Proto.Enroll.{WrappedVolumeKey, TlsCredentials, new_grant}
use clave.Volume.Types.{Ciphers}
use clave.Volume.Keys.{X25519}
use clave.Gateway.Provider.{DeviceAuth}
use clave.Gateway.Store.{hex}
use clave.Enroll.Accept.{DeviceEnrollment, symmetric, EnrollError, accept}

pub data PollStatus : Type 0 where
  pending approved : PollStatus

pub data CompletionStatus : Type 0 where
  pending : CompletionStatus
  approved :
      (policy : Option SignedCommand) (volume_key : Option WrappedVolumeKey)
      (tls : Option TlsCredentials)
      → CompletionStatus

pub record CompleteRequest : Type 0 where
  pub workspace : ℕ
  pub device_code : Text
  pub device_pubkey : Text
  pub device_wrapping_key : Option Text

pub record EnrollmentConfig : Type 0 where
  pub workspace : ℕ
  pub tenant : TenantId
  pub pinned_tenant_key : Bytes
  pub device_identity_pubkey : Bytes
  pub device_wrapping_key : Bytes
  pub device_signing_seed : Bytes
  pub max_polls : ℕ

pub data EnrollClientError : Type 0 where
  transport : Text → EnrollClientError
  timed_out not_approved no_policy : EnrollClientError
  accept_failed : EnrollError → EnrollClientError

pub record EnrollmentRecord : Type 0 where
  pub tenant : TenantId
  pub pinned_tenant_key : Bytes
  pub policy : PolicyBundle
  pub volume_key : Option WrappedVolumeKey
  pub device_signing_seed : Bytes
  pub device_kek : Option Bytes
  pub tls : Option TlsCredentials

pub record EnrollmentTransport : Type 0 where
  pub start : ℕ → Result EnrollClientError DeviceAuth
  pub poll : ℕ → Text → ℕ → Result EnrollClientError PollStatus
  pub complete : CompleteRequest → Result EnrollClientError CompletionStatus

-- The loop of `enroll`, on fuel: `polls` have been answered with pending so far.
unfoldable pub poll_loop :
    (ℕ → Result EnrollClientError PollStatus)
    → (max_polls : ℕ) (fuel polls : ℕ) → Option (Result EnrollClientError (Unit {0}))
poll_loop answers max_polls zero polls = none
poll_loop answers max_polls (suc fuel) polls =
    let again = poll_loop answers max_polls fuel (polls + 1) in
    elim (answers polls) [
      | err e ↦ some (err e)
      | ok PollStatus.approved ↦ some (ok tt)
      | ok PollStatus.pending ↦ if leb max_polls (polls + 1) then some (err timed_out) else again
    ]

-- Enough for the loop, which gives up after `max_polls` polls, or after one.
abbrev pub enough_polls : ℕ → ℕ
enough_polls max_polls = max_polls + 1

abbrev granted :
    CompletionStatus
    → Result EnrollClientError
        (Option SignedCommand × Option WrappedVolumeKey × Option TlsCredentials)
granted (CompletionStatus.approved policy volume_key tls) = ok (policy, volume_key, tls)
granted CompletionStatus.pending = err not_approved

-- `complete` in `enroll`: the request, with its keys in hex
abbrev complete_request : EnrollmentConfig → DeviceAuth → CompleteRequest
unfolding hex
complete_request cfg auth = record {
  workspace = cfg.workspace;
  device_code = auth.device_code;
  device_pubkey = hex cfg.device_identity_pubkey;
  device_wrapping_key = some (hex cfg.device_wrapping_key);
}

module _ (c : Ciphers) (x : X25519) (sha256 : Bytes → Bytes) (ed : Ed25519)
    (codec : Postcard Envelope) where
  -- The part of `enroll` after the approval.
  unfoldable pub finish :
      EnrollmentConfig → CompletionStatus → UnixTime → Result EnrollClientError EnrollmentRecord
  unfolding accept
  finish cfg completion now = do
    grant ← granted completion
    let enrollment : DeviceEnrollment = record {
      tenant = cfg.tenant;
      pinned_tenant_key = cfg.pinned_tenant_key;
      volume_key = symmetric cfg.device_wrapping_key;
    }
    accepted ←
        map_err accept_failed
          (accept c x sha256 ed codec enrollment (new_grant grant.0 grant.1) now)
    policy ← ok_or accepted.policy no_policy
    ok (record {
      tenant = cfg.tenant;
      pinned_tenant_key = cfg.pinned_tenant_key;
      policy = policy;
      volume_key = grant.1;
      device_signing_seed = cfg.device_signing_seed;
      device_kek = some cfg.device_wrapping_key;
      tls = grant.2;
    })

  unfoldable pub after_polls :
      EnrollmentTransport
      → EnrollmentConfig
      → DeviceAuth
      → UnixTime
      → Option (Result EnrollClientError (Unit {0}))
      → Option (Result EnrollClientError EnrollmentRecord)
  unfolding finish complete_request
  after_polls t cfg auth now none = none
  after_polls t cfg auth now (some r) =
      some do r; completion ← t.complete (complete_request cfg auth); finish cfg completion now

  unfoldable pub enroll_with :
      EnrollmentTransport
      → EnrollmentConfig
      → UnixTime
      → Result EnrollClientError DeviceAuth
      → Option (Result EnrollClientError EnrollmentRecord)
  unfolding poll_loop after_polls
  enroll_with t cfg now (err e) = some (err e)
  enroll_with t cfg now (ok auth) = after_polls t cfg auth now (
      poll_loop (t.poll cfg.workspace auth.device_code) cfg.max_polls (enough_polls cfg.max_polls)
        0)

  -- `EnrollmentClient::enroll`; `none` would be a loop that is cut short.
  unfoldable pub enroll :
      EnrollmentTransport
      → EnrollmentConfig
      → UnixTime
      → Option (Result EnrollClientError EnrollmentRecord)
  unfolding enroll_with
  enroll t cfg now = enroll_with t cfg now (t.start cfg.workspace)
