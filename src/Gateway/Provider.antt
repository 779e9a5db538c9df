-- ===== src/Gateway/Provider.antt =====
-- crates/clave-gateway/src/idp.rs, session.rs and scim.rs: the identity provider, whose answers are
-- the parameters of the handlers, the sessions, and the events of a directory.
use clave.Prelude.{
  Bool, true, false, Option, none, some, Text, is_empty, nat_eq, list_eq, ◌==◌, if◌then◌else◌,
  Result, ok, err,
}
use clave.Core.Policy.{UnixTime}
use clave.Identity.Email.{WorkspaceId, UserId, EmailAddr}
use clave.Identity.Model.{Role, AuthMethod}
use clave.Gateway.Action.{GatewayError, idp_error, no_refresh_token}

pub record VerifiedUser : Type 0 where
  pub email : EmailAddr
  pub idp_user_id : Text
  pub workspace : WorkspaceId
  pub method : AuthMethod
  pub access_token : Text
  pub refresh_token : Text

pub record DeviceAuth : Type 0 where
  pub user_code : Text
  pub verification_uri : Text
  pub device_code : Text

-- A trait of which the deployed implementation calls a remote service.
pub record IdentityProvider : Type 0 where
  pub exchange_console_code : Text → Result GatewayError VerifiedUser
  pub begin_device_auth : WorkspaceId → Result GatewayError DeviceAuth
  pub poll_device_auth : Text → Result GatewayError (Option VerifiedUser)
  pub refresh_session : Text → Result GatewayError VerifiedUser

-- `MockIdentityProvider`: one user, and the device code that has been approved. The texts of its
-- `begin_device_auth` are the argument `prompt`.
abbrev pub mock_identity_provider : VerifiedUser → Text → DeviceAuth → IdentityProvider
mock_identity_provider user approved_device_code prompt = record {
  exchange_console_code = λ code. ok user;
  begin_device_auth = λ w. ok (record prompt { device_code = approved_device_code });
  poll_device_auth = λ code. if code == approved_device_code then ok (some user) else ok none;
  refresh_session = λ token. if is_empty token then err (idp_error no_refresh_token) else ok user;
}

pub record Session : Type 0 where
  pub user : UserId
  pub workspace : WorkspaceId
  pub role : Role
  pub expires_at : UnixTime
  pub refresh_token : Text

pub record RequestContext : Type 0 where
  pub user : UserId
  pub workspace : WorkspaceId
  pub role : Role

pub data ScimEvent : Type 0 where
  user_activated user_deactivated user_deleted :
      (workspace : WorkspaceId) (email : EmailAddr) → ScimEvent

abbrev pub event_workspace : ScimEvent → WorkspaceId
event_workspace (user_activated w email) = w
event_workspace (user_deactivated w email) = w
event_workspace (user_deleted w email) = w

abbrev pub event_email : ScimEvent → EmailAddr
event_email (user_activated w email) = email
event_email (user_deactivated w email) = email
event_email (user_deleted w email) = email

abbrev pub activates : ScimEvent → Bool
activates (user_activated w email) = true
activates _ = false

pub data MembershipDelta : Type 0 where
  suspended restored : (user : UserId) → MembershipDelta
  unchanged : MembershipDelta
