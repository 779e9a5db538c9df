-- ===== src/Gateway/Http.antt =====
-- crates/clave-gateway/src/http.rs: the handlers behind the routes. The framework (axum) decodes a
-- request and encodes a response; a request here is its decoded body with its session cookie and its
-- authorization header, and the sealing of sessions into cookies is a parameter.
pub mod Admin
pub mod Public
pub mod Guarded
use clave.Prelude.{
  ℕ, ◌+◌, ◌-◌, ◌*◌, ◌^◌, Bool, true, false, not, ◌&&◌, ltb, leb, nat_eq, ◌==◌, list_eq, Option,
  none, some, List, [], ◌∷◌, Bytes, Text, codes, length, is_empty, parse_below, strip_prefix,
  Result, ok, err, if◌then◌else◌,
}
use clave.Core.Policy.{UnixTime, PolicyBundle}
use clave.Core.Audit.{AuditEvent}
use clave.Identity.Email.{WorkspaceId, UserId}
use clave.Identity.Model.{Role, Invitation}
use clave.Proto.External.{Ed25519, Postcard}
use clave.Proto.Command.{Envelope, SignedCommand}
use clave.Proto.Audit.{SignedSpoolBatch}
use clave.Volume.Types.{Ciphers}
use clave.Gateway.Action.{
  GatewayError, unauthorized, forbidden, not_found, store_error, idp_error, counter_error, invite,
  no_such_workspace, session_invalid, Action,
}
use clave.Gateway.Store.{DeviceId, DeviceRecord, MemberRecord}
use clave.Gateway.Provider.{
  IdentityProvider, DeviceAuth, Session, RequestContext, ScimEvent, MembershipDelta,
}
use clave.Gateway.Login.{console_login, refresh_session, authorize_request}
use clave.Gateway.Admin.{
  invite_member, invitations, members, change_role, suspend_member, restore_member, devices,
  lock_device, wipe_device, apply_directory_event,
}
use clave.Gateway.Ledger.{AuditAlert, AuditRecord, IngestError, unknown_device, rejected}
use clave.Gateway.Server.{
  Gateway, EnrollmentOutcome, EnrollmentCompletion, on_store, begin_enrollment, poll_enrollment,
  complete_enrollment,
}
use clave.Gateway.Server.Audit.{ingest_device_audit, audit_events, audit_alerts}
use clave.Gateway.Server.Policy.{get_policy, author, reissue_policy, versions}

-- `SESSION_TTL_SECS`
abbrev pub session_ttl_secs : ℕ
session_ttl_secs = 8 * 60 * 60

-- `SessionSealer`: encryption, JSON and base64 come from other crates.
pub record Sealer : Type 0 where
  pub seal : Session → Result GatewayError Text
  pub unseal : Text → Option Session

-- What a response shows; the text of an error is named by the error.
pub data Body : Type 0 where
  empty : Body
  text : Text → Body
  failure : GatewayError → Body
  not_ingested : IngestError → Body
  delta : MembershipDelta → Body
  admitted : ℕ → Body
  events : List AuditRecord → Body
  alerts : List AuditAlert → Body
  member_list : List MemberRecord → Body
  invitation : Invitation → Body
  invitation_list : List Invitation → Body
  device_list : List DeviceRecord → Body
  policy : Option PolicyBundle → Body
  authored : PolicyBundle → Body
  version_list : List ℕ → Body
  signed : SignedCommand → Body
  session_info : WorkspaceId → Role → Body
  me : UserId → WorkspaceId → Role → Body
  device_auth : DeviceAuth → Body
  outcome : EnrollmentOutcome → Body
  completion : EnrollmentCompletion → Body

pub record Response : Type 0 where
  pub status : ℕ
  pub body : Body
  -- The value of the session cookie that the response sets
  pub cookie : Option Text

abbrev pub reply : ℕ → Body → Response
reply status body = record { status = status; body = body; cookie = none }

abbrev pub json : Body → Response
json body = reply 200 body

abbrev pub no_content : Response
no_content = reply 204 empty

abbrev pub bad_request : Text → Response
bad_request what = reply 400 (text what)

abbrev pub with_cookie : Text → Response → Response
with_cookie value r = record r { cookie = some value }

abbrev pub status_of : GatewayError → ℕ
status_of (unauthorized reason) = 403
status_of (invite e) = 403
status_of (forbidden m) = 403
status_of session_invalid = 401
status_of no_such_workspace = 404
status_of (not_found m) = 404
status_of (idp_error m) = 502
status_of (store_error m) = 500
status_of (counter_error m) = 500

abbrev pub err_response : GatewayError → Response
err_response e = reply (status_of e) (failure e)

abbrev pub audit_err_response : IngestError → Response
audit_err_response (unknown_device d) = reply 404 (not_ingested (unknown_device d))
audit_err_response (rejected e) = reply 409 (not_ingested (rejected e))

-- `match … { Ok(a) => …, Err(e) => err_response(e) }`
abbrev pub answer :
    {A : Type 0} → (A → Response) → Result GatewayError A × Gateway → Response × Gateway
answer f (ok a, g) = (f a, g)
answer f (err e, g) = (err_response e, g)

-- `str::parse::<u128>`
unfoldable pub parse_u128 : Text → Option ℕ
unfolding parse_below
parse_u128 s = parse_below (2 ^ 128) s

abbrev hex_value : ℕ → Option ℕ
hex_value c =
    if leb b'0' c && leb c b'9'
    then some (c - b'0')
    else if leb b'a' c && leb c b'f'
    then some (c - b'a' + 10)
    else if leb b'A' c && leb c b'F'
    then some (c - b'A' + 10)
    else none

abbrev pair_of : Option ℕ → Option ℕ → Option ℕ
pair_of (some a) (some b) = some (a * 16 + b)
pair_of _ _ = none

-- `u8::from_str_radix` on two digits, the first of which can be a sign
abbrev hex_byte : ℕ → ℕ → Option ℕ
hex_byte a b = if a == b'+' then hex_value b else pair_of (hex_value a) (hex_value b)

abbrev cons_byte : Option ℕ → Option Bytes → Option Bytes
cons_byte (some b) (some bytes) = some (b ∷ bytes)
cons_byte _ _ = none

hex_bytes : Text → Option Bytes
hex_bytes [] = some []
hex_bytes (a ∷ []) = none
hex_bytes (a ∷ b ∷ s) = cons_byte (hex_byte a b) (hex_bytes s)

-- A text that is 64 bytes long is refused if one of its characters is not ASCII.
unfoldable pub parse_pubkey : Text → Option Bytes
unfolding hex_bytes
parse_pubkey s = if not (length s == 64) then none else hex_bytes s
