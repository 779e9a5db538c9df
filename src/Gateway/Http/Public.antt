-- ===== src/Gateway/Http/Public.antt =====
-- crates/clave-gateway/src/http.rs: the handlers behind the other routes.
use clave.Prelude.{
  Bool, false, not, Option, none, some, map_option, strip_prefix, list_eq, nat_eq, ◌==◌, length,
  List, [], Bytes, Text, codes, Result, ok, err, if◌then◌else◌,
}
use clave.Core.Policy.{UnixTime}
use clave.Core.Audit.{AuditEvent}
use clave.Identity.Email.{WorkspaceId}
use clave.Proto.External.{Ed25519, Postcard}
use clave.Proto.Command.{Envelope}
use clave.Proto.Audit.{SignedSpoolBatch}
use clave.Volume.Types.{Ciphers}
use clave.Gateway.Action.{GatewayError, session_invalid}
use clave.Gateway.Store.{DeviceId}
use clave.Gateway.Provider.{IdentityProvider, Session, RequestContext, ScimEvent}
use clave.Gateway.Login.{console_login, refresh_session, authorize_request}
use clave.Gateway.Admin.{apply_directory_event}
use clave.Gateway.Ledger.{IngestError}
use clave.Gateway.Server.{Gateway, on_store, begin_enrollment, poll_enrollment, complete_enrollment}
use clave.Gateway.Server.Audit.{ingest_device_audit}
use clave.Gateway.Http.{
  session_ttl_secs, Sealer, Body, text, delta, admitted, session_info, me, device_auth, outcome,
  completion, Response, reply, json, no_content, bad_request, with_cookie, err_response,
  audit_err_response, answer, parse_u128, parse_pubkey,
}
use clave.Gateway.Http.Admin.{Handler, read_session, no_session, decimal_wanted}

abbrev is_token : Text → Option Text → Bool
is_token expected none = false
is_token expected (some token) = token == expected

abbrev bearer : Option Text → Option Text
bearer none = none
bearer (some header) = strip_prefix (codes "Bearer ") header

unfoldable pub scim_authorized : Option Text → Option Text → Bool
scim_authorized none authorization = false
scim_authorized (some expected) authorization = is_token expected (bearer authorization)

unfoldable pub scim_events : Option Text → Option Text → ScimEvent → Handler
unfolding scim_authorized apply_directory_event
scim_events scim_token authorization event g =
    if not (scim_authorized scim_token authorization)
    then (reply 401 (text (codes "invalid or missing SCIM token")), g)
    else answer (λ d. json (delta d)) (on_store (apply_directory_event event) g)

-- A session goes into a cookie, if it can be sealed.
abbrev sealed_reply : Result GatewayError Text → Body → Response
sealed_reply (err e) body = err_response e
sealed_reply (ok value) body = with_cookie value (json body)

unfoldable pub logout : Response
logout = with_cookie [] no_content

module _ (idp : IdentityProvider) (sealer : Sealer) (now : UnixTime) where
  unfoldable pub console_callback : Text → Handler
  unfolding console_login
  console_callback code g =
      answer (λ (s : Session). sealed_reply (sealer.seal s) (session_info s.workspace s.role))
        (on_store (console_login idp code now session_ttl_secs) g)

  unfoldable pub refresh_and_reply : Session → Handler
  unfolding refresh_session
  refresh_and_reply session g =
      answer (λ (s : Session). sealed_reply (sealer.seal s) (me s.user s.workspace s.role))
        (on_store (refresh_session idp session now session_ttl_secs) g)

  abbrev me_by : Session → Result GatewayError RequestContext × Gateway → Response × Gateway
  unfolding refresh_and_reply
  me_by session (ok ctx, g) = (json (me ctx.user ctx.workspace ctx.role), g)
  me_by session (err session_invalid, g) = refresh_and_reply session g
  me_by session (err e, g) = (err_response e, g)

  abbrev me_of : Option Session → Handler
  unfolding me_by authorize_request
  me_of none g = (no_session, g)
  me_of (some session) g = me_by session (on_store (authorize_request session now) g)

  unfoldable pub auth_me : Option Text → Handler
  unfolding me_of
  auth_me cookie g = me_of (read_session sealer cookie) g

module _ (idp : IdentityProvider) where
  unfoldable pub enroll_start : WorkspaceId → Handler
  enroll_start ws g = answer (λ auth. json (device_auth auth)) (begin_enrollment idp ws g)

  unfoldable pub enroll_poll : WorkspaceId → Text → Handler
  unfolding poll_enrollment
  enroll_poll ws device_code g =
      answer (λ o. json (outcome o)) (poll_enrollment idp ws device_code g)

module _ (ed : Ed25519) (codec : Postcard Envelope) (c : Ciphers) (idp : IdentityProvider)
    (now : UnixTime) where
  -- The wrapping key is absent, refused, or read.
  abbrev complete_with : WorkspaceId → Text → Option Bytes → Option (Option Bytes) → Handler
  unfolding complete_enrollment
  complete_with ws device_code none wrapping_key g =
      (bad_request (codes "device_pubkey must be 64 hex chars (32 bytes)"), g)
  complete_with ws device_code (some pubkey) (some none) g =
      (bad_request (codes "device_wrapping_key must be 64 hex chars (32 bytes)"), g)
  complete_with ws device_code (some pubkey) none g =
      answer (λ o. json (completion o))
        (complete_enrollment ed codec c idp ws device_code pubkey none now g)
  complete_with ws device_code (some pubkey) (some (some key)) g =
      answer (λ o. json (completion o))
        (complete_enrollment ed codec c idp ws device_code pubkey (some key) now g)

  unfoldable pub enroll_complete : WorkspaceId → Text → Text → Option Text → Handler
  unfolding complete_with parse_pubkey
  enroll_complete ws device_code device_pubkey device_wrapping_key g =
      complete_with ws device_code (parse_pubkey device_pubkey)
        (map_option parse_pubkey device_wrapping_key) g

module _ (sha256 : Bytes → Bytes) (codec : Postcard AuditEvent) (ed : Ed25519) where
  abbrev ingested : Result IngestError (List AuditEvent) × Gateway → Response × Gateway
  ingested (ok events, g) = (json (admitted (length events)), g)
  ingested (err e, g) = (audit_err_response e, g)

  abbrev ingest_for : SignedSpoolBatch → Option DeviceId → Handler
  unfolding ingest_device_audit
  ingest_for batch none g = (decimal_wanted, g)
  ingest_for batch (some id) g = ingested (ingest_device_audit sha256 codec ed id batch g)

  unfoldable pub audit_ingest : Text → SignedSpoolBatch → Handler
  unfolding ingest_for parse_u128
  audit_ingest device batch g = ingest_for batch (parse_u128 device) g
