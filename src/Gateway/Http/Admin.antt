-- ===== src/Gateway/Http/Admin.antt =====
-- crates/clave-gateway/src/http.rs: the handlers behind /admin. Each one is what follows `admin_ctx`,
-- with which all of them begin; `handle_admin` runs it first.
use clave.Prelude.{◌+◌, ◌*◌, Option, none, some, Text, Result, ok, err, codes}
use clave.Core.Policy.{UnixTime, PolicyBundle}
use clave.Identity.Email.{UserId}
use clave.Identity.Model.{Role}
use clave.Proto.External.{Ed25519, Postcard}
use clave.Proto.Command.{Envelope}
use clave.Gateway.Action.{GatewayError}
use clave.Gateway.Store.{DeviceId}
use clave.Gateway.Provider.{Session, RequestContext}
use clave.Gateway.Login.{authorize_request}
use clave.Gateway.Admin.{
  invite_member, invitations, members, change_role, suspend_member, restore_member, devices,
  lock_device, wipe_device,
}
use clave.Gateway.Server.{Gateway, on_store}
use clave.Gateway.Server.Audit.{audit_events, audit_alerts}
use clave.Gateway.Server.Policy.{get_policy, author, reissue_policy, versions}
use clave.Gateway.Http.{
  Sealer, Response, text, member_list, invitation, invitation_list, device_list, policy, authored,
  version_list, signed, events, alerts, reply, json, no_content, bad_request, err_response, answer,
  parse_u128,
}

pub data AdminRequest : Type 0 where
  list_members list_invitations list_devices read_policy policy_versions reissue : AdminRequest
  list_events list_alerts : AdminRequest
  invite : (email : Text) (role : Role) (expires_at : Option UnixTime) → AdminRequest
  change : (user : UserId) (role : Role) → AdminRequest
  suspend restore : (user : UserId) → AdminRequest
  lock wipe : (device : Text) → AdminRequest
  author_bundle : (bundle : PolicyBundle) → AdminRequest

abbrev pub Handler : Type 0
Handler = Gateway → Response × Gateway

unfoldable pub admin_list_members : RequestContext → Handler
unfolding members
admin_list_members ctx g = answer (λ ms. json (member_list ms)) (on_store (members ctx) g)

abbrev or_week : UnixTime → Option UnixTime → UnixTime
or_week now none = now + 7 * 24 * 3600
or_week now (some t) = t

unfoldable pub admin_invite : RequestContext → Text → Role → Option UnixTime → UnixTime → Handler
unfolding invite_member
admin_invite ctx email role expires_at now g =
    answer (λ inv. json (invitation inv))
      (on_store (invite_member ctx email role (or_week now expires_at)) g)

unfoldable pub admin_change_role : RequestContext → UserId → Role → Handler
unfolding change_role
admin_change_role ctx user role g =
    answer (λ _. no_content) (on_store (change_role ctx user role) g)

unfoldable pub admin_suspend : RequestContext → UserId → Handler
admin_suspend ctx user g = answer (λ _. no_content) (on_store (suspend_member ctx user) g)

unfoldable pub admin_restore : RequestContext → UserId → Handler
admin_restore ctx user g = answer (λ _. no_content) (on_store (restore_member ctx user) g)

unfoldable pub admin_list_invitations : RequestContext → Handler
unfolding invitations
admin_list_invitations ctx g =
    answer (λ invites. json (invitation_list invites)) (on_store (invitations ctx) g)

unfoldable pub admin_list_devices : RequestContext → Handler
unfolding devices
admin_list_devices ctx g = answer (λ ds. json (device_list ds)) (on_store (devices ctx) g)

abbrev pub decimal_wanted : Response
decimal_wanted = bad_request (codes "device must be a decimal u128")

abbrev pub on_device : (DeviceId → Handler) → Option DeviceId → Handler
on_device f none g = (decimal_wanted, g)
on_device f (some id) g = f id g

unfoldable pub admin_lock_device : RequestContext → Text → Handler
unfolding lock_device parse_u128
admin_lock_device ctx device =
    on_device (λ id g. answer (λ _. no_content) (on_store (lock_device ctx id) g))
      (parse_u128 device)

unfoldable pub admin_wipe_device : RequestContext → Text → Handler
unfolding wipe_device parse_u128
admin_wipe_device ctx device =
    on_device (λ id g. answer (λ _. no_content) (on_store (wipe_device ctx id) g))
      (parse_u128 device)

unfoldable pub admin_get_policy : RequestContext → Handler
unfolding get_policy
admin_get_policy ctx g = answer (λ p. json (policy p)) (get_policy ctx g)

unfoldable pub admin_author_policy : RequestContext → PolicyBundle → Handler
unfolding author
admin_author_policy ctx bundle g = answer (λ p. json (authored p)) (author ctx bundle g)

unfoldable pub admin_policy_versions : RequestContext → Handler
unfolding versions
admin_policy_versions ctx g = answer (λ vs. json (version_list vs)) (versions ctx g)

unfoldable pub admin_audit_events : RequestContext → Handler
unfolding audit_events
admin_audit_events ctx g = answer (λ es. json (events es)) (audit_events ctx g)

unfoldable pub admin_audit_alerts : RequestContext → Handler
unfolding audit_alerts
admin_audit_alerts ctx g = answer (λ found. json (alerts found)) (audit_alerts ctx g)

abbrev pub read_session : Sealer → Option Text → Option Session
read_session sealer none = none
read_session sealer (some value) = sealer.unseal value

abbrev pub no_session : Response
no_session = reply 401 (text (codes "no session"))

abbrev pub authorized_by :
    Result GatewayError RequestContext × Gateway → Result Response RequestContext × Gateway
authorized_by (ok ctx, g) = (ok ctx, g)
authorized_by (err e, g) = (err (err_response e), g)

unfoldable pub ctx_of :
    UnixTime → Option Session → Gateway → Result Response RequestContext × Gateway
unfolding authorize_request
ctx_of now none g = (err no_session, g)
ctx_of now (some session) g = authorized_by (on_store (authorize_request session now) g)

-- `admin_ctx`
unfoldable pub admin_ctx :
    Sealer → Option Text → UnixTime → Gateway → Result Response RequestContext × Gateway
unfolding ctx_of
admin_ctx sealer cookie now g = ctx_of now (read_session sealer cookie) g

module _ (ed : Ed25519) (codec : Postcard Envelope) where
  unfoldable pub admin_reissue_policy : RequestContext → UnixTime → Handler
  unfolding reissue_policy
  admin_reissue_policy ctx now g =
      answer (λ command. json (signed command)) (reissue_policy ed codec ctx now g)

  -- The handler of each route
  unfoldable pub perform : AdminRequest → RequestContext → UnixTime → Handler
  unfolding admin_list_members admin_invite admin_change_role admin_suspend admin_restore
      admin_list_invitations admin_list_devices admin_lock_device admin_wipe_device admin_get_policy
      admin_author_policy admin_policy_versions admin_audit_events admin_audit_alerts
      admin_reissue_policy
  perform list_members ctx now = admin_list_members ctx
  perform (invite email role expires_at) ctx now = admin_invite ctx email role expires_at now
  perform (change user role) ctx now = admin_change_role ctx user role
  perform (suspend user) ctx now = admin_suspend ctx user
  perform (restore user) ctx now = admin_restore ctx user
  perform list_invitations ctx now = admin_list_invitations ctx
  perform list_devices ctx now = admin_list_devices ctx
  perform (lock device) ctx now = admin_lock_device ctx device
  perform (wipe device) ctx now = admin_wipe_device ctx device
  perform read_policy ctx now = admin_get_policy ctx
  perform (author_bundle bundle) ctx now = admin_author_policy ctx bundle
  perform policy_versions ctx now = admin_policy_versions ctx
  perform reissue ctx now = admin_reissue_policy ctx now
  perform list_events ctx now = admin_audit_events ctx
  perform list_alerts ctx now = admin_audit_alerts ctx

  unfoldable pub perform_as :
      AdminRequest → UnixTime → Result Response RequestContext × Gateway → Response × Gateway
  unfolding perform
  perform_as request now (err r, g) = (r, g)
  perform_as request now (ok ctx, g) = perform request ctx now g

  unfoldable pub handle_admin : Sealer → Option Text → UnixTime → AdminRequest → Handler
  unfolding admin_ctx perform_as
  handle_admin sealer cookie now request g = perform_as request now (admin_ctx sealer cookie now g)
