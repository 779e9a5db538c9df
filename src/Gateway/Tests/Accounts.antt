-- ===== src/Gateway/Tests/Accounts.antt =====
-- A workspace with an owner, an invited administrator, and what they do.
mod Http
use clave.Prelude.{
  ℕ, ◌≡◌, refl, arith, true, false, some, List, [], ◌∷◌, Bytes, codes, ok, err, nat_eq, list_eq,
  pair_eq, lookup, insert, list_beq, to_lower, trim,
}
use clave.Identity.Email.{EmailAddr, email_domain}
use clave.Identity.Model.{
  member, admin, owner, active, suspended, required, sso, Workspace, Membership, Invitation,
  domain_allowed,
}
use clave.Identity.Authz.{
  is_suspended, authorize_login, accept_invitation, active_member_role, can, min_role,
}
use clave.Gateway.Action.{unauthorized}
use clave.Gateway.Store.{
  Inner, new_store, seed_workspace, seed_membership, seed_invitation, upsert_user,
  mark_invitation_accepted, hex,
}
use clave.Gateway.Store.Devices.{record_device, set_device_status, set_status}
use clave.Gateway.Store.Enrolments.{Op, enrols, sets, run, run-IsOf, IsOf}
use clave.Gateway.Provider.{
  VerifiedUser, DeviceAuth, IdentityProvider, mock_identity_provider, Session, RequestContext,
}
use clave.Gateway.Login.{console_login, enter, authorize_request}
use clave.Gateway.Login.Sessions.{
  LoggedIn, HasWorkspacesById, console_login-LoggedIn, authorize_request-console_login,
}
use clave.Gateway.Login.Revoked.{authorize_request-suspend_member}
use clave.Gateway.Admin.{require, set_member_status, suspend_member}
use clave.Gateway.Admin.Changes.{change, suspend, perform_all, IsKeyed}
use clave.Gateway.Admin.Seniority.{senior, perform_all-senior}

abbrev address : EmailAddr
address = codes "ada@acme.com"

abbrev acme : Workspace
acme = record { id = 7; allowed_domains = codes "ACME.com" ∷ []; sso = required }

abbrev boss : Membership
boss = record { workspace = 7; user = 90; role = owner; status = active }

abbrev invitation : Invitation
invitation = record {
  workspace = 7;
  email = address;
  role = admin;
  expires_at = 100;
  accepted = false;
}

abbrev start : Inner
start = record new_store {
  workspaces = (7, acme) ∷ [];
  memberships = ((7, 90), boss) ∷ [];
  invitations = ((7, address), invitation) ∷ [];
}

abbrev ada : VerifiedUser
ada = record {
  email = address;
  idp_user_id = codes "u";
  workspace = 7;
  method = sso true;
  access_token = codes "a";
  refresh_token = codes "r";
}

abbrev prompt : DeviceAuth
prompt = record {
  user_code = codes "WXYZ-1234";
  verification_uri = codes "https://example.test/activate";
  device_code = [];
}

abbrev idp : IdentityProvider
idp = mock_identity_provider ada (codes "dev") prompt

abbrev session : Session
session = record {
  user = 1;
  workspace = 7;
  role = admin;
  expires_at = 80;
  refresh_token = codes "r";
}

abbrev joined : Membership
joined = record { workspace = 7; user = 1; role = admin; status = active }

-- The store after the first login: the invitation is used up.
abbrev after_login : Inner
after_login = record start {
  next_user = 1;
  users = (address, 1) ∷ [];
  emails = (1, address) ∷ [];
  memberships = ((7, 90), boss) ∷ ((7, 1), joined) ∷ [];
  invitations = ((7, address), record invitation { accepted = true }) ∷ [];
}

login_run : console_login idp (codes "c") 50 30 start ≡ (ok session, after_login)
unfolding console_login enter upsert_user mark_invitation_accepted authorize_login accept_invitation
    active_member_role domain_allowed email_domain seed_membership lookup insert list_beq to_lower
    trim
login_run = refl

start-HasWorkspacesById : HasWorkspacesById start
unfolding lookup
start-HasWorkspacesById id w e = ground arith

console_login-LoggedIn_example : LoggedIn idp (codes "c") 50 30 start after_login session
console_login-LoggedIn_example =
    console_login-LoggedIn idp (codes "c") 50 30 start after_login session start-HasWorkspacesById
      login_run

abbrev as_boss : RequestContext
as_boss = record { user = 90; workspace = 7; role = owner }

abbrev as_ada : RequestContext
as_ada = record { user = 1; workspace = 7; role = admin }

after_login-IsKeyed : IsKeyed after_login
unfolding IsKeyed lookup
after_login-IsKeyed w u m e = ground arith

abbrev after_suspension : Inner
after_suspension = record after_login {
  memberships = ((7, 90), boss) ∷ ((7, 1), record joined { status = suspended }) ∷ [];
}

suspension_run : suspend_member as_boss 1 after_login ≡ (ok tt, after_suspension)
unfolding set_member_status require can min_role seed_membership lookup insert
suspension_run = refl

authorize_request-suspend_member_example :
    authorize_request session 60 after_suspension
    ≡ (err (unauthorized is_suspended), after_suspension)
authorize_request-suspend_member_example =
    authorize_request-suspend_member as_boss 1 after_login after_suspension session 60
      after_login-IsKeyed suspension_run refl refl (omega arith)

-- An administrator can neither demote nor suspend the owner.
perform_all-senior_example :
    senior 1 (
      lookup
        (7, 90)
        (perform_all
          ((as_ada, change 90 member) ∷ (as_ada, suspend 90) ∷ [])
          after_login).memberships)
    ≡ some boss
unfolding lookup
perform_all-senior_example =
    perform_all-senior 1 ((as_ada, change 90 member) ∷ (as_ada, suspend 90) ∷ []) after_login
      after_login-IsKeyed (omega arith, (omega arith, tt)) 7 90

abbrev enrolments : List Op
enrolments =
    enrols 7 1 (4 ∷ []) ∷ enrols 8 1 (4 ∷ []) ∷ sets 7 1 clave.Gateway.Store.DeviceStatus.wiped ∷ []

run-IsOf_example :
    IsOf (run enrolments new_store) 8 (4 ∷ []) 2 × Path ℕ 8 8 × Path Bytes (4 ∷ []) (4 ∷ [])
unfolding run record_device set_device_status set_status lookup insert list_beq
run-IsOf_example = run-IsOf enrolments 8 8 (4 ∷ []) (4 ∷ []) 2 (omega arith) refl refl

hex_run : hex (0 ∷ 10 ∷ 255 ∷ []) ≡ codes "000aff"
unfolding hex
hex_run = refl
