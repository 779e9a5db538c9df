-- ===== src/Gateway/Login.antt =====
-- crates/clave-gateway/src/gateway.rs: logins to the console, their sessions, and the authorisation
-- of a request. They use the identity provider and the store alone.
pub mod Invited
pub mod Sessions
pub mod Revoked
use clave.Prelude.{
  ℕ, ◌+◌, ◌-◌, ◌^◌, min, Bool, true, false, Option, none, some, Text, ltb, Result, ok, err, lookup,
  nat_eq, list_eq, pair_eq,
}
use clave.Core.Policy.{UnixTime}
use clave.Identity.Email.{WorkspaceId, UserId}
use clave.Identity.Model.{MembershipStatus, Workspace, Membership, Invitation, AuthMethod}
use clave.Identity.Authz.{
  LoginDecision, InviteError, DenyReason, not_a_member, is_suspended, authorize_login,
  accept_invitation,
}
use clave.Gateway.Action.{
  GatewayError, unauthorized, invite, no_such_workspace, session_invalid, Action, pure, raise, lift,
  refuse_if, require_some, ◌>>=◌, ◌>>◌,
}
use clave.Gateway.Store.{
  Inner, workspace, upsert_user, membership, put_membership, invitation, mark_invitation_accepted,
}
use clave.Gateway.Provider.{VerifiedUser, IdentityProvider, Session, RequestContext}

-- `saturating_add` on a `u64`
abbrev pub saturating_add : ℕ → ℕ → ℕ
saturating_add a b = min (a + b) (2 ^ 64 - 1)

-- `?` on an `InviteError`, by its `From`.
abbrev accepted : Result InviteError Membership → Action Inner Membership
accepted (ok m) = pure m
accepted (err e) = raise (invite e)

abbrev by_invitation :
    VerifiedUser
    → UserId
    → Workspace
    → UnixTime
    → Option Invitation
    → Action Inner (Option Membership)
by_invitation vu user w now none = pure none
by_invitation vu user w now (some i) = do
  m ← accepted (accept_invitation user vu.email vu.method w i now)
  put_membership m
  mark_invitation_accepted vu.workspace vu.email
  pure (some m)

-- The membership that is there, or the one that an invitation gives.
abbrev member_or_invited :
    VerifiedUser
    → UserId
    → Workspace
    → UnixTime
    → Option Membership
    → Action Inner (Option Membership)
member_or_invited vu user w now (some m) = pure (some m)
member_or_invited vu user w now none = do
  i ← invitation vu.workspace vu.email
  by_invitation vu user w now i

abbrev session_by : VerifiedUser → UserId → UnixTime → ℕ → LoginDecision → Action Inner Session
session_by vu user now ttl (LoginDecision.allow role) = pure (record {
  user = user;
  workspace = vu.workspace;
  role = role;
  expires_at = saturating_add now ttl;
  refresh_token = vu.refresh_token;
})
session_by vu user now ttl (LoginDecision.deny reason) = raise (unauthorized reason)

-- The part of `console_login` after the user is known.
unfoldable pub enter : VerifiedUser → UserId → Workspace → UnixTime → ℕ → Action Inner Session
unfolding mark_invitation_accepted authorize_login accept_invitation
enter vu user w now ttl = do
  known ← membership vu.workspace user
  m ← member_or_invited vu user w now known
  session_by vu user now ttl (authorize_login vu.email vu.method w m)

unfoldable pub console_login : IdentityProvider → Text → UnixTime → ℕ → Action Inner Session
unfolding upsert_user enter
console_login idp code now ttl = do
  vu ← lift (idp.exchange_console_code code)
  found ← workspace vu.workspace
  w ← require_some no_such_workspace found
  user ← upsert_user vu.email vu.idp_user_id
  enter vu user w now ttl

unfoldable pub refresh_session : IdentityProvider → Session → UnixTime → ℕ → Action Inner Session
unfolding upsert_user authorize_login
refresh_session idp session now ttl = do
  vu ← lift (idp.refresh_session session.refresh_token)
  found ← workspace vu.workspace
  w ← require_some no_such_workspace found
  user ← upsert_user vu.email vu.idp_user_id
  m ← membership vu.workspace user
  session_by vu user now ttl (authorize_login vu.email vu.method w m)

abbrev context_by : Session → Option Membership → Result GatewayError RequestContext
context_by session none = err (unauthorized not_a_member)
context_by session (some m) = by_status m.status
  where
    by_status : MembershipStatus → Result GatewayError RequestContext
    by_status MembershipStatus.active =
        ok (record { user = session.user; workspace = session.workspace; role = m.role })
    by_status MembershipStatus.suspended = err (unauthorized is_suspended)
    by_status MembershipStatus.invited = err (unauthorized not_a_member)

unfoldable pub authorize_request : Session → UnixTime → Action Inner RequestContext
authorize_request session now = do
  refuse_if (ltb session.expires_at now) session_invalid
  m ← membership session.workspace session.user
  lift (context_by session m)
