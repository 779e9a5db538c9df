-- ===== src/Gateway/Login/Sessions.antt =====
-- A login as a whole, and the requests that are made with the session it gave.
use clave.Prelude.{
  ℕ, ◌≤◌, ◌≡◌, refl, Option, none, some, arith, lookup, nat_eq, list_eq, pair_eq, Result, ok, err,
  Text,
}
use clave.Core.Policy.{UnixTime}
use clave.Identity.Email.{WorkspaceId, UserId}
use clave.Identity.Model.{Workspace}
use clave.Gateway.Action.{GatewayError, no_such_workspace, lift, require_some, ◌>>=◌}
use clave.Gateway.Store.{Inner, workspace, upsert_user, user_or_new}
use clave.Gateway.Provider.{VerifiedUser, IdentityProvider, Session}
use clave.Gateway.Login.{console_login, enter, authorize_request, saturating_add}
use clave.Gateway.Login.Invited.{Entered, enter-Entered}

-- Each workspace is stored under its own id.
abbrev pub HasWorkspacesById : Inner → Type 0
HasWorkspacesById s =
    (id : WorkspaceId) (w : Workspace) → lookup id s.workspaces ≡ some w → w.id ≡ id

-- What a login has shown: the provider vouches for the user, whom the store knows or takes in, and
-- the user has entered the workspace.
pub record LoggedIn (idp : IdentityProvider) (code : Text) (now : UnixTime) (ttl : ℕ) (s t : Inner)
    (session : Session) : Type 0 where
  pub vu : VerifiedUser
  pub vouched : idp.exchange_console_code code ≡ ok vu
  pub w : Workspace
  pub known : lookup vu.workspace s.workspaces ≡ some w
  pub user : UserId
  pub taken_in : Inner
  pub upserted : upsert_user vu.email vu.idp_user_id s ≡ (ok user, taken_in)
  pub entered : Entered vu user w now ttl taken_in t session

module _ (idp : IdentityProvider) (code : Text) (now : UnixTime) (ttl : ℕ) (s t : Inner)
    (session : Session) (keyed : HasWorkspacesById s) where
  by_workspace :
      (vu : VerifiedUser) (found : Option Workspace)
      → idp.exchange_console_code code ≡ ok vu
      → lookup vu.workspace s.workspaces ≡ found
      → ((do
        w ← require_some no_such_workspace found
        user ← upsert_user vu.email vu.idp_user_id
        enter vu user w now ttl)
            s
          ≡ (ok session, t))
      → LoggedIn idp code now ttl s t session
  unfolding upsert_user
  by_workspace vu none vouched e h = ground arith
  by_workspace vu (some w) vouched e h =
      let (user, s') = user_or_new vu.email s (lookup vu.email s.users) in
      record {
        vu = vu;
        vouched = vouched;
        w = w;
        known = e;
        user = user;
        taken_in = s';
        upserted = refl;
        entered = enter-Entered vu user w now ttl s' t session (keyed vu.workspace w e) h;
      }

  by_provider :
      (r : Result GatewayError VerifiedUser)
      → idp.exchange_console_code code ≡ r
      → ((do
        vu ← lift r
        found ← workspace vu.workspace
        w ← require_some no_such_workspace found
        user ← upsert_user vu.email vu.idp_user_id
        enter vu user w now ttl)
            s
          ≡ (ok session, t))
      → LoggedIn idp code now ttl s t session
  by_provider (err e) vouched h = ground arith
  by_provider (ok vu) vouched h = by_workspace vu (lookup vu.workspace s.workspaces) vouched refl h

  -- On a store that keeps each workspace under its own id, a login that gives a session has shown all
  -- of this: the provider vouched for the user, the workspace takes the address's domain and its
  -- demand for single sign-on is met, the store afterwards has an active membership with the role of
  -- the session, and that membership was there before, or the login used up an invitation to the
  -- address that was open and in time, and the role is the invited one.
  pub console_login-LoggedIn :
      console_login idp code now ttl s ≡ (ok session, t) → LoggedIn idp code now ttl s t session
  unfolding console_login
  console_login-LoggedIn h = by_provider (idp.exchange_console_code code) refl h

  -- On such a store, a request with the session that a login gave is let in until the session
  -- expires, with the user, the workspace and the role of the session, and changes nothing.
  pub authorize_request-console_login :
      (later : UnixTime)
      → console_login idp code now ttl s ≡ (ok session, t)
      → later ≤ saturating_add now ttl
      → authorize_request session later t ≡ (
        ok (record { user = session.user; workspace = session.workspace; role = session.role }),
        t,
      )
  unfolding authorize_request
  authorize_request-console_login later h fresh =
      let done = console_login-LoggedIn h in
      let entered = done.entered in
      ground (
        arith, entered.stored, entered.live, entered.role, entered.who, entered.where_to,
        entered.until,
      )
