-- ===== src/Gateway/Login/Revoked.antt =====
-- Sessions hold no rights of their own: each request is judged by the membership that is stored now.
use clave.Prelude.{
  ◌≤◌, ◌≡◌, ◌↔◌, inl, inr, some, Option-cases, arith, lookup, lookup-insert, nat_eq, list_eq,
  pair_eq, pair_beq_iff, ok, err,
}
use clave.Core.Policy.{UnixTime}
use clave.Identity.Email.{UserId}
use clave.Identity.Model.{Membership, active, suspended}
use clave.Identity.Authz.{is_suspended}
use clave.Gateway.Action.{unauthorized}
use clave.Gateway.Store.{Inner, seed_membership}
use clave.Gateway.Provider.{Session, RequestContext}
use clave.Gateway.Admin.{suspend_member}
use clave.Gateway.Admin.Changes.{IsKeyed, set_member_status_ok}
use clave.Gateway.Login.{authorize_request}

-- A request is let in exactly when the session has not expired and the store has an active membership
-- of its user in its workspace now; the role is that membership's, whatever the session says.
pub authorize_request_iff :
    (session : Session) (now : UnixTime) (s : Inner) (ctx : RequestContext)
    → ((authorize_request session now s).0 ≡ ok ctx) ↔ (
        (now ≤ session.expires_at)
        × ((m : Membership) × (lookup (session.workspace, session.user) s.memberships ≡ some m)
            × (m.status ≡ active)
            × (ctx ≡ record { user = session.user; workspace = session.workspace; role = m.role })))
unfolding authorize_request
authorize_request_iff session now s ctx =
    elim (Option-cases (lookup (session.workspace, session.user) s.memberships)) [
      | inl absent ↦ ground arith
      | inr (m, e) ↦ ground arith
    ]

-- On a store that keeps each membership under its own workspace and user: once an administrator's
-- request to suspend a user has been granted, every session that the user holds in this workspace and
-- that has not expired is refused, with the reason.
pub authorize_request-suspend_member :
    (ctx : RequestContext) (user : UserId) (s t : Inner) (session : Session) (now : UnixTime)
    → IsKeyed s
    → suspend_member ctx user s ≡ (ok tt, t)
    → session.workspace ≡ ctx.workspace
    → session.user ≡ user
    → now ≤ session.expires_at
    → authorize_request session now t ≡ (err (unauthorized is_suspended), t)
unfolding authorize_request IsKeyed seed_membership
authorize_request-suspend_member ctx user s t session now keyed h here who fresh =
    let (m, found, e) = set_member_status_ok ctx user suspended s t h in
    ground (
      arith,
      keyed ctx.workspace user m found,
      lookup-insert (m.workspace, m.user) (session.workspace, session.user)
          (record m { status = suspended }) s.memberships,
      pair_beq_iff (m.workspace, m.user) (session.workspace, session.user),
    )
