-- ===== src/Gateway/Http/Guarded.antt =====
-- Nothing behind /admin is done for a caller without a live session of an active member.
use clave.Prelude.{
  ◌≤◌, ◌≡◌, refl, arith, ◌⊎◌, inl, inr, false, Bool-cases, Option, none, some, Option-cases, ltb,
  Text, lookup, nat_eq, pair_eq, Result, ok, err,
}
use clave.Core.Policy.{UnixTime}
use clave.Identity.Model.{Membership, MembershipStatus, active}
use clave.Proto.External.{Ed25519, Postcard}
use clave.Proto.Command.{Envelope}
use clave.Gateway.Action.{GatewayError}
use clave.Gateway.Store.{Inner}
use clave.Gateway.Provider.{Session, RequestContext}
use clave.Gateway.Login.{authorize_request}
use clave.Gateway.Server.{Gateway}
use clave.Gateway.Http.{Sealer, Response, status_of, err_response}
use clave.Gateway.Http.Admin.{
  AdminRequest, read_session, no_session, authorized_by, ctx_of, admin_ctx, perform, perform_as,
  handle_admin,
}

-- A request is refused, with nothing changed, or let in as the stored membership.
data Authorized (session : Session) (now : UnixTime) (s : Inner)
    : Result GatewayError RequestContext × Inner → Type 0 where
  refused :
      (e : GatewayError)
      → (status_of e ≡ 401) ⊎ (status_of e ≡ 403)
      → Authorized session now s (err e, s)
  let_in :
      (m : Membership)
      → (now ≤ session.expires_at)
      → lookup (session.workspace, session.user) s.memberships ≡ some m
      → m.status ≡ active
      → Authorized session now s
          (ok (record { user = session.user; workspace = session.workspace; role = m.role }), s)

by_status :
    (session : Session) (now : UnixTime) (s : Inner) (m : Membership) (status : MembershipStatus)
    → ltb session.expires_at now ≡ false
    → lookup (session.workspace, session.user) s.memberships ≡ some m
    → m.status ≡ status
    → Authorized session now s (authorize_request session now s)
unfolding authorize_request
by_status session now s m MembershipStatus.active live found e =
    rw (live, found, e) (let_in m (ground (arith, live)) found e)
by_status session now s m MembershipStatus.suspended live found e =
    rw (live, found, e) (refused _ (inr refl))
by_status session now s m MembershipStatus.invited live found e =
    rw (live, found, e) (refused _ (inr refl))

authorize_request-Authorized :
    (session : Session) (now : UnixTime) (s : Inner)
    → Authorized session now s (authorize_request session now s)
unfolding authorize_request
authorize_request-Authorized session now s = elim (Bool-cases (ltb session.expires_at now)) [
  | inl late ↦ rw late (refused _ (inl refl))
  | inr live ↦ elim (Option-cases (lookup (session.workspace, session.user) s.memberships)) [
    | inl absent ↦ rw (live, absent) (refused _ (inr refl))
    | inr (m, found) ↦ by_status session now s m m.status live found refl
  ]
]

-- What comes of a request under /admin: it is turned away with the gateway as it was, or the session
-- of its cookie has not expired, its user is an active member, and the handler runs in that role.
pub data Judged (ed : Ed25519) (codec : Postcard Envelope) (sealer : Sealer) (cookie : Option Text)
    (now : UnixTime) (request : AdminRequest) (g : Gateway) : Response × Gateway → Type 0 where
  turned_away :
      (r : Response)
      → (r.status ≡ 401) ⊎ (r.status ≡ 403)
      → Judged ed codec sealer cookie now request g (r, g)
  heard :
      (session : Session) (m : Membership)
      → read_session sealer cookie ≡ some session
      → (now ≤ session.expires_at)
      → lookup (session.workspace, session.user) g.store.memberships ≡ some m
      → m.status ≡ active
      → Judged ed codec sealer cookie now request g (
          perform ed codec request
            (record { user = session.user; workspace = session.workspace; role = m.role })
            now
            g)

module _ (ed : Ed25519) (codec : Postcard Envelope) (sealer : Sealer) (cookie : Option Text)
    (now : UnixTime) (request : AdminRequest) (g : Gateway) where
  by-Authorized :
      (session : Session) (r : Result GatewayError RequestContext × Inner)
      → read_session sealer cookie ≡ some session
      → Authorized session now g.store r
      → Judged ed codec sealer cookie now request g
          (perform_as ed codec request now (authorized_by (r.0, record g { store = r.1 })))
  unfolding perform_as
  by-Authorized session _ e (refused error code) = turned_away (err_response error) code
  by-Authorized session _ e (let_in m live found status) = heard session m e live found status

  by_session :
      (o : Option Session)
      → read_session sealer cookie ≡ o
      → Judged ed codec sealer cookie now request g
          (perform_as ed codec request now (ctx_of now o g))
  unfolding perform_as ctx_of
  by_session none e = turned_away no_session (inl refl)
  by_session (some session) e =
      by-Authorized session (authorize_request session now g.store) e
        (authorize_request-Authorized session now g.store)

  -- A request under /admin is turned away with status 401 or 403 and the gateway as it was, or the
  -- session of its cookie has not expired, its user is an active member of its workspace now, and
  -- what comes of it is what the handler of its route does in the role of that membership.
  pub handle_admin-Judged :
      Judged ed codec sealer cookie now request g
        (handle_admin ed codec sealer cookie now request g)
  unfolding handle_admin admin_ctx
  handle_admin-Judged = by_session (read_session sealer cookie) refl
