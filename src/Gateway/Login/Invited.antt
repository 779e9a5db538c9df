-- ===== src/Gateway/Login/Invited.antt =====
-- What a login that succeeds has shown, and where the membership comes from.
use clave.Prelude.{
  ℕ, ◌≤◌, ◌≡◌, refl, ap, Option, none, some, arith, lookup, lookup-insert, nat_eq, list_eq, pair_eq,
  pair_beq_iff, Result, ok, err, true, false,
}
use clave.Core.Policy.{UnixTime}
use clave.Identity.Email.{UserId}
use clave.Identity.Model.{Workspace, Membership, Invitation, active, domain_allowed}
use clave.Identity.Authz.{LoginDecision, authorize_login, accept_invitation, InviteError}
use clave.Identity.Authz.Laws.{IsActive, MeetsSso, authorize_login_iff, accept_invitation_iff}
use clave.Gateway.Action.{pure, ◌>>=◌, ◌>>◌}
use clave.Gateway.Store.{Inner, seed_membership, mark_invitation_accepted, put_membership}
use clave.Gateway.Provider.{VerifiedUser, Session}
use clave.Gateway.Login.{
  enter, session_by, member_or_invited, by_invitation, saturating_add, accepted,
}

-- The membership was there, or the login used up an invitation that was open.
pub data Origin (vu : VerifiedUser) (user : UserId) (now : UnixTime) (s t : Inner) (m : Membership)
    : Type 0 where
  member : lookup (vu.workspace, user) s.memberships ≡ some m → t ≡ s → Origin vu user now s t m
  invited :
      (i : Invitation)
      → lookup (vu.workspace, user) s.memberships ≡ none
      → lookup (vu.workspace, vu.email) s.invitations ≡ some i
      → i.accepted ≡ false
      → now ≤ i.expires_at
      → m.role ≡ i.role
      → t ≡ (mark_invitation_accepted vu.workspace vu.email (seed_membership m s)).1
      → Origin vu user now s t m

pub record Entered (vu : VerifiedUser) (user : UserId) (w : Workspace) (now : UnixTime) (ttl : ℕ)
    (s t : Inner) (session : Session) : Type 0 where
  pub m : Membership
  pub stored : lookup (vu.workspace, user) t.memberships ≡ some m
  pub live : m.status ≡ active
  pub role : m.role ≡ session.role
  pub domain : domain_allowed w vu.email ≡ true
  pub single_sign_on : MeetsSso w vu.method
  pub who : session.user ≡ user
  pub where_to : session.workspace ≡ vu.workspace
  pub until : session.expires_at ≡ saturating_add now ttl
  pub origin : Origin vu user now s t m

session_by_ok :
    (vu : VerifiedUser) (user : UserId) (now : UnixTime) (ttl : ℕ) (d : LoginDecision) (s t : Inner)
    (session : Session)
    → session_by vu user now ttl d s ≡ (ok session, t)
    → (d ≡ LoginDecision.allow session.role)
      × (t ≡ s)
      × (session.user ≡ user)
      × (session.workspace ≡ vu.workspace)
      × (session.expires_at ≡ saturating_add now ttl)
session_by_ok vu user now ttl (LoginDecision.allow role) s t session h = ground arith
session_by_ok vu user now ttl (LoginDecision.deny reason) s t session h = ground arith

-- Who is let in, once the membership is known.
session-active :
    (vu : VerifiedUser) (user : UserId) (w : Workspace) (now : UnixTime) (ttl : ℕ)
    (o : Option Membership) (s t : Inner) (session : Session)
    → session_by vu user now ttl (authorize_login vu.email vu.method w o) s ≡ (ok session, t)
    → (t ≡ s)
      × (domain_allowed w vu.email ≡ true)
      × MeetsSso w vu.method
      × IsActive w o session.role
      × (session.user ≡ user)
      × (session.workspace ≡ vu.workspace)
      × (session.expires_at ≡ saturating_add now ttl)
session-active vu user w now ttl o s t session h =
    let (allowed, same, who, place, until) =
      session_by_ok vu user now ttl (authorize_login vu.email vu.method w o) s t session h in
    let (domain, sso, live) = (authorize_login_iff vu.email vu.method w o session.role).0 allowed in
    (same, domain, sso, live, who, place, until)

module _ (vu : VerifiedUser) (user : UserId) (w : Workspace) (now : UnixTime) (ttl : ℕ)
    (s t : Inner) (session : Session) (right : w.id ≡ vu.workspace) where
  by_member :
      (m : Membership)
      → lookup (vu.workspace, user) s.memberships ≡ some m
      → session_by vu user now ttl (authorize_login vu.email vu.method w (some m)) s
        ≡ (ok session, t)
      → Entered vu user w now ttl s t session
  by_member m e h =
      let (same, domain, sso, (m', found, place, live, role), who, to, until) =
        session-active vu user w now ttl (some m) s t session h in
      record {
        m = m;
        stored = rw same e;
        live = ground arith;
        role = ground arith;
        domain = domain;
        single_sign_on = sso;
        who = who;
        where_to = to;
        until = until;
        origin = member e same;
      }

  by_accepted :
      (i : Invitation) (r : Result InviteError Membership)
      → accept_invitation user vu.email vu.method w i now ≡ r
      → lookup (vu.workspace, user) s.memberships ≡ none
      → lookup (vu.workspace, vu.email) s.invitations ≡ some i
      → ((do
        m ← accepted r
        put_membership m
        mark_invitation_accepted vu.workspace vu.email
        pure (some m))
            >>= λ m. session_by vu user now ttl (authorize_login vu.email vu.method w m))
          s
        ≡ (ok session, t)
      → Entered vu user w now ttl s t session
  unfolding mark_invitation_accepted seed_membership
  by_accepted i (err e) a absent found h = ground arith
  by_accepted i (ok m) a absent found h =
      let (same, domain, sso, (m', is, place, live, role), who, to, until) =
        session-active vu user w now ttl (some m)
          (mark_invitation_accepted vu.workspace vu.email (seed_membership m s)).1 t session h in
      let (asked, made) = (accept_invitation_iff user vu.email vu.method w i now m).0 a in
      record {
        m = m;
        stored = ground (
          arith,
          lookup-insert (m.workspace, m.user) (vu.workspace, user) m s.memberships,
          pair_beq_iff (m.workspace, m.user) (vu.workspace, user),
        );
        live = ground arith;
        role = ground arith;
        domain = domain;
        single_sign_on = sso;
        who = who;
        where_to = to;
        until = until;
        origin =
            invited i absent found asked.fresh asked.in_time (ap (λ (m : Membership). m.role) made)
              same;
      }

  by_invited :
      (o : Option Invitation)
      → lookup (vu.workspace, vu.email) s.invitations ≡ o
      → lookup (vu.workspace, user) s.memberships ≡ none
      → (do
        m ← by_invitation vu user w now o
        session_by vu user now ttl (authorize_login vu.email vu.method w m))
          s
        ≡ (ok session, t)
      → Entered vu user w now ttl s t session
  by_invited none found absent h =
      let (same, domain, sso, (m', is, place, live, role), who, to, until) =
        session-active vu user w now ttl none s t session h in
      cc
  by_invited (some i) found absent h =
      by_accepted i (accept_invitation user vu.email vu.method w i now) refl absent found h

  by_known :
      (o : Option Membership)
      → lookup (vu.workspace, user) s.memberships ≡ o
      → (do
        m ← member_or_invited vu user w now o
        session_by vu user now ttl (authorize_login vu.email vu.method w m))
          s
        ≡ (ok session, t)
      → Entered vu user w now ttl s t session
  by_known none e h = by_invited (lookup (vu.workspace, vu.email) s.invitations) refl e h
  by_known (some m) e h = by_member m e h

  pub enter-Entered :
      enter vu user w now ttl s ≡ (ok session, t) → Entered vu user w now ttl s t session
  unfolding enter
  enter-Entered h = by_known (lookup (vu.workspace, user) s.memberships) refl h
