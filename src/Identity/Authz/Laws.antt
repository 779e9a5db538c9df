-- ===== src/Identity/Authz/Laws.antt =====
-- Who is let in, and what an accepted invitation is worth.
use clave.Prelude.{
  ℕ, ap, ◌≤◌, ◌≡◌, ◌≢◌, refl, ◌↔◌, ◌⊎◌, true, false, Option, none, some, arith, ok, list_beq_iff,
  nat_eq, list_eq,
}
use clave.Core.Policy.{UnixTime}
use clave.Identity.Email.{UserId, EmailAddr}
use clave.Identity.Model.{
  Role, admin, owner, MembershipStatus, active, optional, AuthMethod, is_verified_sso, Workspace,
  domain_allowed, Membership, Invitation,
}
use clave.Identity.Authz.{
  LoginDecision, EnrollmentDecision, active_member_role, role_by_status, authorize_login,
  authorize_enrollment, accept_invitation, lacks_sso, AdminAction, administer_workspace,
  enroll_device, min_role, rank, can,
}

-- An active membership of this workspace, with this role.
abbrev pub IsActive : Workspace → Option Membership → Role → Type 0
IsActive w membership role =
    (m : Membership) × (membership ≡ some m)
    × (m.workspace ≡ w.id)
    × (m.status ≡ active)
    × (m.role ≡ role)

-- The workspace's demand for single sign-on is met.
abbrev pub MeetsSso : Workspace → AuthMethod → Type 0
MeetsSso w method = (w.sso ≡ optional) ⊎ (is_verified_sso method ≡ true)

lacks_sso-MeetsSso :
    (w : Workspace) (method : AuthMethod) → (lacks_sso w.sso method ≡ false) ↔ MeetsSso w method
lacks_sso-MeetsSso w method = ground arith

by_status :
    (st : MembershipStatus) (r role : Role)
    → (role_by_status st r ≡ ok role) ↔ ((st ≡ active) × (r ≡ role))
by_status active r role = ground arith
by_status _ r role = ground arith

active_member_role-IsActive :
    (w : Workspace) (membership : Option Membership) (role : Role)
    → (active_member_role w membership ≡ ok role) ↔ IsActive w membership role
unfolding active_member_role
active_member_role-IsActive w none role = (λ h. cc, λ (m, e, a, b, c). cc)
active_member_role-IsActive w (some m) role = (
  λ h. (
    m,
    refl,
    ground (arith, by_status m.status m.role role),
    ground (arith, by_status m.status m.role role),
    ground (arith, by_status m.status m.role role),
  ),
  λ (m', e, here, live, same). ground (arith, by_status m.status m.role role),
)

-- A login is allowed, with a role, exactly when the workspace takes the address's domain, its demand
-- for single sign-on is met, and the caller has an active membership of it with that role.
pub authorize_login_iff :
    (email : EmailAddr) (method : AuthMethod) (w : Workspace) (membership : Option Membership)
    (role : Role)
    → (authorize_login email method w membership ≡ LoginDecision.allow role)
      ↔ ((domain_allowed w email ≡ true) × MeetsSso w method × IsActive w membership role)
unfolding authorize_login
authorize_login_iff email method w membership role =
    ground (arith, lacks_sso-MeetsSso w method, active_member_role-IsActive w membership role)

-- An enrolment is allowed exactly when the caller has an active membership of the workspace, and it is
-- then for this workspace and with the role of that membership.
pub authorize_enrollment_iff :
    (w : Workspace) (membership : Option Membership) (id : ℕ) (role : Role)
    → (authorize_enrollment w membership ≡ EnrollmentDecision.allow id role)
      ↔ ((id ≡ w.id) × IsActive w membership role)
unfolding authorize_enrollment
authorize_enrollment_iff w membership id role =
    ground (arith, active_member_role-IsActive w membership role)

-- What an invitation asks of the one who takes it.
pub record IsAcceptable (email : EmailAddr) (method : AuthMethod) (w : Workspace) (i : Invitation)
    (now : UnixTime) : Type 0 where
  pub addressed : i.email ≡ email
  pub fresh : i.accepted ≡ false
  pub in_time : now ≤ i.expires_at
  pub domain : domain_allowed w email ≡ true
  pub signed_on : MeetsSso w method

pub accept_invitation_iff :
    (user : UserId) (email : EmailAddr) (method : AuthMethod) (w : Workspace) (i : Invitation)
    (now : UnixTime) (m : Membership)
    → (accept_invitation user email method w i now ≡ ok m) ↔ (
        IsAcceptable email method w i now
        × (m ≡ record { workspace = w.id; user = user; role = i.role; status = active }))
unfolding accept_invitation
accept_invitation_iff user email method w i now m = (
  λ h. (
    record {
      addressed = ground (arith, list_beq_iff i.email email);
      fresh = ground arith;
      in_time = ground arith;
      domain = ground arith;
      signed_on = ground (arith, lacks_sso-MeetsSso w method);
    },
    ground arith,
  ),
  λ (a, e). accepted a e,
)
  where
    accepted :
        IsAcceptable email method w i now
        → m ≡ record { workspace = w.id; user = user; role = i.role; status = active }
        → accept_invitation user email method w i now ≡ ok m
    accepted ok_for e =
        let record { addressed = a; fresh = f; in_time = t; domain = d; signed_on = s } = ok_for in
        ground (arith, list_beq_iff i.email email, lacks_sso-MeetsSso w method)

-- An accepted invitation makes a membership with which the same caller is then let in with the
-- invited role, and may enrol a device with it.
pub login_after_accept :
    (user : UserId) (email : EmailAddr) (method : AuthMethod) (w : Workspace) (i : Invitation)
    (now : UnixTime) (m : Membership)
    → accept_invitation user email method w i now ≡ ok m
    → (authorize_login email method w (some m) ≡ LoginDecision.allow i.role)
      × (authorize_enrollment w (some m) ≡ EnrollmentDecision.allow w.id i.role)
login_after_accept user email method w i now m h =
    let both = (accept_invitation_iff user email method w i now m).0 h in
    let taken : IsAcceptable email method w i now = both.0 in
    let here : IsActive w (some m) i.role =
      (m, refl, ap (λ x. x.workspace) both.1, ap (λ x. x.status) both.1, ap (λ x. x.role) both.1) in
    (
      (authorize_login_iff email method w (some m) i.role).1 (taken.domain, taken.signed_on, here),
      (authorize_enrollment_iff w (some m) w.id i.role).1 (refl, here),
    )

-- What a role may do, a role of a higher rank may do too.
pub can_mono :
    (lower higher : Role) (action : AdminAction)
    → rank lower ≤ rank higher
    → can lower action ≡ true
    → can higher action ≡ true
unfolding can
can_mono lower higher action h k = ground arith

-- Enrolling a device is open to every role, administering the workspace to owners alone, and every
-- other action to admins and owners.
pub can_iff :
    (r : Role) (action : AdminAction)
    → (can r action ≡ true)
      ↔ ((action ≡ enroll_device) ⊎ ((r ≡ owner) ⊎ ((r ≡ admin) × (action ≢ administer_workspace))))
unfolding can min_role
can_iff r action = ground arith
