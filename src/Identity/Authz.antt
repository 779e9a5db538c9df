-- ===== src/Identity/Authz.antt =====
-- crates/clave-identity/src/authz.rs: the decisions on logins, enrolments, invitations and roles.
pub mod Laws
use clave.Prelude.{
  ℕ, Bool, true, false, not, ◌&&◌, Option, none, some, Text, ltb, leb, list_eq, nat_eq, ◌==◌,
  if◌then◌else◌, Result, ok, err, ◌>>=◌, ◌>>◌, fail_if,
}
use clave.Core.Policy.{UnixTime}
use clave.Identity.Email.{WorkspaceId, UserId, EmailAddr}
use clave.Identity.Model.{
  Role, member, admin, owner, MembershipStatus, invited, active, suspended, SsoMode, optional,
  required, AuthMethod, is_verified_sso, Workspace, domain_allowed, Membership, Invitation,
}

pub data DenyReason : Type 0 where
  not_a_member is_suspended domain_not_allowed sso_required : DenyReason

pub data LoginDecision : Type 0 where
  allow : (role : Role) → LoginDecision
  deny : DenyReason → LoginDecision

pub data EnrollmentDecision : Type 0 where
  allow : (workspace : WorkspaceId) (role : Role) → EnrollmentDecision
  deny : DenyReason → EnrollmentDecision

abbrev role_by_status : MembershipStatus → Role → Result DenyReason Role
role_by_status active role = ok role
role_by_status suspended role = err is_suspended
role_by_status invited role = err not_a_member

unfoldable pub active_member_role : Workspace → Option Membership → Result DenyReason Role
active_member_role w none = err not_a_member
active_member_role w (some m) =
    if m.workspace == w.id then role_by_status m.status m.role else err not_a_member

-- `workspace.sso == SsoMode::Required && !method.is_verified_sso()`
abbrev lacks_sso : SsoMode → AuthMethod → Bool
lacks_sso required method = not (is_verified_sso method)
lacks_sso optional method = false

abbrev login_by : Result DenyReason Role → LoginDecision
login_by (ok role) = LoginDecision.allow role
login_by (err reason) = LoginDecision.deny reason

unfoldable pub authorize_login :
    EmailAddr → AuthMethod → Workspace → Option Membership → LoginDecision
unfolding active_member_role
authorize_login email method w membership =
    if not (domain_allowed w email)
    then LoginDecision.deny domain_not_allowed
    else if lacks_sso w.sso method
    then LoginDecision.deny sso_required
    else login_by (active_member_role w membership)

abbrev enrollment_by : Workspace → Result DenyReason Role → EnrollmentDecision
enrollment_by w (ok role) = EnrollmentDecision.allow w.id role
enrollment_by w (err reason) = EnrollmentDecision.deny reason

unfoldable pub authorize_enrollment : Workspace → Option Membership → EnrollmentDecision
unfolding active_member_role
authorize_enrollment w membership = enrollment_by w (active_member_role w membership)

pub data InviteError : Type 0 where
  email_mismatch already_accepted expired : InviteError
  rejected : DenyReason → InviteError

unfoldable pub accept_invitation :
    UserId
    → EmailAddr
    → AuthMethod
    → Workspace
    → Invitation
    → UnixTime
    → Result InviteError Membership
accept_invitation user email method w invitation now = do
  fail_if (not (invitation.email == email)) email_mismatch
  fail_if invitation.accepted already_accepted
  fail_if (ltb invitation.expires_at now) expired
  fail_if (not (domain_allowed w email)) (rejected domain_not_allowed)
  fail_if (lacks_sso w.sso method) (rejected sso_required)
  ok (record { workspace = w.id; user = user; role = invitation.role; status = active })

pub data AdminAction : Type 0 where
  enroll_device manage_members change_roles manage_policy manage_sso control_device view_audit :
      AdminAction
  administer_workspace : AdminAction

unfoldable pub min_role : AdminAction → Role
min_role enroll_device = member
min_role administer_workspace = owner
min_role _ = admin

-- The derived order: a constructor is less than those after it.
abbrev pub rank : Role → ℕ
rank member = 0
rank admin = 1
rank owner = 2

unfoldable pub can : Role → AdminAction → Bool
unfolding min_role
can role action = leb (rank (min_role action)) (rank role)
