-- ===== src/Identity/Model.antt =====
-- crates/clave-identity/src/model.rs: workspaces, memberships and invitations.
use clave.Prelude.{
  Bool, true, false, List, Text, any, is_empty, trim, to_lower, list_eq, nat_eq, ◌==◌,
  if◌then◌else◌,
}
use clave.Core.Policy.{UnixTime}
use clave.Identity.Email.{WorkspaceId, UserId, EmailAddr, email_domain}

pub data Role : Type 0 where
  member admin owner : Role

pub data MembershipStatus : Type 0 where
  invited active suspended : MembershipStatus

pub data SsoMode : Type 0 where
  optional required : SsoMode

pub data AuthMethod : Type 0 where
  email_code password : AuthMethod
  sso : (verified : Bool) → AuthMethod

abbrev pub is_verified_sso : AuthMethod → Bool
is_verified_sso (sso true) = true
is_verified_sso _ = false

pub record Workspace : Type 0 where
  pub id : WorkspaceId
  pub allowed_domains : List Text
  pub sso : SsoMode

-- `eq_ignore_ascii_case`
abbrev same_ignoring_case : Text → Text → Bool
same_ignoring_case a b = to_lower a == to_lower b

-- `Workspace::domain_allowed`
unfoldable pub domain_allowed : Workspace → EmailAddr → Bool
domain_allowed w email =
    let d = email_domain email in
    if is_empty w.allowed_domains
    then true
    else any (λ allowed. same_ignoring_case (trim allowed) d) w.allowed_domains

pub record Membership : Type 0 where
  pub workspace : WorkspaceId
  pub user : UserId
  pub role : Role
  pub status : MembershipStatus

pub record Invitation : Type 0 where
  pub workspace : WorkspaceId
  pub email : EmailAddr
  pub role : Role
  pub expires_at : UnixTime
  pub accepted : Bool
