-- ===== src/Gateway/Admin.antt =====
-- crates/clave-gateway/src/gateway.rs: the administration of members, invitations and devices, and
-- the events of a directory.
pub mod Changes
pub mod Seniority
use clave.Prelude.{
  ℕ, Bool, true, false, not, Option, none, some, List, [], ◌∷◌, Text, ltb, ok, nat_eq, list_eq,
  ◌==◌, pair_eq, find, map_option, to_lower, Result, if◌then◌else◌, lookup,
}
use clave.Core.Policy.{UnixTime}
use clave.Identity.Email.{UserId, EmailAddr, parse}
use clave.Identity.Model.{Role, MembershipStatus, active, suspended, Membership, Invitation}
use clave.Identity.Authz.{
  AdminAction, manage_members, change_roles, control_device, view_audit, can, rank,
}
use clave.Gateway.Action.{
  GatewayError, forbidden, not_found, store_error, insufficient_role, invite_above_own_role,
  grant_above_own_role, more_senior_member, invalid_email, no_such_member, Action, pure, raise,
  lift, refuse_if, require_some, ◌>>=◌, ◌>>◌,
}
use clave.Gateway.Store.{
  DeviceId, DeviceStatus, locked, wiped, DeviceRecord, MemberRecord, Inner, membership,
  put_membership, list_members, put_invitation, list_invitations,
}
use clave.Gateway.Store.Devices.{list_devices, set_device_status}
use clave.Gateway.Provider.{
  RequestContext, ScimEvent, event_workspace, event_email, activates, MembershipDelta, restored,
  unchanged,
}

-- `Gateway::require`
unfoldable pub require : {S : Type 0} → RequestContext → AdminAction → Action S (Unit {0})
unfolding can
require ctx action = refuse_if (not (can ctx.role action)) (forbidden (insufficient_role action))

abbrev target_membership : RequestContext → UserId → Action Inner Membership
target_membership ctx user = do
  m ← membership ctx.workspace user
  require_some (not_found no_such_member) m

-- The order on roles: `a > b`
abbrev pub outranks : Role → Role → Bool
outranks a b = ltb (rank b) (rank a)

unfoldable pub invite_member : RequestContext → Text → Role → UnixTime → Action Inner Invitation
unfolding parse
invite_member ctx email role expires_at = do
  require ctx manage_members
  refuse_if (outranks role ctx.role) (forbidden invite_above_own_role)
  address ← require_some (store_error invalid_email) (parse email)
  let i : Invitation = record {
    workspace = ctx.workspace;
    email = address;
    role = role;
    expires_at = expires_at;
    accepted = false;
  }
  put_invitation i
  pure i

unfoldable pub invitations : RequestContext → Action Inner (List Invitation)
unfolding list_invitations
invitations ctx = do require ctx manage_members; list_invitations ctx.workspace

unfoldable pub members : RequestContext → Action Inner (List MemberRecord)
unfolding list_members
members ctx = do require ctx manage_members; list_members ctx.workspace

unfoldable pub change_role : RequestContext → UserId → Role → Action Inner (Unit {0})
change_role ctx user role = do
  require ctx change_roles
  refuse_if (outranks role ctx.role) (forbidden grant_above_own_role)
  m ← target_membership ctx user
  refuse_if (outranks m.role ctx.role) (forbidden more_senior_member)
  put_membership (record m { role = role })

unfoldable pub set_member_status :
    RequestContext → UserId → MembershipStatus → Action Inner (Unit {0})
set_member_status ctx user status = do
  require ctx manage_members
  m ← target_membership ctx user
  refuse_if (outranks m.role ctx.role) (forbidden more_senior_member)
  put_membership (record m { status = status })

abbrev pub suspend_member : RequestContext → UserId → Action Inner (Unit {0})
suspend_member ctx user = set_member_status ctx user suspended

abbrev pub restore_member : RequestContext → UserId → Action Inner (Unit {0})
restore_member ctx user = set_member_status ctx user active

unfoldable pub devices : RequestContext → Action Inner (List DeviceRecord)
unfolding list_devices
devices ctx = do require ctx view_audit; list_devices ctx.workspace

abbrev control : DeviceStatus → RequestContext → DeviceId → Action Inner (Unit {0})
control status ctx device = do
  require ctx control_device
  set_device_status ctx.workspace device status

unfoldable pub lock_device : RequestContext → DeviceId → Action Inner (Unit {0})
unfolding set_device_status
lock_device ctx device = control locked ctx device

unfoldable pub wipe_device : RequestContext → DeviceId → Action Inner (Unit {0})
unfolding set_device_status
wipe_device ctx device = control wiped ctx device

-- `eq_ignore_ascii_case` on the addresses
abbrev member_named : EmailAddr → List MemberRecord → Option UserId
member_named email members =
    map_option (λ m. m.user) (find (λ m. to_lower m.email == to_lower email) members)

abbrev status_after : ScimEvent → MembershipStatus
status_after event = if activates event then active else suspended

abbrev delta_of : ScimEvent → UserId → MembershipDelta
delta_of event user = if activates event then restored user else MembershipDelta.suspended user

abbrev same_status : MembershipStatus → MembershipStatus → Bool
same_status MembershipStatus.invited MembershipStatus.invited = true
same_status active active = true
same_status suspended suspended = true
same_status _ _ = false

abbrev set_by_event : ScimEvent → UserId → Membership → Action Inner MembershipDelta
set_by_event event user m s =
    if same_status m.status (status_after event)
    then (ok unchanged, s)
    else (put_membership (record m { status = status_after event }) >> pure (delta_of event user)) s

abbrev apply_to_user : ScimEvent → Option UserId → Action Inner MembershipDelta
apply_to_user event none = pure unchanged
apply_to_user event (some user) = do
  found ← membership (event_workspace event) user
  m ← require_some (not_found no_such_member) found
  set_by_event event user m

unfoldable pub apply_directory_event : ScimEvent → Action Inner MembershipDelta
unfolding list_members
apply_directory_event event = do
  members ← list_members (event_workspace event)
  apply_to_user event (member_named (event_email event) members)
