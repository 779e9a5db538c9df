-- ===== src/Gateway/Store.antt =====
-- crates/clave-gateway/src/store.rs: `MemStore`, the gateway's store in memory. Its lock serialises
-- the operations, each of which is an action on what the lock guards.
pub mod Devices
pub mod Enrolments
use clave.Prelude.{
  ℕ, ◌+◌, ◌%◌, ◌/◌, ◌^◌, ◌&&◌, ◌==◌, Bool, true, false, Option, none, some, List, [], ◌∷◌, map, Map,
  lookup, insert, remove, Text, Bytes, nat_eq, list_eq, pair_eq, filter, leb, ltb, if◌then◌else◌,
  map_option, ok, ◌-◌, PartialEq,
}
use clave.Identity.Email.{WorkspaceId, UserId, EmailAddr}
use clave.Identity.Model.{Role, MembershipStatus, Workspace, Membership, Invitation}
use clave.Gateway.Action.{Action, gets, modify, ◌>>=◌, ◌>>◌, pure}

-- A newtype of a `u128`
abbrev pub DeviceId : Type 0
DeviceId = ℕ

pub data DeviceStatus : Type 0 where
  pending active locked wiped : DeviceStatus

pub record DeviceRecord : Type 0 where
  pub id : DeviceId
  pub enrolled_by : UserId
  pub status : DeviceStatus
  pub pubkey : Text

pub record MemberRecord : Type 0 where
  pub user : UserId
  pub email : Text
  pub role : Role
  pub status : MembershipStatus

-- `char::from_digit(n, 16)`
abbrev hex_digit : ℕ → ℕ
hex_digit n = if ltb n 10 then b'0' + n else b'a' + (n - 10)

unfoldable pub hex : Bytes → Text
hex [] = []
hex (b ∷ bytes) = hex_digit (b / 16) ∷ hex_digit (b % 16) ∷ hex bytes

pub record StoredDevice : Type 0 where
  pub workspace : WorkspaceId
  pub enrolled_by : UserId
  pub pubkey : Bytes
  pub status : DeviceStatus

-- `StoredDevice::record`
abbrev pub device_record : DeviceId → StoredDevice → DeviceRecord
device_record id d = record {
  id = id;
  enrolled_by = d.enrolled_by;
  status = d.status;
  pubkey = hex d.pubkey;
}

pub record Inner : Type 0 where
  pub next_user : ℕ
  pub next_device : ℕ
  pub workspaces : Map WorkspaceId Workspace
  pub users : Map Text UserId
  pub emails : Map UserId Text
  pub memberships : Map (WorkspaceId × UserId) Membership
  pub invitations : Map (WorkspaceId × Text) Invitation
  pub devices_by_key : Map (WorkspaceId × Bytes) DeviceId
  pub devices : Map DeviceId StoredDevice
  pub device_fingerprints : Map Bytes DeviceId

abbrev pub new_store : Inner
new_store = record {
  next_user = 0;
  next_device = 0;
  workspaces = [];
  users = [];
  emails = [];
  memberships = [];
  invitations = [];
  devices_by_key = [];
  devices = [];
  device_fingerprints = [];
}

unfoldable pub seed_workspace : Workspace → Inner → Inner
seed_workspace w s = record s { workspaces = insert w.id w s.workspaces }

unfoldable pub seed_membership : Membership → Inner → Inner
seed_membership m s = record s { memberships = insert (m.workspace, m.user) m s.memberships }

unfoldable pub seed_invitation : Invitation → Inner → Inner
seed_invitation i s = record s { invitations = insert (i.workspace, i.email) i s.invitations }

abbrev pub workspace : WorkspaceId → Action Inner (Option Workspace)
workspace id = gets (λ s. lookup id s.workspaces)

-- The user of this address, or a new one; the provider's id is not kept.
abbrev pub user_or_new : EmailAddr → Inner → Option UserId → UserId × Inner
user_or_new email s (some id) = (id, s)
user_or_new email s none =
    let id = (s.next_user + 1) % 2 ^ 64 in
    (
      id,
      record s {
        next_user = id;
        users = insert email id s.users;
        emails = insert id email s.emails;
      },
    )

unfoldable pub upsert_user : EmailAddr → Text → Action Inner UserId
upsert_user email idp_user_id s =
    let (id, s') = user_or_new email s (lookup email s.users) in (ok id, s')

abbrev pub membership : WorkspaceId → UserId → Action Inner (Option Membership)
membership w user = gets (λ s. lookup (w, user) s.memberships)

abbrev pub put_membership : Membership → Action Inner (Unit {0})
put_membership m = modify (seed_membership m)

-- `sort_by_key`: a stable sort, by insertion.
module _ {A : Type 0} (before : A → A → Bool) where
  abbrev insert_sorted : A → List A → List A
  insert_sorted a [] = a ∷ []
  insert_sorted a (b ∷ rest) = if before a b then a ∷ b ∷ rest else b ∷ insert_sorted a rest

  abbrev pub sort_by : List A → List A
  sort_by [] = []
  sort_by (a ∷ rest) = insert_sorted a (sort_by rest)

abbrev or_default : Option Text → Text
or_default none = []
or_default (some t) = t

abbrev member_record : Inner → Membership → MemberRecord
member_record s m = record {
  user = m.user;
  email = or_default (lookup m.user s.emails);
  role = m.role;
  status = m.status;
}

abbrev pub values {ℓ} : {K V : Type ℓ} → List (K × V) → List V
values [] = []
values (entry ∷ rest) = entry.1 ∷ values rest

unfoldable pub list_members : WorkspaceId → Action Inner (List MemberRecord)
list_members w = gets λ s.
    sort_by (λ a b. leb a.user b.user)
      (map (member_record s) (filter (λ m. m.workspace == w) (values s.memberships)))

abbrev pub invitation : WorkspaceId → EmailAddr → Action Inner (Option Invitation)
invitation w email = gets (λ s. lookup (w, email) s.invitations)

abbrev pub put_invitation : Invitation → Action Inner (Unit {0})
put_invitation i = modify (seed_invitation i)

-- The order of strings, by their bytes.
abbrev text_le : Text → Text → Bool
text_le [] b = true
text_le (c ∷ a) [] = false
text_le (c ∷ a) (d ∷ b) = let rest = text_le a b in if c == d then rest else ltb c d

unfoldable pub list_invitations : WorkspaceId → Action Inner (List Invitation)
list_invitations w = gets λ s.
    sort_by (λ a b. text_le a.email b.email) (filter (λ i. i.workspace == w) (values s.invitations))

-- `get_mut` at a key, and a change of what is there.
module _ {K V : Type 0} ⦃e : PartialEq K⦄ where
  abbrev change : K → (V → V) → Map K V → Option V → Map K V
  change key f m none = m
  change key f m (some v) = insert key (f v) m

  abbrev pub update_at : K → (V → V) → Map K V → Map K V
  update_at key f m = change key f m (lookup key m)

unfoldable pub mark_invitation_accepted : WorkspaceId → EmailAddr → Action Inner (Unit {0})
mark_invitation_accepted w email = modify λ s. record s {
  invitations = update_at (w, email) (λ i. record i { accepted = true }) s.invitations;
}
