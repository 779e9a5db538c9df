-- ===== src/Gateway/Admin/Changes.antt =====
-- What the administrators of a workspace can change, and what they cannot.
use clave.Prelude.{
  ◌≤◌, ◌≡◌, refl, ◌⊎◌, inl, inr, ap, Bool-cases, Option-cases, some, List, [], ◌∷◌, Text, arith,
  lookup, lookup-insert, nat_eq, list_eq, pair_eq, pair_beq_iff, ok, ◌==◌,
}
use clave.Core.Policy.{UnixTime}
use clave.Identity.Email.{WorkspaceId, UserId, parse}
use clave.Identity.Model.{Role, MembershipStatus, Membership}
use clave.Identity.Authz.{change_roles, manage_members, control_device, can, rank}
use clave.Gateway.Action.{forbidden, more_senior_member, refuse_if, ◌>>=◌, ◌>>◌}
use clave.Gateway.Store.{
  DeviceId, DeviceStatus, put_membership, Inner, seed_membership, seed_invitation,
}
use clave.Gateway.Store.Devices.{set_device_status}
use clave.Gateway.Provider.{RequestContext}
use clave.Gateway.Admin.{
  invite_member, change_role, set_member_status, suspend_member, restore_member, lock_device,
  wipe_device, outranks, require, target_membership, control,
}

-- The requests that change the store.
pub data Request : Type 0 where
  invite : (email : Text) (role : Role) (expires_at : UnixTime) → Request
  change : (user : UserId) (role : Role) → Request
  suspend restore : (user : UserId) → Request
  lock wipe : (device : DeviceId) → Request

-- The store after a request, whether it was granted or not.
unfoldable pub perform : RequestContext → Request → Inner → Inner
unfolding invite_member change_role set_member_status lock_device wipe_device
perform ctx (invite email role expires_at) s = (invite_member ctx email role expires_at s).1
perform ctx (change user role) s = (change_role ctx user role s).1
perform ctx (suspend user) s = (suspend_member ctx user s).1
perform ctx (restore user) s = (restore_member ctx user s).1
perform ctx (lock device) s = (lock_device ctx device s).1
perform ctx (wipe device) s = (wipe_device ctx device s).1

unfoldable pub perform_all : List (RequestContext × Request) → Inner → Inner
unfolding perform
perform_all [] s = s
perform_all (r ∷ rest) s = perform_all rest (perform r.0 r.1 s)

-- Each membership is stored under its own workspace and user.
unfoldable pub IsKeyed : Inner → Type 0
IsKeyed s =
    (w : WorkspaceId) (u : UserId) (m : Membership)
    → lookup (w, u) s.memberships ≡ some m
    → (m.workspace ≡ w) × (m.user ≡ u)

pub seed_membership-IsKeyed :
    (m : Membership) (s : Inner) → IsKeyed s → IsKeyed (seed_membership m s)
unfolding IsKeyed seed_membership
seed_membership-IsKeyed m s h w u n e = ground (
  arith,
  h w u n,
  lookup-insert (m.workspace, m.user) (w, u) m s.memberships,
  pair_beq_iff (m.workspace, m.user) (w, u),
)

-- A change of one membership by a caller of role `r`: nothing, or a put of a changed membership
-- of `ctx`'s workspace, whose role was and is at most the caller's.
pub record Put (ctx : RequestContext) (s : Inner) (user : UserId) (m : Membership) : Type 0 where
  pub old : Membership
  pub found : lookup (ctx.workspace, user) s.memberships ≡ some old
  pub was : rank old.role ≤ rank ctx.role
  pub is : rank m.role ≤ rank ctx.role
  pub place : (m.workspace ≡ old.workspace) × (m.user ≡ old.user)

-- What is left by an administrator's change of one membership.
IsPutBy : RequestContext → Inner → UserId → Inner → Type 0
IsPutBy ctx s user t = (t ≡ s) ⊎ ((m : Membership) × Put ctx s user m × (t ≡ seed_membership m s))

unchanged_lem : (ctx : RequestContext) (s : Inner) (user : UserId) → IsPutBy ctx s user s
unfolding IsPutBy
unchanged_lem ctx s user = inl refl

-- The part that `change_role` and `set_member_status` share.
module _ (ctx : RequestContext) (user : UserId) (f : Membership → Membership)
    (keeps : (m : Membership)
      → rank m.role ≤ rank ctx.role
      → (rank (f m).role ≤ rank ctx.role)
        × ((f m).workspace ≡ m.workspace)
        × ((f m).user ≡ m.user)) where
  replace-IsPutBy :
      (s : Inner)
      → IsPutBy ctx s user
          ((do
            m ← target_membership ctx user
            refuse_if (outranks m.role ctx.role) (forbidden more_senior_member)
            put_membership (f m))
            s).1
  unfolding IsPutBy seed_membership
  replace-IsPutBy s = elim (Option-cases (lookup (ctx.workspace, user) s.memberships)) [
    | inl absent ↦ rw absent (inl refl)
    | inr (m, e) ↦ rw e (elim (Bool-cases (outranks m.role ctx.role)) [
      | inl senior ↦ rw senior (inl refl)
      | inr below ↦
          let (is, same_place, same_user) = keeps m (ground arith) in
          rw below (
            inr (
              f m,
              record {
                old = m;
                found = e;
                was = ground arith;
                is = is;
                place = (same_place, same_user);
              },
              refl,
            ))
    ])
  ]

change_role-IsPutBy :
    (ctx : RequestContext) (user : UserId) (role : Role) (s : Inner)
    → IsPutBy ctx s user (change_role ctx user role s).1
unfolding change_role require
change_role-IsPutBy ctx user role s = elim (Bool-cases (can ctx.role change_roles)) [
  | inr denied ↦ rw denied (unchanged_lem ctx s user)
  | inl may ↦ rw may (elim (Bool-cases (outranks role ctx.role)) [
    | inl above ↦ rw above (unchanged_lem ctx s user)
    | inr under ↦ rw under (
        replace-IsPutBy ctx user (λ m. record m { role = role }) (λ m h. (ground arith, refl, refl))
          s)
  ])
]

set_member_status-IsPutBy :
    (ctx : RequestContext) (user : UserId) (status : MembershipStatus) (s : Inner)
    → IsPutBy ctx s user (set_member_status ctx user status s).1
unfolding set_member_status require
set_member_status-IsPutBy ctx user status s = elim (Bool-cases (can ctx.role manage_members)) [
  | inr denied ↦ rw denied (unchanged_lem ctx s user)
  | inl may ↦
      rw may
        (replace-IsPutBy ctx user (λ m. record m { status = status }) (λ m h. (h, refl, refl)) s)
]

-- A granted suspension stores the old membership with the status changed.
pub set_member_status_ok :
    (ctx : RequestContext) (user : UserId) (status : MembershipStatus) (s t : Inner)
    → set_member_status ctx user status s ≡ (ok tt, t)
    → (m : Membership) × (lookup (ctx.workspace, user) s.memberships ≡ some m)
      × (t ≡ seed_membership (record m { status = status }) s)
unfolding set_member_status require seed_membership
set_member_status_ok ctx user status s t h = elim (Bool-cases (can ctx.role manage_members)) [
  | inr denied ↦ ground arith
  | inl may ↦ elim (Option-cases (lookup (ctx.workspace, user) s.memberships)) [
    | inl absent ↦ ground arith
    | inr (m, e) ↦ (m, e, ground arith)
  ]
]

-- The other requests leave the memberships as they are.
invite_member-memberships :
    (ctx : RequestContext) (email : Text) (role : Role) (expires_at : UnixTime) (s : Inner)
    → (invite_member ctx email role expires_at s).1.memberships ≡ s.memberships
unfolding invite_member require seed_invitation
invite_member-memberships ctx email role expires_at s =
    elim (Bool-cases (can ctx.role manage_members)) [
      | inr denied ↦ rw denied refl
      | inl may ↦ rw may (elim (Bool-cases (outranks role ctx.role)) [
        | inl above ↦ rw above refl
        | inr under ↦ rw under (elim (Option-cases (parse email)) [
          | inl bad ↦ rw bad refl
          | inr (address, e) ↦ rw e refl
        ])
      ])
    ]

set_device_status-memberships :
    (w : WorkspaceId) (id : DeviceId) (status : DeviceStatus) (s : Inner)
    → (set_device_status w id status s).1.memberships ≡ s.memberships
unfolding set_device_status
set_device_status-memberships w id status s = elim (Option-cases (lookup id s.devices)) [
  | inl absent ↦ rw absent refl
  | inr (d, e) ↦ rw e (elim (Bool-cases (d.workspace == w)) [
    | inl ours ↦ rw ours refl
    | inr theirs ↦ rw theirs refl
  ])
]

control-memberships :
    (status : DeviceStatus) (ctx : RequestContext) (device : DeviceId) (s : Inner)
    → (control status ctx device s).1.memberships ≡ s.memberships
unfolding require
control-memberships status ctx device s = elim (Bool-cases (can ctx.role control_device)) [
  | inr denied ↦ rw denied refl
  | inl may ↦ rw may (set_device_status-memberships ctx.workspace device status s)
]

-- The memberships are as they were, or one was put.
unfoldable pub Kept : RequestContext → Inner → Inner → Type 0
Kept ctx s t =
    (t.memberships ≡ s.memberships)
    ⊎ ((user : UserId) × (m : Membership) × Put ctx s user m × (t ≡ seed_membership m s))

of_IsPutBy :
    (ctx : RequestContext) (s : Inner) (user : UserId) (t : Inner)
    → IsPutBy ctx s user t
    → Kept ctx s t
unfolding IsPutBy Kept
of_IsPutBy ctx s user t (inl same) = inl (ap (λ (s : Inner). s.memberships) same)
of_IsPutBy ctx s user t (inr (m, put, e)) = inr (user, m, put, e)

pub perform-Kept : (ctx : RequestContext) (r : Request) (s : Inner) → Kept ctx s (perform ctx r s)
unfolding perform Kept
perform-Kept ctx (invite email role expires_at) s =
    inl (invite_member-memberships ctx email role expires_at s)
perform-Kept ctx (change user role) s =
    of_IsPutBy ctx s user _ (change_role-IsPutBy ctx user role s)
perform-Kept ctx (suspend user) s = of_IsPutBy ctx s user _ (set_member_status-IsPutBy ctx user _ s)
perform-Kept ctx (restore user) s = of_IsPutBy ctx s user _ (set_member_status-IsPutBy ctx user _ s)
perform-Kept ctx (lock device) s = inl (unfold lock_device in control-memberships _ ctx device s)
perform-Kept ctx (wipe device) s = inl (unfold wipe_device in control-memberships _ ctx device s)
