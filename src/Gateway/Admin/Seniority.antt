-- ===== src/Gateway/Admin/Seniority.antt =====
-- The administrators' requests never touch a member above them, and never make one.
use clave.Prelude.{
  ℕ, ◌≤◌, ◌≡◌, refl, ap, ◌∙◌, inl, inr, Option, none, some, List, [], ◌∷◌, All, arith, ltb, lookup,
  lookup-insert, nat_eq, list_eq, pair_eq, pair_beq_iff, if◌then◌else◌,
}
use clave.Identity.Email.{WorkspaceId, UserId}
use clave.Identity.Model.{Membership}
use clave.Identity.Authz.{rank}
use clave.Gateway.Store.{Inner, seed_membership}
use clave.Gateway.Provider.{RequestContext}
use clave.Gateway.Admin.Changes.{
  Request, perform, perform_all, IsKeyed, seed_membership-IsKeyed, Kept, perform-Kept,
}

perform-IsKeyed :
    (ctx : RequestContext) (r : Request) (s : Inner) → IsKeyed s → IsKeyed (perform ctx r s)
unfolding Kept IsKeyed
perform-IsKeyed ctx r s h = elim (perform-Kept ctx r s) [
  | inl same ↦ λ w u m e. h w u m (ground arith)
  | inr (user, m, put, e) ↦ rw e (seed_membership-IsKeyed m s h)
]

-- What is seen of a membership above the rank `bound`.
abbrev pub senior : ℕ → Option Membership → Option Membership
senior bound none = none
senior bound (some m) = if ltb bound (rank m.role) then some m else none

perform-senior :
    (bound : ℕ) (ctx : RequestContext) (r : Request) (s : Inner)
    → IsKeyed s
    → rank ctx.role ≤ bound
    → (w : WorkspaceId) (u : UserId)
    → senior bound (lookup (w, u) (perform ctx r s).memberships)
      ≡ senior bound (lookup (w, u) s.memberships)
unfolding Kept seed_membership IsKeyed
perform-senior bound ctx r s h low w u = elim (perform-Kept ctx r s) [
  | inl same ↦ ap (λ ms. senior bound (lookup (w, u) ms)) same
  | inr (user, m, put, e) ↦ rw e (
      ground (
        arith,
        h ctx.workspace user put.old put.found,
        put.found,
        put.was,
        put.is,
        put.place,
        lookup-insert (m.workspace, m.user) (w, u) m s.memberships,
        pair_beq_iff (m.workspace, m.user) (w, u),
      ))
]

-- Whatever callers of rank at most `bound` ask for, on a store that keeps each membership under its
-- own workspace and user, and in whatever order: the members above `bound`, of every workspace, keep
-- their memberships as they were, and nobody becomes one.
pub perform_all-senior :
    (bound : ℕ) (rs : List (RequestContext × Request)) (s : Inner)
    → IsKeyed s
    → All (λ r. rank r.0.role ≤ bound) rs
    → (w : WorkspaceId) (u : UserId)
    → senior bound (lookup (w, u) (perform_all rs s).memberships)
      ≡ senior bound (lookup (w, u) s.memberships)
unfolding perform_all
perform_all-senior bound [] s h low w u = refl
perform_all-senior bound (r ∷ rest) s h low w u =
    perform_all-senior bound rest (perform r.0 r.1 s) (perform-IsKeyed r.0 r.1 s h) low.1 w u
    ∙ perform-senior bound r.0 r.1 s h low.0 w u
