-- ===== src/Core/App/Laws.antt =====
-- Which binaries join the zone, and what a launch is given.
use clave.Prelude.{
  ◌≡◌, refl, ◌↔◌, ◌⊎◌, inl, inr, Bool, true, some, List, [], ◌∷◌, arith, Any, find, list_beq_iff,
  Option-cases, is_some, Bool-cases, list_eq, nat_eq,
}
use clave.Core.App.{
  AppId, BinaryMatch, macos, windows, AppPolicy, AppRule, binary_matches, match_app, classify_exec,
}

-- The identity that a rule names. A macOS rule with no team admits platform binaries alone; any
-- other rule wants both of its names.
abbrev pub Identifies : BinaryMatch → BinaryMatch → Bool → Type 0
Identifies (macos [] sign) presented platform = (presented ≡ macos [] sign) × (platform ≡ true)
Identifies rule presented platform = presented ≡ rule

pub binary_matches_iff :
    (rule presented : BinaryMatch) (platform : Bool)
    → (binary_matches rule presented platform ≡ true) ↔ Identifies rule presented platform
unfolding binary_matches
binary_matches_iff (macos [] sign) (macos [] sign') platform =
    ground (arith, list_beq_iff sign sign')
binary_matches_iff (macos [] sign) (macos (c ∷ team') sign') platform =
    ground (arith, list_beq_iff sign sign')
binary_matches_iff (macos (c ∷ team) sign) (macos team' sign') platform =
    ground (arith, list_beq_iff sign sign', list_beq_iff (c ∷ team) team')
binary_matches_iff (windows pub_name product) (windows pub_name' product') platform =
    ground (arith, list_beq_iff pub_name pub_name', list_beq_iff product product')
binary_matches_iff (macos [] sign) (windows _ _) platform = ground arith
binary_matches_iff (macos (c ∷ team) sign) (windows _ _) platform = ground arith
binary_matches_iff (windows _ _) (macos _ _) platform = ground arith

-- The first rule of the list that satisfies `P`.
abbrev pub IsFirst : (AppRule → Type 0) → AppRule → List AppRule → Type 0
IsFirst P r [] = ⊥
IsFirst P r (x ∷ xs) = ((x ≡ r) × P x) ⊎ ((¬ P x) × IsFirst P r xs)

find-IsFirst :
    (presented : BinaryMatch) (platform : Bool) (rules : List AppRule) (r : AppRule)
    → find (λ x. binary_matches x.binary presented platform) rules ≡ some r
    → IsFirst (λ x. Identifies x.binary presented platform) r rules
find-IsFirst presented platform [] r h = cc
find-IsFirst presented platform (x ∷ xs) r h =
    elim (Bool-cases (binary_matches x.binary presented platform)) [
      | inl hit ↦ inl (ground arith, (binary_matches_iff x.binary presented platform).0 hit)
      | inr miss ↦ inr (
        λ fits. ground (arith, (binary_matches_iff x.binary presented platform).1 fits),
        find-IsFirst presented platform xs r (ground arith),
      )
    ]

IsFirst-find :
    (presented : BinaryMatch) (platform : Bool) (rules : List AppRule) (r : AppRule)
    → IsFirst (λ x. Identifies x.binary presented platform) r rules
    → find (λ x. binary_matches x.binary presented platform) rules ≡ some r
IsFirst-find presented platform [] r h = elim h [ ]
IsFirst-find presented platform (x ∷ xs) r (inl (same, fits)) =
    ground (arith, (binary_matches_iff x.binary presented platform).1 fits)
IsFirst-find presented platform (x ∷ xs) r (inr (other, first)) = ground (
  arith,
  binary_matches_iff x.binary presented platform,
  other,
  IsFirst-find presented platform xs r first,
)

find-Any :
    (presented : BinaryMatch) (platform : Bool) (rules : List AppRule)
    → (is_some (find (λ (x : AppRule). binary_matches x.binary presented platform) rules) ≡ true)
      ↔ Any (λ (x : AppRule). Identifies x.binary presented platform) rules
find-Any presented platform [] = ground arith
find-Any presented platform (x ∷ xs) =
    ground (arith, find-Any presented platform xs, binary_matches_iff x.binary presented platform)

-- An executable is never refused. It joins the zone exactly when a rule of the allow list
-- identifies it or its parent is in the zone, and it is matched with an app exactly when the first rule
-- that identifies it is of this app.
pub classify_exec_lem :
    (binary : BinaryMatch) (platform parent_supervised : Bool) (apps : AppPolicy) (app : AppId)
    → let v = classify_exec binary platform parent_supervised apps in
      (v.allow ≡ true)
      × ((v.joins_zone ≡ true) ↔ (
          Any (λ (r : AppRule). Identifies r.binary binary platform) apps.allow
          ⊎ (parent_supervised ≡ true)))
      × ((v.matched ≡ some app) ↔ (
          (r : AppRule) × IsFirst (λ x. Identifies x.binary binary platform) r apps.allow
          × (r.app_id ≡ app)))
unfolding classify_exec match_app
classify_exec_lem binary platform parent_supervised apps app =
    let test = λ (r : AppRule). binary_matches r.binary binary platform in
    let known = find-Any binary platform apps.allow in
    elim (Option-cases (find test apps.allow)) [
      | inl missed ↦ rw missed (
        refl,
        ground (arith, rw missed at known),
        (λ h. cc, λ (r, first, same). cc (missed, IsFirst-find binary platform apps.allow r first)),
      )
      | inr (r, e) ↦ rw e (
        refl,
        ground (arith, rw e at known),
        (
          λ h. (r, find-IsFirst binary platform apps.allow r e, ground arith),
          λ (r', first, same). ground (arith, e, IsFirst-find binary platform apps.allow r' first),
        ),
      )
    ]
