-- ===== src/Platform/Enforcement.antt =====
-- crates/clave-platform/src/enforcement.rs: what a platform enforces, capability by capability.
pub mod Laws
use clave.Prelude.{
  ◌≡◌, Bool, true, false, not, Option, none, some, List, [], ◌∷◌, map, find, filter, all, is_empty,
  if◌then◌else◌, PartialEq, ◌==◌, of_discrete, Result, ok, err,
}

pub data Capability : Type 0 where
  process_supervision volume clipboard network screen overlay input : Capability

unfoldable pub Capability-discrete : Discrete Capability
Capability-discrete = hlevel

instance abbrev pub capability_eq : PartialEq Capability
capability_eq = of_discrete Capability-discrete

-- `Capability::ALL`
abbrev pub all_capabilities : List Capability
all_capabilities =
    process_supervision ∷ volume ∷ clipboard ∷ network ∷ screen ∷ overlay ∷ input ∷ []

pub data EnforcementStatus : Type 0 where
  enforced development_only unavailable : EnforcementStatus

abbrev pub is_enforced : EnforcementStatus → Bool
is_enforced enforced = true
is_enforced _ = false

-- The array of `Capability::COUNT` entries is a list here.
pub record EnforcementReport : Type 0 where
  pub entries : List (Capability × EnforcementStatus)

-- `EnforcementReport::from_fn`
unfoldable pub from_fn : (Capability → EnforcementStatus) → EnforcementReport
from_fn f = record { entries = map (λ cap. (cap, f cap)) all_capabilities }

abbrev unwrap_or : Option (Capability × EnforcementStatus) → EnforcementStatus
unwrap_or none = unavailable
unwrap_or (some (_, s)) = s

-- `EnforcementReport::status`
unfoldable pub status : EnforcementReport → Capability → EnforcementStatus
unfolding Capability-discrete
status report cap = unwrap_or (find (λ e. e.0 == cap) report.entries)

unfoldable pub production_blockers : EnforcementReport → List (Capability × EnforcementStatus)
production_blockers report = filter (λ e. not (is_enforced e.1)) report.entries

unfoldable pub is_production_ready : EnforcementReport → Bool
is_production_ready report = all (λ e. is_enforced e.1) report.entries

abbrev pub Production : Type 0
Production = Result (List (Capability × EnforcementStatus)) (Unit {0})

unfoldable pub require_production : EnforcementReport → Production
unfolding production_blockers
require_production report =
    let blockers = production_blockers report in if is_empty blockers then ok tt else err blockers
