-- ===== src/Platform/Enforcement/Laws.antt =====
-- The report answers for every capability, and production is refused with the exact blockers.
use clave.Prelude.{◌≡◌, refl, ◌↔◌, ◌≢◌, true, not, List, [], ◌∷◌, filter, all, arith, ok, err}
use clave.Platform.Enforcement.{
  Capability, process_supervision, volume, clipboard, network, screen, overlay, input,
  EnforcementStatus, enforced, is_enforced, EnforcementReport, from_fn, status, production_blockers,
  is_production_ready, require_production,
}

-- A report built from a status function answers with that function, for every capability.
pub status-from_fn :
    (f : Capability → EnforcementStatus) (cap : Capability) → status (from_fn f) cap ≡ f cap
unfolding status from_fn
status-from_fn f process_supervision = refl
status-from_fn f volume = refl
status-from_fn f clipboard = refl
status-from_fn f network = refl
status-from_fn f screen = refl
status-from_fn f overlay = refl
status-from_fn f input = refl

all-filter-not :
    (es : List (Capability × EnforcementStatus))
    → (all (λ e. is_enforced e.1) es ≡ true) ↔ (filter (λ e. not (is_enforced e.1)) es ≡ [])
all-filter-not [] = ground arith
all-filter-not (e ∷ es) = ground (arith, all-filter-not es)

-- A report is production-ready exactly when production is not refused, and production is refused with
-- a list exactly when it is that of the entries that are not enforced and is not empty.
pub require_production_iff :
    (report : EnforcementReport) (bs : List (Capability × EnforcementStatus))
    → ((is_production_ready report ≡ true) ↔ (require_production report ≡ ok tt))
      × ((require_production report ≡ err bs) ↔ ((bs ≡ production_blockers report) × (bs ≢ [])))
unfolding is_production_ready require_production production_blockers
require_production_iff report bs = (ground (arith, all-filter-not report.entries), ground arith)

-- A platform is ready for production exactly when it enforces every capability.
pub is_production_ready-from_fn :
    (f : Capability → EnforcementStatus)
    → (is_production_ready (from_fn f) ≡ true) ↔ ((cap : Capability) → f cap ≡ enforced)
unfolding is_production_ready from_fn
is_production_ready-from_fn f = (
  λ h. elim [
    | process_supervision ↦ ground arith
    | volume ↦ ground arith
    | clipboard ↦ ground arith
    | network ↦ ground arith
    | screen ↦ ground arith
    | overlay ↦ ground arith
    | input ↦ ground arith
  ],
  λ h. rw (h process_supervision, h volume, h clipboard, h network, h screen, h overlay, h input),
)
