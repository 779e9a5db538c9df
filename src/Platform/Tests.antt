-- ===== src/Platform/Tests.antt =====
-- The theorems on the enforcement report at concrete inputs.
use clave.Prelude.{◌≡◌, refl, [], ◌∷◌, err}
use clave.Platform.Enforcement.{
  Capability, network, EnforcementStatus, enforced, unavailable, from_fn, require_production,
}

abbrev no_network : Capability → EnforcementStatus
no_network network = unavailable
no_network _ = enforced

one_blocker : require_production (from_fn no_network) ≡ err ((network, unavailable) ∷ [])
unfolding require_production from_fn
one_blocker = refl
