-- ===== src/Gateway/Tests/Audit.antt =====
-- The ledger, the policies and the enrolment of a device at concrete inputs.
use clave.Prelude.{
  map, ◌≡◌, refl, arith, true, false, none, some, List, [], ◌∷◌, ◌++◌, lookup, nat_eq,
}
use clave.Core.Decide.{Reason, allow}
use clave.Core.Audit.{AuditAction, AuditEvent, new_event}
use clave.Proto.Verify.{GatewayVerifier}
use clave.Proto.Audit.{SignedSpoolBatch, new_spool}
use clave.Proto.Samples.{
  toy_scheme, toy_scheme_lem, toy_hash, event_codec, plain_policy, policy_codec,
}
use clave.Gateway.Store.{new_store}
use clave.Gateway.Ledger.{new_ledger, new_audit_store, register_device, events_for, events_of}
use clave.Gateway.Ledger.Delivery.{Step, records, ships, hears, recorded, step, run-delivers}
use clave.Gateway.Policies.{MemPolicyIssuer, new_issuer, policy_versions, current}
use clave.Gateway.Policies.Versions.{author_all, author_all-numbered}
use clave.Gateway.Policies.Accepted.{Round, outcomes, answer, outcomes_lem}
use clave.Gateway.Server.{Gateway}
use clave.Gateway.Server.Audit.{ingest_device_audit}
use clave.Gateway.Server.Audit.Restart.{Op, enters, restart, run-restart}

abbrev event : AuditEvent
event = new_event 5 AuditAction.network_blocked (allow Reason.default)

abbrev forged : SignedSpoolBatch
forged = record { entries = []; head = 1 ∷ []; signature = [] }

abbrev steps : List Step
steps = records event ∷ ships ∷ hears 2 forged ∷ records event ∷ []

run-delivers_example :
    let (s, m) =
      clave.Gateway.Ledger.Delivery.run toy_hash event_codec toy_scheme
        (9 ∷ [])
        1
        steps
        (new_spool, register_device 1 (9 ∷ []) new_ledger) in
    (events_for 1 m ++ events_of s.pending ≡ event ∷ event ∷ [])
    × (events_for 1 (step toy_hash event_codec toy_scheme (9 ∷ []) 1 ships (s, m)).1
        ≡ event ∷ event ∷ [])
unfolding events_for
run-delivers_example =
    run-delivers toy_hash event_codec toy_scheme (9 ∷ []) 1 toy_scheme_lem steps new_ledger
      (omega arith) (tt, (tt, ((λ e. ground arith), (tt, tt)))) refl

abbrev issuer : MemPolicyIssuer
issuer = new_issuer (record { seed = 7 ∷ []; tenant = 3 }) 4

author_all-numbered_example :
    (policy_versions 7
        (author_all ((7, plain_policy 0) ∷ (8, plain_policy 0) ∷ (7, plain_policy 9) ∷ []) issuer)
      ≡ 1 ∷ 2 ∷ [])
    × (current 7
          (author_all ((7, plain_policy 0) ∷ (8, plain_policy 0) ∷ (7, plain_policy 9) ∷ []) issuer)
        ≡ some (plain_policy 2))
author_all-numbered_example =
    author_all-numbered issuer.signer 4
      ((7, plain_policy 0) ∷ (8, plain_policy 0) ∷ (7, plain_policy 9) ∷ []) 7 (omega arith)

abbrev with_policy : MemPolicyIssuer
with_policy = record issuer { policies = (7, plain_policy 1 ∷ []) ∷ [] }

abbrev device_verifier : GatewayVerifier
device_verifier = record { tenant = 3; key = 7 ∷ []; high_water = 2; max_age_secs = 2592000 }

abbrev rounds : List Round
rounds =
    record { workspace = 7; issued_at = 10; arrives = false; now = 10 }
    ∷ record { workspace = 7; issued_at = 20; arrives = true; now = 25 }
    ∷ []

outcomes_lem_example :
    outcomes toy_scheme policy_codec rounds with_policy device_verifier
    ≡ map (answer with_policy) rounds
unfolding current lookup
outcomes_lem_example =
    outcomes_lem toy_scheme policy_codec toy_scheme_lem rounds with_policy device_verifier
      (omega arith) (λ w b e tenant counter issued_at. ground arith)
      (record { key = refl; tenant = refl; max_age = refl; behind = omega arith })
      ((omega arith, omega arith), ((omega arith, omega arith), tt))

abbrev bare : Gateway
bare = record {
  store = new_store;
  policy_issuer = none;
  volume_keys = none;
  audit = new_ledger;
  audit_store = some new_audit_store;
  device_ca = none;
}

abbrev ops : List Op
ops = enters 1 (9 ∷ []) ∷ Op.hears 1 forged ∷ []

run-restart_example :
    let g = clave.Gateway.Server.Audit.Restart.run toy_hash event_codec toy_scheme ops bare in
    (lookup 1 (restart g).audit.chains ≡ lookup 1 g.audit.chains)
    × ((ingest_device_audit toy_hash event_codec toy_scheme 1 forged (restart g)).0
        ≡ (ingest_device_audit toy_hash event_codec toy_scheme 1 forged g).0)
run-restart_example = run-restart toy_hash event_codec toy_scheme ops bare refl refl 1 forged
