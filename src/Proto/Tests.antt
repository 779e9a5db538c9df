-- ===== src/Proto/Tests.antt =====
-- The theorems on the control plane at concrete inputs.
use clave.Prelude.{
  ◌↔◌, ℕ, ◌+◌, ◌≡◌, refl, ◌⊎◌, false, List, [], ◌∷◌, arith, ok, err, is_ok, Bytes, list_beq,
  to_le_bytes,
}
use clave.Core.Decide.{Reason, allow}
use clave.Core.Audit.{AuditAction, AuditEvent, new_event}
use clave.Proto.Command.{
  ControlReason, GatewayCommand, GatewaySigningKey, SignedCommand, Envelope, sign, ProtoError,
}
use clave.Proto.Verify.{GatewayVerifier, verify, verify_all}
use clave.Proto.Verify.Laws.{verify_no_replay, verify_lem, Accepts}
use clave.Proto.Audit.{SignedSpoolBatch, genesis, emit, sign_batch, verify_batch, peek, new_spool}
use clave.Proto.Audit.Chain.{Op, emit_op, confirm_op, run, verify_batch-sign_batch}
use clave.Proto.Audit.Evidence.{Collision, verify_batch-tamper_evident}
use clave.Proto.Samples.{
  toy_scheme, toy_scheme_lem, toy_hash, toy_hash-HasDigests, event_codec, event_codec-IsCodec,
  envelope_codec,
}

abbrev signer : GatewaySigningKey
signer = record { seed = 7 ∷ []; tenant = 3 }

abbrev verifier : GatewayVerifier
verifier = record { tenant = 3; key = 7 ∷ []; high_water = 0; max_age_secs = 2592000 }

abbrev lock : GatewayCommand
lock = GatewayCommand.lock ControlReason.compromise

abbrev locked : SignedCommand
locked = unfold sign in sign toy_scheme envelope_codec signer 5 1000 lock

abbrev wiping : SignedCommand
wiping =
    unfold sign in
    sign toy_scheme envelope_codec signer 6 1005 (GatewayCommand.wipe 9 ControlReason.offboarding)

-- Offered again after another command and later, the lock is a replay.
verify_no_replay_example :
    is_ok
      (verify toy_scheme envelope_codec
        (verify_all toy_scheme envelope_codec
          (verify toy_scheme envelope_codec verifier locked 1010).1
          ((wiping, 1011) ∷ []))
        locked
        1020).0
    ≡ false
unfolding verify sign list_beq
verify_no_replay_example =
    verify_no_replay toy_scheme envelope_codec verifier locked 1010 1020 ((wiping, 1011) ∷ []) refl

verify_lem_example :
    (((verify toy_scheme envelope_codec verifier locked 1010).0 ≡ ok lock) ↔ (
      (env : Envelope) × Accepts toy_scheme envelope_codec verifier locked 1010 env
      × (env.command ≡ lock)))
    × (((env : Envelope) × Accepts toy_scheme envelope_codec verifier locked 1010 env
          × (verify toy_scheme envelope_codec verifier locked 1010
              ≡ (ok env.command, record verifier { high_water = env.counter })))
        ⊎ ((x : ProtoError) × (verify toy_scheme envelope_codec verifier locked 1010
              ≡ (err x, verifier))))
verify_lem_example = verify_lem toy_scheme envelope_codec verifier locked 1010 lock

-- Refused commands, by the check that fails first.
verify_refuses :
    ((verify toy_scheme envelope_codec verifier locked 2593001).0
      ≡ err (ProtoError.stale 1000 2593001))
    × ((verify toy_scheme envelope_codec (record verifier { tenant = 4 }) locked 1010).0
        ≡ err (ProtoError.wrong_tenant 4 3))
    × ((verify toy_scheme envelope_codec (record verifier { key = 8 ∷ [] }) locked 1010).0
        ≡ err ProtoError.bad_signature)
unfolding verify sign list_beq
verify_refuses = (refl, refl, refl)

abbrev blocked : AuditEvent
blocked = new_event 50 AuditAction.clipboard_blocked (allow Reason.clipboard)

abbrev wiped : AuditEvent
wiped = new_event 60 AuditAction.wiped (allow Reason.default)

abbrev history : List Op
history = emit_op blocked ∷ emit_op wiped ∷ confirm_op 1 ∷ emit_op blocked ∷ []

verify_batch-sign_batch_example :
    let s = run toy_hash event_codec history new_spool in
    (from : Bytes) × (seq : ℕ) × (verify_batch toy_hash event_codec toy_scheme from
        (seq + 1)
        (sign_batch toy_hash event_codec toy_scheme (7 ∷ []) (peek s).0 (peek s).1)
        (7 ∷ [])
      ≡ ok s.head)
verify_batch-sign_batch_example =
    verify_batch-sign_batch toy_hash event_codec toy_scheme (7 ∷ []) history toy_scheme_lem
      (omega arith)

abbrev batch_of : AuditEvent → SignedSpoolBatch
batch_of event =
    unfold emit sign_batch in
    let s = emit toy_hash event_codec event new_spool in
    sign_batch toy_hash event_codec toy_scheme (7 ∷ []) s.pending s.head

-- The sample hash reads 32 bytes, so it does not see the event, and a collision is found.
verify_batch-tamper_evident_example :
    ((batch_of blocked).entries ≡ (batch_of wiped).entries) ⊎ Collision toy_hash
unfolding verify_batch emit sign_batch list_beq to_le_bytes
verify_batch-tamper_evident_example =
    verify_batch-tamper_evident toy_hash event_codec toy_hash-HasDigests event_codec-IsCodec
      toy_scheme genesis 1 (batch_of blocked) (batch_of wiped) (7 ∷ []) (batch_of blocked).head refl
      refl refl refl
