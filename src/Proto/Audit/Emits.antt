-- ===== src/Proto/Audit/Emits.antt =====
-- A spool that has only been given events: its whole history is pending, from the genesis hash on.
use clave.Prelude.{◌+◌, ◌<◌, refl, arith, Bytes, List, [], ◌∷◌, length, Any, Any-append}
use clave.Core.Audit.{AuditEvent}
use clave.Proto.External.{Postcard}
use clave.Proto.Audit.{u64_mod, SpoolEntry, AuditSpool, next_entry, emit, genesis}
use clave.Proto.Audit.Chain.{Chains, Chains-append}

module _ (sha256 : Bytes → Bytes) (codec : Postcard AuditEvent) where
  -- The spool after these events
  unfoldable pub emit_all : List AuditEvent → AuditSpool → AuditSpool
  unfolding emit
  emit_all [] s = s
  emit_all (e ∷ es) s = emit_all es (emit sha256 codec e s)

  -- All that was ever reported is pending.
  abbrev pub IsWhole : AuditSpool → Type 0
  IsWhole s = Chains sha256 codec genesis 0 s.pending s.head s.seq

  emit-IsWhole :
      (e : AuditEvent) (s : AuditSpool)
      → s.seq + 1 < u64_mod
      → IsWhole s
      → IsWhole (emit sha256 codec e s)
  unfolding emit
  emit-IsWhole e s room h =
      Chains-append sha256 codec genesis 0 s.pending s.head s.seq (next_entry sha256 codec e s) h
        (unfold next_entry in (omega arith, omega arith, refl, refl, (refl, refl)))

  pub emit_all-IsWhole :
      (es : List AuditEvent) (s : AuditSpool)
      → s.seq + length es + 1 < u64_mod
      → IsWhole s
      → IsWhole (emit_all es s) × ((emit_all es s).seq + 1 < u64_mod)
  unfolding emit_all emit next_entry
  emit_all-IsWhole [] s room h = (h, omega arith)
  emit_all-IsWhole (e ∷ es) s room h =
      emit_all-IsWhole es (emit sha256 codec e s) (omega arith) (emit-IsWhole e s (omega arith) h)

  -- What is pending stays so.
  pub emit_all-Any :
      (P : SpoolEntry → Type 0) (es : List AuditEvent) (s : AuditSpool)
      → Any P s.pending
      → Any P (emit_all es s).pending
  unfolding emit_all emit
  emit_all-Any P [] s h = h
  emit_all-Any P (e ∷ es) s h =
      emit_all-Any P es (emit sha256 codec e s)
        (Any-append P s.pending (next_entry sha256 codec e s ∷ []) h)
