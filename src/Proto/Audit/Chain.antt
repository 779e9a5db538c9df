-- ===== src/Proto/Audit/Chain.antt =====
-- The pending entries always form one chain up to the head, and the gateway accepts it.
use clave.Prelude.{
  ℕ, ◌+◌, ◌≤◌, ◌<◌, ◌≡◌, refl, inl, inr, arith, Bytes, List, [], ◌∷◌, ◌++◌, filter, ltb, length,
  list_eq, nat_eq, list_beq_iff, ok, Bool-cases,
}
use mathlib.Core.Path.{subst₂}
use clave.Core.Audit.{AuditEvent}
use clave.Proto.External.{Ed25519, Postcard, IsSignatureScheme}
use clave.Proto.Audit.{
  ChainHash, u64_mod, SpoolEntry, AuditSpool, drain, peek, confirm_through, entry_hash, next_entry,
  emit, verify_entries, sign_batch, verify_batch, sig_input, new_spool, genesis,
}

-- What can happen to a spool: an event, a drain, or the confirmation of a sequence number.
pub data Op : Type 0 where
  emit_op : AuditEvent → Op
  drain_op : Op
  confirm_op : ℕ → Op

module _ (sha256 : Bytes → Bytes) (codec : Postcard AuditEvent) where
  -- `es` leads from the hash `from`, with `seq` the number before its first entry, to `to`.
  abbrev pub Chains : ChainHash → ℕ → List SpoolEntry → ChainHash → ℕ → Type 0
  Chains from seq [] to last = (from ≡ to) × (seq ≡ last)
  Chains from seq (e ∷ es) to last =
      (e.seq ≡ seq + 1)
      × (e.seq < u64_mod)
      × (e.prev ≡ from)
      × (e.hash ≡ entry_hash sha256 codec e.seq e.prev (codec.to_bytes e.event))
      × Chains e.hash e.seq es to last

  -- The spool's pending entries lead from some confirmed entry to its head and number.
  pub IsChained : AuditSpool → Type 0
  IsChained s =
      (from : ChainHash) × (seq : ℕ) × (s.seq < u64_mod) × Chains from seq s.pending s.head s.seq

  pub Chains-append :
      (from : ChainHash) (seq : ℕ) (es : List SpoolEntry) (mid : ChainHash) (n : ℕ) (e : SpoolEntry)
      → Chains from seq es mid n
      → Chains mid n (e ∷ []) e.hash e.seq
      → Chains from seq (es ++ (e ∷ [])) e.hash e.seq
  Chains-append from seq [] mid n e h k = ground arith
  Chains-append from seq (x ∷ es) mid n e h k =
      ground (arith, Chains-append x.hash x.seq es mid n e)

  Chains-le :
      (from : ChainHash) (seq : ℕ) (es : List SpoolEntry) (to : ChainHash) (last : ℕ)
      → Chains from seq es to last
      → seq ≤ last
  Chains-le from seq [] to last h = omega arith
  Chains-le from seq (e ∷ es) to last h = omega (arith, Chains-le e.hash e.seq es to last h.4)

  emit-IsChained :
      (event : AuditEvent) (s : AuditSpool)
      → s.seq + 1 < u64_mod
      → IsChained s
      → IsChained (emit sha256 codec event s)
  unfolding emit IsChained
  emit-IsChained event s room (from, seq, fits, chain) = (
    from,
    seq,
    omega arith,
    Chains-append from seq s.pending s.head s.seq (next_entry sha256 codec event s) chain
        (unfold next_entry in (omega arith, omega arith, refl, refl, (refl, refl))),
  )

  drain-IsChained : (s : AuditSpool) → IsChained s → IsChained (drain s).1
  unfolding drain IsChained
  drain-IsChained s (from, seq, fits, chain) = (s.head, s.seq, fits, (refl, refl))

  -- Confirming a sequence number drops the front of a chain, up to it.
  Chains-filter :
      (n : ℕ) (from : ChainHash) (seq : ℕ) (es : List SpoolEntry) (to : ChainHash) (last : ℕ)
      → Chains from seq es to last
      → (from' : ChainHash) × (seq' : ℕ) × Chains from' seq' (filter (λ e. ltb n e.seq) es) to last
        × ((n ≤ seq) → (from' ≡ from) × (seq' ≡ seq))
  Chains-filter n from seq [] to last h = (from, seq, h, λ k. (refl, refl))
  Chains-filter n from seq (e ∷ es) to last (next, fits, linked, hashed, rest) =
      let (from', seq', chain, kept) = Chains-filter n e.hash e.seq es to last rest in
      elim (Bool-cases (ltb n e.seq)) [
        | inl later ↦
            let (same_from, same_seq) = kept (ground arith) in
            let tail =
              subst₂ (λ f q. Chains f q (filter (λ e. ltb n e.seq) es) to last) same_from same_seq
                chain in
            rw later (from, seq, (next, fits, linked, hashed, tail), λ k. (refl, refl))
        | inr gone ↦ rw gone (from', seq', chain, λ k. absurd (ground arith))
      ]

  confirm_through-IsChained :
      (n : ℕ) (s : AuditSpool) → IsChained s → IsChained (confirm_through n s)
  unfolding confirm_through IsChained
  confirm_through-IsChained n s (from, seq, fits, chain) =
      let (from', seq', chain', kept) = Chains-filter n from seq s.pending s.head s.seq chain in
      (from', seq', fits, chain')

  pub verify_entries-Chains :
      (from : ChainHash) (seq : ℕ) (es : List SpoolEntry) (to : ChainHash) (last : ℕ)
      → last + 1 < u64_mod
      → Chains from seq es to last
      → verify_entries sha256 codec from (seq + 1) es ≡ ok (to, last + 1)
  unfolding verify_entries
  verify_entries-Chains from seq [] to last room h = ground arith
  verify_entries-Chains from seq (e ∷ es) to last room (next, fits, linked, hashed, rest) = ground (
    arith,
    list_beq_iff e.prev from,
    list_beq_iff (entry_hash sha256 codec e.seq e.prev (codec.to_bytes e.event)) e.hash,
    verify_entries-Chains e.hash e.seq es to last room rest,
    Chains-le e.hash e.seq es to last rest,
  )

  unfoldable pub apply : Op → AuditSpool → AuditSpool
  apply (emit_op event) s = emit sha256 codec event s
  apply drain_op s = (drain s).1
  apply (confirm_op n) s = confirm_through n s

  unfoldable pub run : List Op → AuditSpool → AuditSpool
  run [] s = s
  run (op ∷ ops) s = run ops (apply op s)

  apply-seq-le : (op : Op) (s : AuditSpool) → (apply op s).seq ≤ s.seq + 1
  unfolding apply emit drain confirm_through next_entry
  apply-seq-le (emit_op event) s = omega arith
  apply-seq-le drain_op s = omega arith
  apply-seq-le (confirm_op n) s = omega arith

  run-IsChained :
      (ops : List Op) (s : AuditSpool)
      → s.seq + length ops + 1 < u64_mod
      → IsChained s
      → IsChained (run ops s) × ((run ops s).seq + 1 < u64_mod)
  unfolding run
  run-IsChained [] s room h = (h, omega arith)
  run-IsChained (op ∷ ops) s room h =
      run-IsChained ops (apply op s) (omega (arith, apply-seq-le op s)) (one op)
    where
      one : (op : Op) → IsChained (apply op s)
      one (emit_op event) = unfold apply in emit-IsChained event s (omega arith) h
      one drain_op = unfold apply in drain-IsChained s h
      one (confirm_op n) = unfold apply in confirm_through-IsChained n s h

  -- What the device signs of a chain is accepted from the place where the chain starts.
  pub verify_batch-Chains :
      (ed : Ed25519) (seed : Bytes) (from : ChainHash) (seq : ℕ) (s : AuditSpool)
      → IsSignatureScheme ed
      → s.seq + 1 < u64_mod
      → Chains from seq s.pending s.head s.seq
      → verify_batch sha256 codec ed from
          (seq + 1)
          (sign_batch sha256 codec ed seed (peek s).0 (peek s).1)
          (ed.public_of seed)
        ≡ ok s.head
  unfolding verify_batch sign_batch peek
  verify_batch-Chains ed seed from seq s scheme small chain = ground (
    arith,
    verify_entries-Chains from seq s.pending s.head s.seq small chain,
    list_beq_iff s.head s.head,
    scheme.public_is_key seed,
    scheme.sign_is_signature seed (sig_input s.head),
    scheme.sign_verifies seed (sig_input s.head),
  )

  -- From a new spool, after any sequence of events, drains and confirmations (of fewer than 2 ^ 64 - 1
  -- steps), the pending entries signed by the device pass the gateway's check from some earlier hash
  -- and number, and the check ends at the spool's head.
  pub verify_batch-sign_batch :
      (ed : Ed25519) (seed : Bytes) (ops : List Op)
      → IsSignatureScheme ed
      → length ops + 1 < u64_mod
      → let s = run ops new_spool in
        (from : ChainHash) × (seq : ℕ) × (verify_batch sha256 codec ed from
            (seq + 1)
            (sign_batch sha256 codec ed seed (peek s).0 (peek s).1)
            (ed.public_of seed)
          ≡ ok s.head)
  unfolding IsChained
  verify_batch-sign_batch ed seed ops scheme room =
      let ((from, seq, fits, chain), small) =
        run-IsChained ops new_spool (omega arith) (genesis, 0, omega arith, (refl, refl)) in
      (from, seq, verify_batch-Chains ed seed from seq (run ops new_spool) scheme small chain)
