-- ===== src/Proto/Audit/Evidence.antt =====
-- Two different histories with one head are evidence of a collision of the hash.
use clave.Prelude.{
  ℕ, ◌+◌, ◌%◌, ◌≡◌, refl, sym, ap, ◌∙◌, ◌≢◌, ◌⊎◌, inl, inr, arith, Bytes, List, [], ◌∷◌, ◌++◌,
  length, drop, drop-append, list_eq, nat_eq, list_beq_iff, list_beq, Result, ok, err, Bool-cases,
  to_le_bytes,
}
use clave.Core.Audit.{AuditEvent}
use clave.Proto.External.{Ed25519, Postcard, IsCodec, HasDigests}
use clave.Proto.Audit.{
  ChainHash, u64_mod, SpoolEntry, SignedSpoolBatch, AuditError, chain_domain, hash_input,
  entry_hash, verify_entries, verify_batch,
}

-- Two different inputs with one digest.
abbrev pub Collision : (Bytes → Bytes) → Type 0
Collision hash = (m : Bytes) × (n : Bytes) × (m ≢ n) × (hash m ≡ hash n)

append_cancel : (xs ys zs : Bytes) → xs ++ ys ≡ xs ++ zs → ys ≡ zs
append_cancel xs ys zs e =
    sym (drop-append xs ys) ∙ ap (λ t. drop (length xs) t) e ∙ drop-append xs zs

append_split :
    (xs ys us vs : Bytes) → length xs ≡ length us → xs ++ ys ≡ us ++ vs → (xs ≡ us) × (ys ≡ vs)
append_split [] ys [] vs h e = (refl, e)
append_split [] ys (u ∷ us) vs h e = absurd (omega arith)
append_split (x ∷ xs) ys [] vs h e = absurd (omega arith)
append_split (x ∷ xs) ys (u ∷ us) vs h e = ground (arith, append_split xs ys us vs)

hash_input-injective :
    (seq : ℕ) (p q : ChainHash) (m n : Bytes)
    → length p ≡ length q
    → hash_input seq p m ≡ hash_input seq q n
    → (p ≡ q) × (m ≡ n)
unfolding hash_input
hash_input-injective seq p q m n h e =
    append_split p m q n h
      (append_cancel (to_le_bytes 8 seq) (p ++ m) (q ++ n) (append_cancel chain_domain _ _ e))

module _ (sha256 : Bytes → Bytes) (codec : Postcard AuditEvent) (digests : HasDigests sha256)
    (codes : IsCodec codec) where
  encode-injective : (a b : AuditEvent) → codec.to_bytes a ≡ codec.to_bytes b → a ≡ b
  encode-injective a b e = cc (sym (codes a) ∙ ap codec.from_bytes e ∙ codes b)

  -- Equal digests come from equal inputs, or are a collision.
  same_or_Collision : (m n : Bytes) → sha256 m ≡ sha256 n → (m ≡ n) ⊎ Collision sha256
  same_or_Collision m n e = elim (Bool-cases (list_beq m n)) [
    | inl same ↦ inl ((list_beq_iff m n).0 same)
    | inr other ↦ inr (m, n, λ s. ground (arith, list_beq_iff m n), e)
  ]

  verify_entries-cons :
      (running : ChainHash) (expect : ℕ) (e : SpoolEntry) (es : List SpoolEntry) (r : ChainHash × ℕ)
      → verify_entries sha256 codec running expect (e ∷ es) ≡ ok r
      → (e.seq ≡ expect)
        × (e.prev ≡ running)
        × (entry_hash sha256 codec e.seq e.prev (codec.to_bytes e.event) ≡ e.hash)
        × (verify_entries sha256 codec e.hash ((expect + 1) % u64_mod) es ≡ ok r)
  unfolding verify_entries
  verify_entries-cons running expect e es r h = ground (
    arith,
    list_beq_iff e.prev running,
    list_beq_iff (entry_hash sha256 codec e.seq e.prev (codec.to_bytes e.event)) e.hash,
  )

  entry_hash_same :
      (seq : ℕ) (p q : ChainHash) (m n : Bytes)
      → length p ≡ 32
      → length q ≡ 32
      → entry_hash sha256 codec seq p m ≡ entry_hash sha256 codec seq q n
      → ((p ≡ q) × (m ≡ n)) ⊎ Collision sha256
  unfolding entry_hash
  entry_hash_same seq p q m n hp hq e =
      elim (same_or_Collision (hash_input seq p m) (hash_input seq q n) e) [
        | inl same ↦ inl (hash_input-injective seq p q m n (hp ∙ sym hq) same)
        | inr bad ↦ inr bad
      ]

  length-entry_hash :
      (seq : ℕ) (p : ChainHash) (m : Bytes) → length (entry_hash sha256 codec seq p m) ≡ 32
  unfolding entry_hash
  length-entry_hash seq p m = digests (hash_input seq p m)

  -- One entry on each side, with what follows already settled.
  entries_same :
      (e f : SpoolEntry)
      → e.seq ≡ f.seq
      → length e.prev ≡ 32
      → length f.prev ≡ 32
      → entry_hash sha256 codec e.seq e.prev (codec.to_bytes e.event) ≡ e.hash
      → entry_hash sha256 codec f.seq f.prev (codec.to_bytes f.event) ≡ f.hash
      → e.hash ≡ f.hash
      → (e ≡ f) ⊎ Collision sha256
  entries_same e f seq he hf me mf hash =
      elim (entry_hash_same f.seq e.prev f.prev (codec.to_bytes e.event) (codec.to_bytes f.event) he
        hf (cc (me, mf))) [
          | inl (prev, bytes) ↦ inl (cc (encode-injective e.event f.event bytes))
          | inr bad ↦ inr bad
        ]

  verify_entries-nil :
      (p q : ChainHash) (expect : ℕ) (to : ChainHash) (m n : ℕ)
      → verify_entries sha256 codec p expect [] ≡ ok (to, m)
      → verify_entries sha256 codec q expect [] ≡ ok (to, n)
      → (p ≡ q) × (◌≡◌ {A = List SpoolEntry} [] [])
  unfolding verify_entries
  verify_entries-nil p q expect to m n h k = (cc, refl)

  chains_same :
      (p q : ChainHash) (expect : ℕ) (es fs : List SpoolEntry) (to : ChainHash) (m n : ℕ)
      → length p ≡ 32
      → length q ≡ 32
      → length es ≡ length fs
      → verify_entries sha256 codec p expect es ≡ ok (to, m)
      → verify_entries sha256 codec q expect fs ≡ ok (to, n)
      → ((p ≡ q) × (es ≡ fs)) ⊎ Collision sha256
  chains_same p q expect [] [] to m n hp hq l h k = inl (verify_entries-nil p q expect to m n h k)
  chains_same p q expect [] (f ∷ fs) to m n hp hq l h k = absurd (omega arith)
  chains_same p q expect (e ∷ es) [] to m n hp hq l h k = absurd (omega arith)
  chains_same p q expect (e ∷ es) (f ∷ fs) to m n hp hq l h k =
      let (e_seq, e_prev, e_hash, e_rest) = verify_entries-cons p expect e es (to, m) h in
      let (f_seq, f_prev, f_hash, f_rest) = verify_entries-cons q expect f fs (to, n) k in
      let le = ap length (sym e_hash) ∙ length-entry_hash e.seq e.prev (codec.to_bytes e.event) in
      let lf = ap length (sym f_hash) ∙ length-entry_hash f.seq f.prev (codec.to_bytes f.event) in
      elim (chains_same e.hash f.hash ((expect + 1) % u64_mod) es fs to m n le lf (omega arith)
        e_rest f_rest) [
          | inl (hash, rest) ↦
              elim (entries_same e f (e_seq ∙ sym f_seq) (ap length e_prev ∙ hp)
                (ap length f_prev ∙ hq) e_hash f_hash hash) [
                  | inl same ↦ inl (cc, cc)
                  | inr bad ↦ inr bad
                ]
          | inr bad ↦ inr bad
        ]

  verify_batch-entries :
      (ed : Ed25519) (prev : ChainHash) (next_seq : ℕ) (b : SignedSpoolBatch) (key : Bytes)
      (head : ChainHash)
      → verify_batch sha256 codec ed prev next_seq b key ≡ ok head
      → (n : ℕ) × (verify_entries sha256 codec prev next_seq b.entries ≡ ok (head, n))
  unfolding verify_batch
  verify_batch-entries ed prev next_seq b key head h =
      by_loop (verify_entries sha256 codec prev next_seq b.entries) refl
    where
      by_loop :
          (r : Result AuditError (ChainHash × ℕ))
          → verify_entries sha256 codec prev next_seq b.entries ≡ r
          → (n : ℕ) × (verify_entries sha256 codec prev next_seq b.entries ≡ ok (head, n))
      by_loop (ok (to, n)) e = (n, ground (arith, list_beq_iff to b.head))
      by_loop (err x) e = ground arith

  -- If the gateway accepts two batches of one length from one position with one head, they hold the
  -- same entries, or they show two inputs on which the hash collides. No assumption on the hash is
  -- made beyond the length of its digests.
  pub verify_batch-tamper_evident :
      (ed : Ed25519) (prev : ChainHash) (next_seq : ℕ) (b c : SignedSpoolBatch) (key : Bytes)
      (head : ChainHash)
      → length prev ≡ 32
      → length b.entries ≡ length c.entries
      → verify_batch sha256 codec ed prev next_seq b key ≡ ok head
      → verify_batch sha256 codec ed prev next_seq c key ≡ ok head
      → (b.entries ≡ c.entries) ⊎ Collision sha256
  verify_batch-tamper_evident ed prev next_seq b c key head hp l h k =
      let (m, hb) = verify_batch-entries ed prev next_seq b key head h in
      let (n, hc) = verify_batch-entries ed prev next_seq c key head k in
      elim (chains_same prev prev next_seq b.entries c.entries head m n hp hp l hb hc) [
        | inl (_, same) ↦ inl same
        | inr bad ↦ inr bad
      ]
