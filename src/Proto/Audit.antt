-- ===== src/Proto/Audit.antt =====
-- crates/clave-proto/src/audit.rs: the hash-chained spool of audit events. The lock around its state
-- serialises its operations. Encoding an event into a vector does not fail, so `emit` does not panic
-- and the branch of `verify_batch` for a failed encoding is never taken; it is left out.
pub mod Chain
pub mod Emits
pub mod Evidence
use clave.Prelude.{
  ℕ, ◌+◌, ◌-◌, ◌%◌, ◌^◌, Bool, not, Option, none, some, List, [], ◌∷◌, ◌++◌, Bytes, codes,
  to_le_bytes, replicate, filter, ltb, nat_eq, list_eq, ◌==◌, Result, ok, err, ◌>>=◌, ◌>>◌, fail_if,
  length, map_option,
}
use clave.Core.Audit.{AuditEvent}
use clave.Proto.External.{Ed25519, Postcard}

-- `[u8; HASH_LEN]`
abbrev pub ChainHash : Type 0
ChainHash = Bytes

abbrev pub hash_len : ℕ
hash_len = 32

abbrev pub genesis : ChainHash
genesis = replicate hash_len 0

abbrev pub chain_domain : Bytes
chain_domain = codes "clave-audit-chain/v1\n"

abbrev pub sig_domain : Bytes
sig_domain = codes "clave-audit-sig/v1\n"

-- A `u64` wraps.
abbrev pub u64_mod : ℕ
u64_mod = 2 ^ 64

unfoldable pub hash_input : ℕ → ChainHash → Bytes → Bytes
hash_input seq prev event_bytes = chain_domain ++ (to_le_bytes 8 seq ++ (prev ++ event_bytes))

unfoldable pub sig_input : ChainHash → Bytes
sig_input head = sig_domain ++ head

pub record SpoolEntry : Type 0 where
  pub seq : ℕ
  pub prev : ChainHash
  pub event : AuditEvent
  pub hash : ChainHash

pub record SignedSpoolBatch : Type 0 where
  pub entries : List SpoolEntry
  pub head : ChainHash
  pub signature : Bytes

-- `forward` holds what the sink has been given, if there is one.
pub record AuditSpool : Type 0 where
  pub seq : ℕ
  pub head : ChainHash
  pub pending : List SpoolEntry
  pub forward : Option (List AuditEvent)

-- `AuditSpool::resume_with`; `resume` has nothing pending, and `new` starts from the genesis hash.
abbrev pub resume_with : ℕ → ChainHash → List SpoolEntry → AuditSpool
resume_with seq head pending = record { seq = seq; head = head; pending = pending; forward = none }

abbrev pub resume : ℕ → ChainHash → AuditSpool
resume seq head = resume_with seq head []

abbrev pub new_spool : AuditSpool
new_spool = resume 0 genesis

-- `AuditSpool::with_sink`
abbrev pub with_sink : AuditSpool
with_sink = record new_spool { forward = some [] }

unfoldable pub pending_len : AuditSpool → ℕ
pending_len s = length s.pending

unfoldable pub drain : AuditSpool → (List SpoolEntry × ChainHash) × AuditSpool
drain s = ((s.pending, s.head), record s { pending = [] })

unfoldable pub peek : AuditSpool → List SpoolEntry × ChainHash
peek s = (s.pending, s.head)

unfoldable pub confirm_through : ℕ → AuditSpool → AuditSpool
confirm_through through_seq s = record s { pending = filter (λ e. ltb through_seq e.seq) s.pending }

pub data AuditError : Type 0 where
  tampered : (seq : ℕ) → AuditError
  broken_chain : (seq : ℕ) → AuditError
  gap : (expected got : ℕ) → AuditError
  bad_signature : AuditError
  malformed : AuditError

module _ (sha256 : Bytes → Bytes) (codec : Postcard AuditEvent) where
  unfoldable pub entry_hash : ℕ → ChainHash → Bytes → ChainHash
  unfolding hash_input
  entry_hash seq prev event_bytes = sha256 (hash_input seq prev event_bytes)

  -- The entry that `emit` appends.
  unfoldable pub next_entry : AuditEvent → AuditSpool → SpoolEntry
  unfolding entry_hash
  next_entry event s =
      let seq = (s.seq + 1) % u64_mod in
      record {
        seq = seq;
        prev = s.head;
        event = event;
        hash = entry_hash seq s.head (codec.to_bytes event);
      }

  -- `AuditSink::emit`
  unfoldable pub emit : AuditEvent → AuditSpool → AuditSpool
  unfolding next_entry
  emit event s =
      let entry = next_entry event s in
      record {
        seq = entry.seq;
        head = entry.hash;
        pending = s.pending ++ (entry ∷ []);
        forward = map_option (λ seen. seen ++ (event ∷ [])) s.forward;
      }

  -- The loop of `verify_batch`: the running hash and the sequence number that is expected next.
  unfoldable pub verify_entries :
      ChainHash → ℕ → List SpoolEntry → Result AuditError (ChainHash × ℕ)
  unfolding entry_hash
  verify_entries running expect [] = ok (running, expect)
  verify_entries running expect (e ∷ es) = do
    fail_if (not (e.seq == expect)) (gap expect e.seq)
    fail_if (not (e.prev == running)) (broken_chain e.seq)
    fail_if (not (entry_hash e.seq e.prev (codec.to_bytes e.event) == e.hash)) (tampered e.seq)
    verify_entries e.hash ((expect + 1) % u64_mod) es

  module _ (ed : Ed25519) where
    -- `DeviceSigningKey::sign_batch`; the key pair is given by its seed.
    unfoldable pub sign_batch : Bytes → List SpoolEntry → ChainHash → SignedSpoolBatch
    unfolding sig_input
    sign_batch seed entries head = record {
      entries = entries;
      head = head;
      signature = ed.sign seed (sig_input head);
    }

    unfoldable pub verify_batch :
        ChainHash → ℕ → SignedSpoolBatch → Bytes → Result AuditError ChainHash
    unfolding verify_entries sig_input
    verify_batch prev next_seq batch device_public_key = do
      reached ← verify_entries prev next_seq batch.entries
      fail_if (not (reached.0 == batch.head)) (broken_chain (reached.1 - 1))
      fail_if (not (ed.is_public_key device_public_key)) malformed
      fail_if (not (ed.is_signature batch.signature)) malformed
      fail_if (not (ed.verifies device_public_key (sig_input batch.head) batch.signature))
          bad_signature
      ok batch.head
