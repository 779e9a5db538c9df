-- ===== src/Gateway/Ledger.antt =====
-- crates/clave-gateway/src/audit_ingest.rs: `AuditLedger`, which admits the audit batches of the
-- devices, and `MemAuditStore`, which keeps their chains over a restart. The lock on the chains is
-- held for the whole of `ingest`, so the operations are steps of one state.
pub mod Isolation
pub mod Delivery
use clave.Prelude.{
  ℕ, ◌+◌, ◌%◌, ◌==◌, Option, none, some, List, [], ◌∷◌, ◌++◌, map, Map, lookup, insert, Text, Bytes,
  codes, nat_eq, filter, length, map_option, Result, ok, err,
}
use clave.Core.Audit.{AuditEvent}
use clave.Proto.External.{Ed25519, Postcard}
use clave.Proto.Audit.{
  ChainHash, genesis, u64_mod, SpoolEntry, SignedSpoolBatch, AuditError, gap, tampered,
  bad_signature, verify_batch,
}
use clave.Gateway.Store.{DeviceId, update_at, values}

-- The text of the detail is a rendering of the error, which stands for it.
pub record AuditAlert : Type 0 where
  pub device : DeviceId
  pub kind : Text
  pub detail : AuditError

pub record AuditRecord : Type 0 where
  pub device : DeviceId
  pub event : AuditEvent

pub data IngestError : Type 0 where
  unknown_device : DeviceId → IngestError
  rejected : AuditError → IngestError

pub record DeviceChain : Type 0 where
  pub public_key : Bytes
  pub next_seq : ℕ
  pub head : ChainHash

pub record AuditLedger : Type 0 where
  pub chains : Map DeviceId DeviceChain
  pub verified : List (DeviceId × AuditEvent)
  pub alerts : List AuditAlert

abbrev pub new_ledger : AuditLedger
new_ledger = record { chains = []; verified = []; alerts = [] }

abbrev pub restore_device : DeviceId → Bytes → ℕ → ChainHash → AuditLedger → AuditLedger
restore_device device public_key next_seq head l = record l {
  chains =
      insert device (record { public_key = public_key; next_seq = next_seq; head = head }) l.chains;
}

unfoldable pub register_device : DeviceId → Bytes → AuditLedger → AuditLedger
register_device device public_key l = restore_device device public_key 1 genesis l

abbrev pub kind_of : AuditError → Text
kind_of (gap expected got) = codes "gap"
kind_of (tampered seq) = codes "tampered"
kind_of bad_signature = codes "bad_signature"
kind_of _ = codes "rejected"

abbrev pub record_alert : DeviceId → AuditError → AuditLedger → AuditLedger
record_alert device error l = record l {
  alerts = l.alerts ++ (record { device = device; kind = kind_of error; detail = error } ∷ []);
}

abbrev pub events_of : List SpoolEntry → List AuditEvent
events_of entries = map (λ e. e.event) entries

module _ (sha256 : Bytes → Bytes) (codec : Postcard AuditEvent) (ed : Ed25519) where
  -- After the check of the batch.
  abbrev pub admit :
      DeviceId
      → SignedSpoolBatch
      → DeviceChain
      → Result AuditError ChainHash
      → AuditLedger
      → Result IngestError (List AuditEvent) × AuditLedger
  admit device batch chain (err e) l = (err (rejected e), record_alert device e l)
  admit device batch chain (ok head) l =
      let events = events_of batch.entries in
      (
        ok events,
        record l {
          chains =
              insert device
                (record chain {
                  next_seq = (chain.next_seq + length events) % u64_mod;
                  head = head;
                })
                l.chains;
          verified = l.verified ++ map (λ e. (device, e)) events;
        },
      )

  unfoldable pub ingest_on :
      DeviceId
      → SignedSpoolBatch
      → Option DeviceChain
      → AuditLedger
      → Result IngestError (List AuditEvent) × AuditLedger
  unfolding verify_batch
  ingest_on device batch none l = (err (unknown_device device), l)
  ingest_on device batch (some chain) l =
      admit device batch chain
        (verify_batch sha256 codec ed chain.head chain.next_seq batch chain.public_key) l

  unfoldable pub ingest :
      DeviceId → SignedSpoolBatch → AuditLedger → Result IngestError (List AuditEvent) × AuditLedger
  unfolding ingest_on
  ingest device batch l = ingest_on device batch (lookup device l.chains) l

abbrev pub high_water : DeviceId → AuditLedger → Option ℕ
high_water device l = map_option (λ c. c.next_seq) (lookup device l.chains)

abbrev pub head_for : DeviceId → AuditLedger → Option ChainHash
head_for device l = map_option (λ c. c.head) (lookup device l.chains)

unfoldable pub events_for : DeviceId → AuditLedger → List AuditEvent
events_for device l = map (λ e. e.1) (filter (λ e. e.0 == device) l.verified)

-- `MemAuditStore`
pub record PersistedChain : Type 0 where
  pub device : DeviceId
  pub public_key : Bytes
  pub next_seq : ℕ
  pub head : ChainHash

pub record MemAuditState : Type 0 where
  pub chains : Map DeviceId PersistedChain
  pub events : List (DeviceId × ℕ × AuditEvent)
  pub alerts : List AuditAlert

abbrev pub new_audit_store : MemAuditState
new_audit_store = record { chains = []; events = []; alerts = [] }

abbrev pub event_count : MemAuditState → ℕ
event_count m = length m.events

abbrev pub alert_count : MemAuditState → ℕ
alert_count m = length m.alerts

unfoldable pub register : DeviceId → Bytes → MemAuditState → MemAuditState
register device public_key m = record m {
  chains =
      insert device
        (record { device = device; public_key = public_key; next_seq = 1; head = genesis })
        m.chains;
}

unfoldable pub append : DeviceId → List SpoolEntry → ℕ → ChainHash → MemAuditState → MemAuditState
append device entries next_seq head m = record m {
  chains = update_at device (λ c. record c { next_seq = next_seq; head = head }) m.chains;
  events = m.events ++ map (λ e. (device, e.seq, e.event)) entries;
}

-- `record_alert` of the store
abbrev pub keep_alert : AuditAlert → MemAuditState → MemAuditState
keep_alert alert m = record m { alerts = m.alerts ++ (alert ∷ []) }

abbrev pub load_chains : MemAuditState → List PersistedChain
load_chains m = values m.chains
