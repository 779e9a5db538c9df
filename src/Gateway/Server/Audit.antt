-- ===== src/Gateway/Server/Audit.antt =====
-- crates/clave-gateway/src/gateway.rs: the audit batches of the devices, the restart of the ledger,
-- and what an administrator sees of it. A batch comes in by the device that the fingerprint of its
-- certificate names.
pub mod Holds
pub mod Restart
use clave.Prelude.{
  ℕ, Bool, Option, none, some, List, [], ◌∷◌, ◌++◌, map, Bytes, Result, ok, err, find, filter, any,
  nat_eq, ◌==◌, length, if◌then◌else◌,
}
use clave.Core.Audit.{AuditEvent}
use clave.Identity.Authz.{view_audit}
use clave.Proto.External.{Ed25519, Postcard}
use clave.Proto.Audit.{SpoolEntry, SignedSpoolBatch, ChainHash, genesis}
use clave.Gateway.Action.{GatewayError, Action, pure, gets, ◌>>=◌, ◌>>◌}
use clave.Gateway.Store.{DeviceId, DeviceRecord}
use clave.Gateway.Store.Devices.{device_by_fingerprint, list_devices}
use clave.Gateway.Provider.{RequestContext}
use clave.Gateway.Admin.{require}
use clave.Gateway.Ledger.{
  AuditLedger, AuditAlert, AuditRecord, IngestError, MemAuditState, PersistedChain, restore_device,
  ingest, high_water, head_for, events_for, append, keep_alert, load_chains,
}
use clave.Gateway.Server.{Gateway, on_store}

abbrev pub device_for_fingerprint : Bytes → Action Gateway (Option DeviceId)
unfolding device_by_fingerprint
device_for_fingerprint fingerprint = on_store (device_by_fingerprint fingerprint)

abbrev or_else : {A : Type 0} → A → Option A → A
or_else a none = a
or_else a (some b) = b

-- `into_iter().rev().find(p)`
abbrev or_first : {A : Type 0} → (A → Bool) → A → Option A → Option A
or_first p a (some b) = some b
or_first p a none = if p a then some a else none

abbrev find_last : {A : Type 0} → (A → Bool) → List A → Option A
find_last p [] = none
find_last p (a ∷ rest) = or_first p a (find_last p rest)

abbrev keep_found : Option AuditAlert → MemAuditState → MemAuditState
keep_found none m = m
keep_found (some alert) m = keep_alert alert m

-- What is kept of a batch: its entries and where its chain stands now, or the last alert.
unfoldable pub persist :
    DeviceId
    → SignedSpoolBatch
    → Result IngestError (List AuditEvent)
    → AuditLedger
    → MemAuditState
    → MemAuditState
unfolding append
persist device batch (ok events) l m =
    append device batch.entries (or_else 1 (high_water device l))
      (or_else genesis (head_for device l)) m
persist device batch (err e) l m =
    keep_found (find_last (λ (a : AuditAlert). a.device == device) l.alerts) m

abbrev persist_in :
    DeviceId
    → SignedSpoolBatch
    → Result IngestError (List AuditEvent)
    → AuditLedger
    → Option MemAuditState
    → Option MemAuditState
unfolding persist
persist_in device batch r l none = none
persist_in device batch r l (some m) = some (persist device batch r l m)

-- `hydrate_audit`: the chains of the store are put into the ledger.
abbrev pub restore_all : List PersistedChain → AuditLedger → AuditLedger
restore_all [] l = l
restore_all (c ∷ rest) l =
    restore_all rest (restore_device c.device c.public_key c.next_seq c.head l)

abbrev hydrate_from : Option MemAuditState → Gateway → ℕ × Gateway
hydrate_from none g = (0, g)
hydrate_from (some m) g =
    (length (load_chains m), record g { audit = restore_all (load_chains m) g.audit })

unfoldable pub hydrate_audit : Gateway → ℕ × Gateway
hydrate_audit g = hydrate_from g.audit_store g

module _ (sha256 : Bytes → Bytes) (codec : Postcard AuditEvent) (ed : Ed25519) where
  unfoldable pub ingest_device_audit :
      DeviceId → SignedSpoolBatch → Gateway → Result IngestError (List AuditEvent) × Gateway
  unfolding ingest persist_in
  ingest_device_audit device batch g =
      let (result, audit) = ingest sha256 codec ed device batch g.audit in
      (
        result,
        record g {
          audit = audit;
          audit_store = persist_in device batch result audit g.audit_store;
        },
      )

abbrev records_of : AuditLedger → List DeviceRecord → List AuditRecord
unfolding events_for
records_of l [] = []
records_of l (d ∷ rest) =
    map (λ e. record { device = d.id; event = e }) (events_for d.id l) ++ records_of l rest

unfoldable pub audit_events : RequestContext → Action Gateway (List AuditRecord)
unfolding require list_devices records_of
audit_events ctx = do
  require ctx view_audit
  devices ← on_store (list_devices ctx.workspace)
  gets (λ g. records_of g.audit devices)

unfoldable pub audit_alerts : RequestContext → Action Gateway (List AuditAlert)
unfolding require list_devices
audit_alerts ctx = do
  require ctx view_audit
  devices ← on_store (list_devices ctx.workspace)
  gets (λ g. filter (λ a. any (λ (d : DeviceRecord). d.id == a.device) devices) g.audit.alerts)
