-- ===== src/Gateway/Server/Audit/Restart.antt =====
-- A gateway that restarts from its audit store goes on where it stopped.
use clave.Prelude.{
  ◌≡◌, refl, sym, ap, ◌∙◌, Option, none, some, List, [], ◌∷◌, Bytes, lookup, lookup-nil, map_option,
  nat_eq, Result, ok, err,
}
use clave.Core.Audit.{AuditEvent}
use clave.Proto.External.{Ed25519, Postcard}
use clave.Proto.Audit.{SignedSpoolBatch, ChainHash, AuditError}
use clave.Gateway.Store.{DeviceId}
use clave.Gateway.Ledger.{
  AuditLedger, DeviceChain, PersistedChain, new_ledger, new_audit_store, ingest, ingest_on, admit,
}
use clave.Gateway.Server.{Gateway, enter_device}
use clave.Gateway.Server.Audit.{ingest_device_audit, hydrate_audit}
use clave.Gateway.Server.Audit.Holds.{
  chain_of, lookup-restore_all, IsPersistent, enter_device-IsPersistent, ingest-Holds,
}

-- What changes the ledger of a gateway: a device enrols, or a batch comes in for one.
pub data Op : Type 0 where
  enters : (device : DeviceId) (pubkey : Bytes) → Op
  hears : (device : DeviceId) (batch : SignedSpoolBatch) → Op

-- The gateway started again on the same store, with a new ledger.
unfoldable pub restart : Gateway → Gateway
unfolding hydrate_audit
restart g = (hydrate_audit (record g { audit = new_ledger })).1

lookup-restart :
    (g : Gateway) (d : DeviceId)
    → IsPersistent g
    → lookup d (restart g).audit.chains ≡ lookup d g.audit.chains
unfolding restart hydrate_audit IsPersistent
lookup-restart g d (m, e, h) = rw e (
    lookup-restore_all d m.chains new_ledger h.keyed h.once
    ∙ either (lookup d m.chains)
    ∙ sym (h.same d))
  where
    either :
        (o : Option PersistedChain)
        → (elim o [ none ↦ lookup d new_ledger.chains | some c ↦ some (chain_of c) ])
          ≡ map_option chain_of o
    either none = lookup-nil d
    either (some c) = refl

module _ (sha256 : Bytes → Bytes) (codec : Postcard AuditEvent) (ed : Ed25519) where
  unfoldable pub apply : Op → Gateway → Gateway
  unfolding ingest_device_audit enter_device
  apply (enters device pubkey) g = enter_device device pubkey g
  apply (hears device batch) g = (ingest_device_audit sha256 codec ed device batch g).1

  unfoldable pub run : List Op → Gateway → Gateway
  unfolding apply
  run [] g = g
  run (op ∷ ops) g = run ops (apply op g)

  apply-IsPersistent : (op : Op) (g : Gateway) → IsPersistent g → IsPersistent (apply op g)
  unfolding apply ingest_device_audit IsPersistent
  apply-IsPersistent (enters device pubkey) g h = enter_device-IsPersistent device pubkey g h
  apply-IsPersistent (hears device batch) g (m, e, h) =
      rw e (_, refl, ingest-Holds sha256 codec ed device batch m g.audit h)

  run-IsPersistent : (ops : List Op) (g : Gateway) → IsPersistent g → IsPersistent (run ops g)
  unfolding run
  run-IsPersistent [] g h = h
  run-IsPersistent (op ∷ ops) g h = run-IsPersistent ops (apply op g) (apply-IsPersistent op g h)

  verdict-ingest :
      (device : DeviceId) (batch : SignedSpoolBatch) (l l' : AuditLedger)
      → lookup device l.chains ≡ lookup device l'.chains
      → (ingest sha256 codec ed device batch l).0 ≡ (ingest sha256 codec ed device batch l').0
  unfolding ingest ingest_on
  verdict-ingest device batch l l' e = rw e (by_chain (lookup device l'.chains))
    where
      by_check :
          (chain : DeviceChain) (r : Result AuditError ChainHash)
          → (admit sha256 codec ed device batch chain r l).0
            ≡ (admit sha256 codec ed device batch chain r l').0
      by_check chain (err x) = refl
      by_check chain (ok head) = refl

      by_chain :
          (o : Option DeviceChain)
          → (ingest_on sha256 codec ed device batch o l).0
            ≡ (ingest_on sha256 codec ed device batch o l').0
      by_chain none = refl
      by_chain (some chain) = by_check chain _

  -- A gateway that began with a new ledger and an empty audit store, and has then enrolled devices and
  -- been given batches, good or bad, in any order: after a restart on the same store, with a new
  -- ledger, its ledger stands at the same key, count and hash for every device, so it gives every
  -- batch of every device the answer that it would have given.
  pub run-restart :
      (ops : List Op) (start : Gateway)
      → start.audit ≡ new_ledger
      → start.audit_store ≡ some new_audit_store
      → (device : DeviceId) (batch : SignedSpoolBatch)
      → let g = run ops start in
        (lookup device (restart g).audit.chains ≡ lookup device g.audit.chains)
        × ((ingest_device_audit sha256 codec ed device batch (restart g)).0
            ≡ (ingest_device_audit sha256 codec ed device batch g).0)
  unfolding ingest_device_audit IsPersistent
  run-restart ops start fresh empty device batch =
      let begun : IsPersistent start = (
        new_audit_store,
        empty,
        rw fresh (record {
          same = λ d. lookup-nil d ∙ sym (ap (map_option chain_of) (lookup-nil d));
          keyed = tt;
          once = tt;
        }),
      ) in
      let same = lookup-restart (run ops start) device (run-IsPersistent ops start begun) in
      (same, verdict-ingest device batch (restart (run ops start)).audit (run ops start).audit same)
