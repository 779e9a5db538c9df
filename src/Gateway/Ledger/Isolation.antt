-- ===== src/Gateway/Ledger/Isolation.antt =====
-- The ledger keeps the devices apart.
use clave.Prelude.{
  ◌+◌, ◌≡◌, ◌≢◌, refl, sym, ◌∙◌, arith, Bytes, List, [], ◌∷◌, ◌++◌, map, filter, length, append_nil,
  nat_eq, nat_beq_iff, list_eq, ◌==◌, Option, none, some, lookup, lookup-insert, ◌%◌, Result, ok,
  err, if◌then◌else◌,
}
use clave.Core.Audit.{AuditEvent}
use clave.Proto.External.{Ed25519, Postcard}
use clave.Proto.Audit.{u64_mod, SignedSpoolBatch, ChainHash, AuditError}
use clave.Gateway.Store.{DeviceId}
use clave.Gateway.Ledger.{AuditLedger, DeviceChain, ingest, ingest_on, admit, events_of, events_for}

-- The events of one device among those of all.
abbrev pub seen : DeviceId → List (DeviceId × AuditEvent) → List AuditEvent
seen device [] = []
seen device (e ∷ es) = let rest = seen device es in if e.0 == device then e.1 ∷ rest else rest

abbrev pub tagged : DeviceId → List AuditEvent → List (DeviceId × AuditEvent)
tagged d es = map (λ e. (d, e)) es

pub events_for-seen :
    (device : DeviceId) (l : AuditLedger) → events_for device l ≡ seen device l.verified
unfolding events_for
events_for-seen device l = go l.verified
  where
    go :
        (es : List (DeviceId × AuditEvent))
        → map (λ (e : DeviceId × AuditEvent). e.1) (filter (λ e. e.0 == device) es) ≡ seen device es
    go [] = refl
    go (e ∷ es) = ground (arith, go es)

pub seen-append :
    (device : DeviceId) (es fs : List (DeviceId × AuditEvent))
    → seen device (es ++ fs) ≡ seen device es ++ seen device fs
seen-append device [] fs = refl
seen-append device (e ∷ es) fs = ground (arith, seen-append device es fs)

pub seen-own : (device : DeviceId) (es : List AuditEvent) → seen device (tagged device es) ≡ es
seen-own device [] = refl
seen-own device (e ∷ es) = ground (arith, seen-own device es, nat_beq_iff device device)

seen-other :
    (device d : DeviceId) (es : List AuditEvent) → d ≢ device → seen device (tagged d es) ≡ []
seen-other device d [] h = refl
seen-other device d (e ∷ es) h = ground (arith, seen-other device d es h, nat_beq_iff d device)

module _ (sha256 : Bytes → Bytes) (codec : Postcard AuditEvent) (ed : Ed25519) where
  -- A batch of another device changes neither the chain of this one nor its events.
  pub ingest-other :
      (device d : DeviceId) (batch : SignedSpoolBatch) (l : AuditLedger)
      → d ≢ device
      → let m = (ingest sha256 codec ed d batch l).1 in
        (lookup device m.chains ≡ lookup device l.chains)
        × (events_for device m ≡ events_for device l)
  unfolding ingest ingest_on
  ingest-other device d batch l h = by_chain (lookup d l.chains)
    where
      by_check :
          (chain : DeviceChain) (r : Result AuditError ChainHash)
          → let m = (admit sha256 codec ed d batch chain r l).1 in
            (lookup device m.chains ≡ lookup device l.chains)
            × (events_for device m ≡ events_for device l)
      by_check chain (err e) = (refl, events_for-seen device _ ∙ sym (events_for-seen device l))
      by_check chain (ok head) = (
        ground (
          arith,
          lookup-insert d device
              (record chain {
                next_seq = (chain.next_seq + length (events_of batch.entries)) % u64_mod;
                head = head;
              })
              l.chains,
          nat_beq_iff d device,
        ),
        events_for-seen device _
            ∙ (seen-append device l.verified (tagged d (events_of batch.entries))
                ∙ rw (seen-other device d (events_of batch.entries) h) (append_nil _))
            ∙ sym (events_for-seen device l),
      )

      by_chain :
          (o : Option DeviceChain)
          → let m = (ingest_on sha256 codec ed d batch o l).1 in
            (lookup device m.chains ≡ lookup device l.chains)
            × (events_for device m ≡ events_for device l)
      by_chain none = (refl, refl)
      by_chain (some chain) = by_check chain _
