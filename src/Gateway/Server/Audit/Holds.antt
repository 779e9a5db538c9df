-- ===== src/Gateway/Server/Audit/Holds.antt =====
-- The audit store holds the chains of the ledger.
use clave.Prelude.{
  ℕ, ◌+◌, ◌%◌, ◌≡◌, refl, sym, ap, ◌∙◌, ◌⊎◌, inl, inr, arith, Option, none, some, Option-cases,
  Bool-cases, Bool, [], ◌∷◌, length, All, Bytes, Map, lookup, insert, lookup-insert, HasUniqueKeys,
  insert-HasUniqueKeys, map_option, nat_eq, nat_beq_iff, ◌==◌, if◌then◌else◌, Result, ok, err, true,
  false,
}
use clave.Core.Audit.{AuditEvent}
use clave.Proto.External.{Ed25519, Postcard}
use clave.Proto.Audit.{SignedSpoolBatch, ChainHash, AuditError, genesis, u64_mod}
use clave.Gateway.Store.{DeviceId, values}
use clave.Gateway.Ledger.{
  AuditLedger, AuditAlert, DeviceChain, MemAuditState, PersistedChain, register_device,
  restore_device, register, append, ingest, ingest_on, admit, events_of,
}
use clave.Gateway.Server.{Gateway, enter_device}
use clave.Gateway.Server.Audit.{restore_all, persist, keep_found}

abbrev pub chain_of : PersistedChain → DeviceChain
chain_of c = record { public_key = c.public_key; next_seq = c.next_seq; head = c.head }

-- The store holds the chains of the ledger, each once and under its own device.
pub record Holds (m : Map DeviceId PersistedChain) (l : Map DeviceId DeviceChain) : Type 0 where
  pub same : (d : DeviceId) → lookup d l ≡ map_option chain_of (lookup d m)
  pub keyed : All (λ (e : DeviceId × PersistedChain). e.1.device ≡ e.0) m
  pub once : HasUniqueKeys m

insert-All :
    {V : Type 0} (P : ℕ × V → Type 0) (k : ℕ) (v : V) (m : Map ℕ V)
    → P (k, v)
    → All P m
    → All P (insert k v m)
unfolding insert
insert-All P k v [] h all = (h, tt)
insert-All P k v (entry ∷ rest) h all = elim (Bool-cases (entry.0 == k)) [
  | inl here ↦ rw here (h, all.1)
  | inr there ↦ rw there (all.0, insert-All P k v rest h all.1)
]

pub lookup-restore_all :
    (d : DeviceId) (m : Map DeviceId PersistedChain) (l : AuditLedger)
    → All (λ (e : DeviceId × PersistedChain). e.1.device ≡ e.0) m
    → HasUniqueKeys m
    → lookup d (restore_all (values m) l).chains
      ≡ elim (lookup d m) [ none ↦ lookup d l.chains | some c ↦ some (chain_of c) ]
unfolding lookup
lookup-restore_all d [] l keyed once = refl
lookup-restore_all d ((k, c) ∷ m) l keyed once =
    lookup-restore_all d m (restore_device c.device c.public_key c.next_seq c.head l) keyed.1 once.1
    ∙ head (Option-cases (lookup d m))
  where
    head :
        (lookup d m ≡ none) ⊎ ((x : PersistedChain) × (lookup d m ≡ some x))
        → (elim (lookup d m) [
          | none ↦ lookup d (restore_device c.device c.public_key c.next_seq c.head l).chains
          | some c ↦ some (chain_of c)
        ])
          ≡ elim (lookup d ((k, c) ∷ m)) [ none ↦ lookup d l.chains | some c ↦ some (chain_of c) ]
    head (inl absent) = ground (
      arith,
      absent,
      keyed.0,
      lookup-insert c.device d (chain_of c) l.chains,
      nat_beq_iff k d,
      nat_beq_iff c.device d,
    )
    head (inr (x, e)) = ground (arith, e, once.0, nat_beq_iff k d)

map_option-if :
    {A B : Type 0} (f : A → B) (b : Bool) (a : A) (o : Option A)
    → map_option f (if b then some a else o) ≡ (if b then some (f a) else map_option f o)
map_option-if f true a o = refl
map_option-if f false a o = refl

insert-Holds :
    (d : DeviceId) (c : PersistedChain) (m : Map DeviceId PersistedChain)
    (l : Map DeviceId DeviceChain)
    → c.device ≡ d
    → Holds m l
    → Holds (insert d c m) (insert d (chain_of c) l)
insert-Holds d c m l mine h = record {
  same = λ x.
      lookup-insert d x (chain_of c) l
      ∙ ap (λ o. if d == x then some (chain_of c) else o) (h.same x)
      ∙ sym (map_option-if chain_of (d == x) c (lookup x m))
      ∙ ap (map_option chain_of) (sym (lookup-insert d x c m));
  keyed = insert-All (λ (e : DeviceId × PersistedChain). e.1.device ≡ e.0) d c m mine h.keyed;
  once = insert-HasUniqueKeys d c m h.once;
}

keyed_at :
    (d : DeviceId) (m : Map DeviceId PersistedChain)
    → All (λ (e : DeviceId × PersistedChain). e.1.device ≡ e.0) m
    → (c : PersistedChain) → lookup d m ≡ some c
    → c.device ≡ d
unfolding lookup
keyed_at d [] keyed c e = ground arith
keyed_at d ((k, x) ∷ m) keyed c e = ground (arith, nat_beq_iff k d, keyed_at d m keyed.1 c)

-- A gateway with an audit store that holds its ledger's chains.
unfoldable pub IsPersistent : Gateway → Type 0
IsPersistent g = (m : MemAuditState) × (g.audit_store ≡ some m) × Holds m.chains g.audit.chains

pub enter_device-IsPersistent :
    (d : DeviceId) (pubkey : Bytes) (g : Gateway)
    → IsPersistent g
    → IsPersistent (enter_device d pubkey g)
unfolding IsPersistent enter_device register register_device
enter_device-IsPersistent d pubkey g (m, e, h) = (
  register d pubkey m,
  ap (map_option (register d pubkey)) e,
  insert-Holds d (record { device = d; public_key = pubkey; next_seq = 1; head = genesis }) m.chains
      g.audit.chains refl h,
)

module _ (sha256 : Bytes → Bytes) (codec : Postcard AuditEvent) (ed : Ed25519) where
  keep_found-chains :
      (o : Option AuditAlert) (m : MemAuditState) → (keep_found o m).chains ≡ m.chains
  keep_found-chains none m = refl
  keep_found-chains (some alert) m = refl

  pub ingest-Holds :
      (d : DeviceId) (batch : SignedSpoolBatch) (m : MemAuditState) (l : AuditLedger)
      → Holds m.chains l.chains
      → let (result, l') = ingest sha256 codec ed d batch l in
        Holds (persist d batch result l' m).chains l'.chains
  unfolding ingest ingest_on persist append
  ingest-Holds d batch m l h = by_chain (lookup d l.chains) refl
    where
      by_check :
          (chain : DeviceChain) (r : Result AuditError ChainHash)
          → lookup d l.chains ≡ some chain
          → let (result, l') = admit sha256 codec ed d batch chain r l in
            Holds (persist d batch result l' m).chains l'.chains
      by_check chain (err e) found = rw (keep_found-chains _ m) h
      by_check chain (ok head) found = elim (Option-cases (lookup d m.chains)) [
        | inl absent ↦ absurd (ground (arith, h.same d))
        | inr (c, e) ↦
            let n = (chain.next_seq + length (events_of batch.entries)) % u64_mod in
            let x : DeviceChain = record {
              public_key = chain.public_key;
              next_seq = n;
              head = head;
            } in
            let fetched : lookup d (insert d x l.chains) ≡ some x =
              ground (arith, lookup-insert d d x l.chains, nat_beq_iff d d) in
            let mine : c.device ≡ d = ground (arith, keyed_at d m.chains h.keyed c e) in
            let key : chain.public_key ≡ c.public_key = ground (arith, h.same d) in
            rw (fetched, e, key)
              (insert-Holds d (record c { next_seq = n; head = head }) m.chains l.chains mine h)
      ]

      by_chain :
          (o : Option DeviceChain)
          → lookup d l.chains ≡ o
          → let (result, l') = ingest_on sha256 codec ed d batch o l in
            Holds (persist d batch result l' m).chains l'.chains
      by_chain none found = rw (keep_found-chains _ m) h
      by_chain (some chain) found = by_check chain _ found
