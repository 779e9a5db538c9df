-- ===== src/Gateway/Ledger/Delivery.antt =====
-- A device and the ledger together: what the device records is what the ledger admits.
use clave.Prelude.{
  ℕ, ◌+◌, ◌%◌, ◌≤◌, ◌<◌, ◌≡◌, ◌≢◌, refl, sym, ap, ◌∙◌, arith, Bytes, List, [], ◌∷◌, ◌++◌, map,
  length, All, append_assoc, append_nil, nat_eq, nat_beq_iff, list_beq_iff, list_eq, some, lookup,
  lookup-insert, ok,
}
use clave.Core.Audit.{AuditEvent}
use clave.Proto.External.{Ed25519, Postcard, IsSignatureScheme}
use clave.Proto.Audit.{
  u64_mod, genesis, SpoolEntry, AuditSpool, new_spool, SignedSpoolBatch, ChainHash, emit,
  next_entry, drain, sign_batch, verify_batch, sig_input,
}
use clave.Proto.Audit.Chain.{Chains, Chains-append, verify_entries-Chains}
use clave.Gateway.Store.{DeviceId}
use clave.Gateway.Ledger.{
  AuditLedger, ingest, ingest_on, admit, events_of, events_for, register_device,
}
use clave.Gateway.Ledger.Isolation.{tagged, events_for-seen, seen-append, seen-own, ingest-other}

map-append : {A B : Type 0} (f : A → B) (xs ys : List A) → map f (xs ++ ys) ≡ map f xs ++ map f ys
map-append f [] ys = refl
map-append f (x ∷ xs) ys = ap (λ l. f x ∷ l) (map-append f xs ys)

-- What happens: the device records an event, or ships all that is pending, signed, to the ledger,
-- which takes it in; or the ledger is given a batch, of any kind, for another device.
pub data Step : Type 0 where
  records : AuditEvent → Step
  ships : Step
  hears : (d : DeviceId) (batch : SignedSpoolBatch) → Step

abbrev pub recorded : List Step → List AuditEvent
recorded [] = []
recorded (records event ∷ steps) = event ∷ recorded steps
recorded (_ ∷ steps) = recorded steps

abbrev pub IsElsewhere : DeviceId → Step → Type 0
IsElsewhere device (hears d batch) = d ≢ device
IsElsewhere device _ = Unit

module _ (sha256 : Bytes → Bytes) (codec : Postcard AuditEvent) (ed : Ed25519) (seed : Bytes)
    (device : DeviceId) where
  unfoldable pub step : Step → AuditSpool × AuditLedger → AuditSpool × AuditLedger
  step (records event) (s, l) = (emit sha256 codec event s, l)
  step ships (s, l) =
      let ((entries, head), s') = drain s in
      (s', (ingest sha256 codec ed device (sign_batch sha256 codec ed seed entries head) l).1)
  step (hears d batch) (s, l) = (s, (ingest sha256 codec ed d batch l).1)

  unfoldable pub run : List Step → AuditSpool × AuditLedger → AuditSpool × AuditLedger
  unfolding step
  run [] state = state
  run (x ∷ steps) state = run steps (step x state)

  -- The ledger stands where the pending entries begin, and has all that came before.
  record Agrees (state : AuditSpool × AuditLedger) (sent : List AuditEvent) : Type 0 where
    head : ChainHash
    seq : ℕ
    chain :
        lookup device state.1.chains
        ≡ some (record { public_key = ed.public_of seed; next_seq = seq + 1; head = head })
    leads : Chains sha256 codec head seq state.0.pending state.0.head state.0.seq
    complete : events_for device state.1 ++ events_of state.0.pending ≡ sent

  Chains-length :
      (from : ChainHash) (seq : ℕ) (es : List SpoolEntry) (to : ChainHash) (last : ℕ)
      → Chains sha256 codec from seq es to last
      → last ≡ seq + length (events_of es)
  Chains-length from seq [] to last h = ground arith
  Chains-length from seq (e ∷ es) to last (next, fits, linked, hashed, rest) =
      omega (arith, Chains-length e.hash e.seq es to last rest)

  records-Agrees :
      (event : AuditEvent) (state : AuditSpool × AuditLedger) (sent : List AuditEvent)
      → state.0.seq + 1 < u64_mod
      → Agrees state sent
      → Agrees (step (records event) state) (sent ++ (event ∷ []))
  unfolding step emit next_entry
  records-Agrees event (s, l) sent room a = record {
    head = a.head;
    seq = a.seq;
    chain = a.chain;
    leads =
        Chains-append sha256 codec a.head a.seq s.pending s.head s.seq
          (next_entry sha256 codec event s) a.leads
          (omega arith, omega arith, refl, refl, (refl, refl));
    complete =
        ap (λ es. events_for device l ++ es)
          (map-append (λ (e : SpoolEntry). e.event) s.pending
            (next_entry sha256 codec event s ∷ []))
        ∙ sym (append_assoc (events_for device l) (events_of s.pending) (event ∷ []))
        ∙ ap (λ es. es ++ (event ∷ [])) a.complete;
  }

  module _ (scheme : IsSignatureScheme ed) where
    verify_batch-Chains :
        (from : ChainHash) (seq : ℕ) (es : List SpoolEntry) (head : ChainHash) (last : ℕ)
        → last + 1 < u64_mod
        → Chains sha256 codec from seq es head last
        → verify_batch sha256 codec ed from
            (seq + 1)
            (sign_batch sha256 codec ed seed es head)
            (ed.public_of seed)
          ≡ ok head
    unfolding verify_batch sign_batch
    verify_batch-Chains from seq es head last room chain = ground (
      arith,
      verify_entries-Chains sha256 codec from seq es head last room chain,
      list_beq_iff head head,
      scheme.public_is_key seed,
      scheme.sign_is_signature seed (sig_input head),
      scheme.sign_verifies seed (sig_input head),
    )

    ingest-accepts :
        (s : AuditSpool) (l : AuditLedger) (sent : List AuditEvent)
        → s.seq + 1 < u64_mod
        → (a : Agrees (s, l) sent)
        → ingest sha256 codec ed device (sign_batch sha256 codec ed seed s.pending s.head) l
          ≡ admit sha256 codec ed device
              (sign_batch sha256 codec ed seed s.pending s.head)
              (record { public_key = ed.public_of seed; next_seq = a.seq + 1; head = a.head })
              (ok s.head)
              l
    unfolding ingest ingest_on
    ingest-accepts s l sent room a =
        rw a.chain (rw (verify_batch-Chains a.head a.seq s.pending s.head s.seq room a.leads) refl)

    ships-Agrees :
        (s : AuditSpool) (l : AuditLedger) (sent : List AuditEvent)
        → s.seq + 1 < u64_mod
        → Agrees (s, l) sent
        → Agrees (step ships (s, l)) sent
    unfolding step drain sign_batch
    ships-Agrees s l sent room a = rw (ingest-accepts s l sent room a) (record {
      head = s.head;
      seq = s.seq;
      chain = ground (
        arith,
        Chains-length a.head a.seq s.pending s.head s.seq a.leads,
        nat_beq_iff device device,
        lookup-insert device device
            (record {
              public_key = ed.public_of seed;
              next_seq = (a.seq + 1 + length (events_of s.pending)) % u64_mod;
              head = s.head;
            })
            l.chains,
      );
      leads = (refl, refl);
      complete =
          append_nil _
          ∙ events_for-seen device _
          ∙ seen-append device l.verified (tagged device (events_of s.pending))
          ∙ rw (seen-own device (events_of s.pending), ← events_for-seen device l) a.complete;
    })

    step-Agrees :
        (x : Step) (state : AuditSpool × AuditLedger) (sent : List AuditEvent)
        → state.0.seq + 1 < u64_mod
        → IsElsewhere device x
        → Agrees state sent
        → Agrees (step x state) (sent ++ recorded (x ∷ []))
    step-Agrees (records event) state sent room there a = records-Agrees event state sent room a
    step-Agrees ships (s, l) sent room there a = rw (append_nil sent) (ships-Agrees s l sent room a)
    step-Agrees (hears d batch) (s, l) sent room there a =
        let (same_chain, same_events) = ingest-other sha256 codec ed device d batch l there in
        unfold step in
        record {
          head = a.head;
          seq = a.seq;
          chain = same_chain ∙ a.chain;
          leads = a.leads;
          complete =
              ap (λ es. es ++ events_of s.pending) same_events ∙ a.complete ∙ sym (append_nil sent);
        }

    step-seq-le :
        (x : Step) (state : AuditSpool × AuditLedger) → (step x state).0.seq ≤ state.0.seq + 1
    unfolding step emit next_entry drain
    step-seq-le (records event) state = omega arith
    step-seq-le ships state = omega arith
    step-seq-le (hears d batch) state = omega arith

    recorded-cons :
        (x : Step) (steps : List Step) → recorded (x ∷ steps) ≡ recorded (x ∷ []) ++ recorded steps
    recorded-cons (records event) steps = refl
    recorded-cons ships steps = refl
    recorded-cons (hears d batch) steps = refl

    run-Agrees :
        (steps : List Step) (state : AuditSpool × AuditLedger) (sent : List AuditEvent)
        → state.0.seq + length steps + 1 < u64_mod
        → All (IsElsewhere device) steps
        → Agrees state sent
        → Agrees (run steps state) (sent ++ recorded steps)
          × ((run steps state).0.seq + 1 < u64_mod)
    unfolding run
    run-Agrees [] state sent room there a = (rw (append_nil sent) a, omega arith)
    run-Agrees (x ∷ steps) state sent room there a =
        rw (recorded-cons x steps, ← append_assoc sent (recorded (x ∷ [])) (recorded steps))
          (run-Agrees steps (step x state) (sent ++ recorded (x ∷ []))
            (omega (arith, step-seq-le x state)) there.1
            (step-Agrees x state sent (omega arith) there.0 a))

    -- A device that starts with an empty spool, and is registered with its public key on a ledger that
    -- has no event of it, loses nothing, whatever it records and ships, with whatever batches arrive
    -- for other devices in between (fewer than 2 ^ 64 - 1 steps, and signatures that verify): what the
    -- ledger has admitted followed by what is pending is what was recorded, in order, and once the
    -- device ships again the ledger has all of it.
    pub run-delivers :
        (steps : List Step) (l : AuditLedger)
        → length steps + 1 < u64_mod
        → All (IsElsewhere device) steps
        → events_for device l ≡ []
        → let (s, m) = run steps (new_spool, register_device device (ed.public_of seed) l) in
          (events_for device m ++ events_of s.pending ≡ recorded steps)
          × (events_for device (step ships (s, m)).1 ≡ recorded steps)
    unfolding register_device events_for
    run-delivers steps l room there none_yet =
        let start : Agrees (new_spool, register_device device (ed.public_of seed) l) [] = record {
          head = genesis;
          seq = 0;
          chain = ground (
            arith,
            nat_beq_iff device device,
            lookup-insert device device
                (record { public_key = ed.public_of seed; next_seq = 1; head = genesis }) l.chains,
          );
          leads = (refl, refl);
          complete = append_nil _ ∙ none_yet;
        } in
        let (a, small) =
          run-Agrees steps (new_spool, register_device device (ed.public_of seed) l) []
            (omega arith) there start in
        let (s, m) = run steps (new_spool, register_device device (ed.public_of seed) l) in
        let shipped = ships-Agrees s m (recorded steps) small a in
        (a.complete, sym (append_nil _) ∙ unfold step drain in shipped.complete)
