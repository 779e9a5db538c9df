-- ===== src/Daemon/Laws/Sync.antt =====
-- No audit entry is lost when the daemon syncs with the gateway.
use clave.Prelude.{
  ℕ, ◌≡◌, ◌⊎◌, inl, inr, refl, arith, ap, sym, Bool, true, false, not, Option, none, some, List, [],
  ◌∷◌, ◌++◌, Any, Any-last, Any-append, Bytes, if◌then◌else◌, length,
}
use mathlib.Core.Path.{subst}
use clave.Core.Policy.{UnixTime}
use clave.Proto.Command.{SignedCommand}
use clave.Proto.Verify.{verify}
use clave.Proto.Audit.{AuditSpool, emit, SpoolEntry, ChainHash, SignedSpoolBatch, sign_batch, peek}
use clave.Daemon.State.{Parts, Daemon}
use clave.Daemon.Control.{peek_audit, apply_gateway_command}
use clave.Daemon.Laws.Record.{IsNext, verified-IsNext}
use clave.Daemon.Loop.{
  LoopbackLink, push_audit, SyncReport, Synced, last_seq, apply_all, shipped, ship, poll_commands,
  checkpoint, sync_once,
}

-- The entry is one of the list.
abbrev pub IsIn : SpoolEntry → List SpoolEntry → Type 0
IsIn e entries = Any (λ e'. e' ≡ e) entries

-- The entry is in a batch that was pushed.
abbrev pub WasPushed : SpoolEntry → LoopbackLink → Type 0
WasPushed e link = Any (λ (b : SignedSpoolBatch). IsIn e b.entries) link.pushed

push_audit_lem :
    (e : SpoolEntry) (batch : SignedSpoolBatch) (link : LoopbackLink)
    → IsIn e batch.entries
    → ((push_audit batch link).1 ≡ false) ⊎ WasPushed e (push_audit batch link).0
unfolding push_audit
push_audit_lem e batch link h = by_online link.online refl
  where
    by_online :
        (b : Bool)
        → link.online ≡ b
        → ((push_audit batch link).1 ≡ false) ⊎ WasPushed e (push_audit batch link).0
    by_online true up =
        let put : LoopbackLink = record link { pushed = link.pushed ++ (batch ∷ []) } in
        let sent : push_audit batch link ≡ (put, true) =
          ap (λ b. if not b then (link, false) else (put, true)) up in
        inr (
          subst (λ (p : LoopbackLink × Bool). WasPushed e p.0) (sym sent)
            (Any-last (λ (b : SignedSpoolBatch). IsIn e b.entries) link.pushed batch h))
    by_online false down = inl (ground arith)

module _ {T K B : Type 0} (x : Parts T K B) where
  -- The entry is still pending, or in a batch that was pushed.
  abbrev pub IsKept : SpoolEntry → Synced T K B → Type 0
  IsKept e s = IsIn e s.daemon.audit.pending ⊎ WasPushed e s.link

  shipped-IsKept :
      (e : SpoolEntry) (n through : ℕ) (s : Synced T K B) (report : SyncReport)
      (r : LoopbackLink × Bool)
      → IsIn e s.daemon.audit.pending
      → (r.1 ≡ false) ⊎ WasPushed e r.0
      → IsKept e (shipped x n through s report r).0
  shipped-IsKept e n through s report (link, false) h sent = inl h
  shipped-IsKept e n through s report (link, true) h (inl down) = ground arith
  shipped-IsKept e n through s report (link, true) h (inr sent) = inr sent

  sign_batch-IsIn :
      (e : SpoolEntry) (entries : List SpoolEntry) (head : ChainHash) (seed : Bytes)
      → IsIn e entries
      → IsIn e (sign_batch x.sha256 x.events x.ed25519 seed entries head).entries
  unfolding sign_batch
  sign_batch-IsIn e entries head seed h = h

  ship-IsKept :
      (e : SpoolEntry) (o : Option ℕ) (head : ChainHash) (s : Synced T K B) (report : SyncReport)
      → IsIn e s.daemon.audit.pending
      → IsKept e (ship x o s.daemon.audit.pending head s report).0
  ship-IsKept e none head s report h = inl h
  ship-IsKept e (some through) head s report h =
      let batch = sign_batch x.sha256 x.events x.ed25519 s.device_key s.daemon.audit.pending head in
      shipped-IsKept e (length s.daemon.audit.pending) through s report (push_audit batch s.link) h
        (push_audit_lem e batch s.link
          (sign_batch-IsIn e s.daemon.audit.pending head s.device_key h))

  next-IsIn :
      (e : SpoolEntry) (d d' : Daemon T K B)
      → IsNext x d d'
      → IsIn e d.audit.pending
      → IsIn e d'.audit.pending
  unfolding emit
  next-IsIn e d d' (inl (same, _)) h = subst (λ (s : AuditSpool). IsIn e s.pending) (sym same) h
  next-IsIn e d d' (inr (ev, one, _)) h =
      subst (λ (s : AuditSpool). IsIn e s.pending) (sym one)
        (Any-append (λ e'. e' ≡ e) d.audit.pending _ h)

  apply_all-IsIn :
      (e : SpoolEntry) (now : UnixTime) (commands : List SignedCommand) (d : Daemon T K B)
      (applied rejected : ℕ)
      → IsIn e d.audit.pending
      → IsIn e (apply_all x commands now d applied rejected).0.audit.pending
  unfolding apply_all apply_gateway_command
  apply_all-IsIn e now [] d applied rejected h = h
  apply_all-IsIn e now (signed ∷ rest) d applied rejected h =
      apply_all-IsIn e now rest (apply_gateway_command x signed now d).0 _ _ (
        next-IsIn e d (apply_gateway_command x signed now d).0
          (verified-IsNext x now d (verify x.ed25519 x.envelopes d.gateway signed now)) h)

  -- An audit entry that is pending before a sync is afterwards still pending, or in a batch that the
  -- link has taken, whatever commands of the gateway the sync applies first.
  pub sync_once-IsKept :
      (now : UnixTime) (s : Synced T K B) (e : SpoolEntry)
      → IsIn e s.daemon.audit.pending
      → IsKept e (sync_once x now s).0
  unfolding sync_once peek_audit peek poll_commands
  sync_once-IsKept now s e h =
      let done = apply_all x s.link.inbound now s.daemon 0 0 in
      ship-IsKept e (last_seq done.0.audit.pending) done.0.audit.head
        (record s {
          daemon = done.0;
          link = record s.link { inbound = [] };
          saved = some (checkpoint x done.0);
        })
        (record { applied = done.1; rejected = done.2; audit_shipped = 0; audit_retained = 0 })
        (apply_all-IsIn e now s.link.inbound s.daemon 0 0 h)
