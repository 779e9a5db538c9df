-- ===== src/Daemon/Laws/Reports.antt =====
-- What the daemon must report is in its audit, and the gateway accepts its audit from the start.
use clave.Prelude.{
  ℕ, ◌-◌, nat_eq, if◌then◌else◌, ◌≤◌, ◌<◌, ◌≡◌, ◌≢◌, inl, inr, refl, arith, ap, sym, ◌∙◌, Bool,
  true, false, not, Option, none, some, List, [], ◌∷◌, Text, if_both, length, Bool-cases, Any,
  Any-append, Any-last, Any-map,
}
use mathlib.Core.Path.{subst}
use clave.Platform.Types.{ProcId, Zone, ClipFormat}
use clave.Core.Zone.{JoinReason}
use clave.Core.Policy.{UnixTime}
use clave.Core.Decide.{Action, Verdict, Reason, Access, is_allow, decide}
use clave.Core.Audit.{
  AuditAction, AuditEvent, audit_action_eq, new_event, process_joined_zone, process_left_zone,
  volume_unmounted, clipboard_blocked, file_save_denied, enclave_intrusion_blocked, network_blocked,
  screen_capture_over_work, input_tap_over_work,
}
use clave.Proto.Audit.{SpoolEntry, AuditSpool, emit, next_entry}
use clave.Proto.Audit.Emits.{emit_all}
use clave.Daemon.State.{Parts, Daemon, report}
use clave.Daemon.Control.{
  is_repeat, audited, audit_action_for, is_intrusion, audit_coalesce_secs, decide_action,
}
use clave.Daemon.Loop.{DaemonEvent, zone_join, zone_leave, volume_lock, is_shutdown, handle, run}
use clave.Daemon.Laws.Record.{IsNext, handle-IsNext}

-- What a denied action is reported as, by its verdict's reason.
pub data IsReportOf : Action → Reason → AuditAction → Type 0 where
  clipboard :
      (src dst : Zone) (fmt : ClipFormat) (r : Reason)
      → IsReportOf (Action.clipboard_transfer src dst fmt) r clipboard_blocked
  intrusion :
      (proc : ProcId) (inside : Bool) (access : Access)
      → IsReportOf
          (Action.file_open proc inside access)
          Reason.enclave_intrusion
          enclave_intrusion_blocked
  save :
      (proc : ProcId) (inside : Bool) (access : Access) (r : Reason)
      → r ≢ Reason.enclave_intrusion
      → IsReportOf (Action.file_open proc inside access) r file_save_denied
  connection :
      (proc : ProcId) (host : Text) (r : Reason)
      → IsReportOf (Action.net_connect proc host) r network_blocked
  capture :
      (proc : Option ProcId) (exe : Text) (r : Reason)
      → IsReportOf (Action.screen_capture proc exe) r screen_capture_over_work
  tap :
      (proc : Option ProcId) (exe : Text) (r : Reason)
      → IsReportOf (Action.input_tap proc exe) r input_tap_over_work

-- What is reported of an event, whatever state the daemon is in.
pub data IsTold : DaemonEvent → AuditAction → Type 0 where
  joined : (id : ProcId) (reason : JoinReason) → IsTold (zone_join id reason) process_joined_zone
  left : (id : ProcId) → IsTold (zone_leave id) process_left_zone
  locked : IsTold volume_lock volume_unmounted

is_repeat_lem :
    (a : AuditAction) (now : UnixTime) (last : Option (AuditAction × UnixTime))
    → is_repeat a now last ≡ true
    → (ts : UnixTime) × (last ≡ some (a, ts)) × (now - ts < audit_coalesce_secs)
is_repeat_lem a now none h = ground arith
is_repeat_lem a now (some (prev, ts)) h =
    let same : prev ≡ a = ground (arith, audit_action_eq.eq_iff prev a) in
    (ts, ap (λ p. some (p, ts)) same, ground arith)

file_open-IsReportOf :
    (proc : ProcId) (inside : Bool) (access : Access) (r : Reason)
    → IsReportOf
        (Action.file_open proc inside access)
        r
        (if is_intrusion r then enclave_intrusion_blocked else file_save_denied)
file_open-IsReportOf proc inside access Reason.enclave_intrusion = intrusion proc inside access
file_open-IsReportOf proc inside access Reason.clipboard =
    save proc inside access Reason.clipboard (ground arith)
file_open-IsReportOf proc inside access Reason.file_write =
    save proc inside access Reason.file_write (ground arith)
file_open-IsReportOf proc inside access Reason.file_access =
    save proc inside access Reason.file_access (ground arith)
file_open-IsReportOf proc inside access Reason.network =
    save proc inside access Reason.network (ground arith)
file_open-IsReportOf proc inside access Reason.screen_capture =
    save proc inside access Reason.screen_capture (ground arith)
file_open-IsReportOf proc inside access Reason.input_tap =
    save proc inside access Reason.input_tap (ground arith)
file_open-IsReportOf proc inside access Reason.policy_expired =
    save proc inside access Reason.policy_expired (ground arith)
file_open-IsReportOf proc inside access Reason.not_supervised =
    save proc inside access Reason.not_supervised (ground arith)
file_open-IsReportOf proc inside access Reason.default =
    save proc inside access Reason.default (ground arith)

audit_action_for-IsReportOf :
    (action : Action) (v : Verdict)
    → (a : AuditAction) × (audit_action_for action v ≡ some a) × IsReportOf action v.reason a
unfolding audit_action_for
audit_action_for-IsReportOf (Action.clipboard_transfer src dst fmt) v =
    (_, refl, clipboard src dst fmt v.reason)
audit_action_for-IsReportOf (Action.file_open proc inside access) v =
    (_, refl, file_open-IsReportOf proc inside access v.reason)
audit_action_for-IsReportOf (Action.net_connect proc host) v =
    (_, refl, connection proc host v.reason)
audit_action_for-IsReportOf (Action.screen_capture proc exe) v =
    (_, refl, capture proc exe v.reason)
audit_action_for-IsReportOf (Action.input_tap proc exe) v = (_, refl, tap proc exe v.reason)

-- The entry is of this kind and time.
abbrev pub IsAt : AuditAction → UnixTime → SpoolEntry → Type 0
IsAt a ts e = (e.event.action ≡ a) × (e.event.ts ≡ ts)

-- The entry is of this kind, and no two seconds or more before this time.
abbrev pub IsRecent : AuditAction → UnixTime → SpoolEntry → Type 0
IsRecent a now e = (e.event.action ≡ a) × (now - e.event.ts < audit_coalesce_secs)

module _ {T K B : Type 0} (x : Parts T K B) where
  -- The report that the daemon remembers as its last is pending.
  abbrev HasLast : Daemon T K B → Type 0
  HasLast d =
      (a : AuditAction) (ts : UnixTime)
      → d.last_audit ≡ some (a, ts)
      → Any (IsAt a ts) d.audit.pending

  next-HasLast : (d d' : Daemon T K B) → IsNext x d d' → HasLast d → HasLast d'
  unfolding emit next_entry
  next-HasLast d d' (inl (same, kept)) h a ts e =
      subst (λ (s : AuditSpool). Any (IsAt a ts) s.pending) (sym same) (h a ts (sym kept ∙ e))
  next-HasLast d d' (inr (ev, one, inl kept)) h a ts e =
      subst (λ (s : AuditSpool). Any (IsAt a ts) s.pending) (sym one)
        (Any-append (IsAt a ts) d.audit.pending (next_entry x.sha256 x.events ev d.audit ∷ [])
          (h a ts (sym kept ∙ e)))
  next-HasLast d d' (inr (ev, one, inr new)) h a ts e =
      let same : some (ev.action, ev.ts) ≡ some (a, ts) = sym new ∙ e in
      subst (λ (s : AuditSpool). Any (IsAt a ts) s.pending) (sym one)
        (Any-last (IsAt a ts) d.audit.pending (next_entry x.sha256 x.events ev d.audit)
          (cc same, cc same))

  run-HasLast :
      (events : List (DaemonEvent × UnixTime)) (d : Daemon T K B)
      → HasLast d
      → HasLast (run x events d)
  unfolding run
  run-HasLast [] d h = h
  run-HasLast ((ev, now) ∷ rest) d h =
      if_both HasLast (is_shutdown ev) d (run x rest (handle x ev now d)) h (
        run-HasLast rest (handle x ev now d)
          (next-HasLast d (handle x ev now d) (handle-IsNext x ev now d) h))

  audited-IsRecent :
      (a : AuditAction) (v : Verdict) (now : UnixTime) (d : Daemon T K B)
      → HasLast d
      → Any (IsRecent a now) (audited x (some a) v now d).audit.pending
  unfolding report emit next_entry
  audited-IsRecent a v now d h = elim (Bool-cases (is_repeat a now d.last_audit)) [
    | inl again ↦
        let (ts, last, near) = is_repeat_lem a now d.last_audit again in
        rw again (Any-map (λ e (k, t). (k, rw t near)) d.audit.pending (h a ts last))
    | inr anew ↦ rw anew (
        Any-last (IsRecent a now) d.audit.pending
          (next_entry x.sha256 x.events (new_event now a v) d.audit) (refl, omega arith))
  ]

  decide_action-audited :
      (action : Action) (now : UnixTime) (d : Daemon T K B) (a : AuditAction)
      → is_allow (decide action d.zones d.policy now) ≡ false
      → audit_action_for action (decide action d.zones d.policy now) ≡ some a
      → let verdict = decide action d.zones d.policy now in
        decide_action x action now d ≡ (audited x (some a) verdict now d, verdict)
  unfolding decide_action
  decide_action-audited action now d a denied kind =
      let verdict = decide action d.zones d.policy now in
      ap
        (λ b.
          if not b
          then (audited x (audit_action_for action verdict) verdict now d, verdict)
          else (d, verdict))
        denied
      ∙ ap (λ o. (audited x o verdict now d, verdict)) kind

  -- Whatever events a daemon that starts with no report remembered has handled: an action that the
  -- decision engine denies gets this verdict, and afterwards the pending audit has a report of its
  -- kind whose time is less than two seconds before the denial, or not before it at all.
  pub decide_action-IsRecent :
      (events : List (DaemonEvent × UnixTime)) (action : Action) (now : UnixTime) (d : Daemon T K B)
      → d.last_audit ≡ none
      → is_allow (decide action (run x events d).zones (run x events d).policy now) ≡ false
      → let verdict = decide action (run x events d).zones (run x events d).policy now in
        let (d', answer) = decide_action x action now (run x events d) in
        (answer ≡ verdict)
        × ((a : AuditAction) × IsReportOf action verdict.reason a
            × Any (IsRecent a now) d'.audit.pending)
  decide_action-IsRecent events action now d fresh denied =
      let d' = run x events d in
      let verdict = decide action d'.zones d'.policy now in
      let (a, kind, is_report) = audit_action_for-IsReportOf action verdict in
      subst
        (λ (p : Daemon T K B × Verdict).
          (p.1 ≡ verdict)
          × ((a : AuditAction) × IsReportOf action verdict.reason a
              × Any (IsRecent a now) p.0.audit.pending))
        (sym (decide_action-audited action now d' a denied kind))
        (
          refl,
          (a, is_report, audited-IsRecent a verdict now d' (run-HasLast events d (λ a ts e. cc))),
        )

  -- A daemon's audit grows by at most so many events.
  abbrev Within : ℕ → AuditSpool → AuditSpool → Type 0
  Within n s s' = (es : List AuditEvent) × (length es ≤ n) × (s' ≡ emit_all x.sha256 x.events es s)
