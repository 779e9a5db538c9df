-- ===== src/Daemon/Tests.antt =====
-- A daemon with a loopback tunnel, a volume of one sector, and the sample signatures and encodings.
mod Launcher
use clave.Prelude.{
  ℕ, ◌+◌, ◌-◌, ◌^◌, ◌≤◌, ◌<◌, ◌≡◌, ◌⊎◌, inl, refl, Bool, true, false, Option, none, some, List, [],
  ◌∷◌, Any, Result, err, is_ok, Bytes, codes, length,
}
use clave.Platform.Types.{windows}
use clave.Core.Zone.{launcher, is_supervised}
use clave.Core.Policy.{UnixTime, restrictive_default}
use clave.Core.Decide.{
  Action, Verdict, Reason, allow, is_allow, decide, decide_live, decide_file_open,
}
use clave.Core.Audit.{AuditAction, enclave_intrusion_blocked, volume_unmounted, new_event}
use clave.Proto.Command.{GatewayCommand, ControlReason, GatewaySigningKey, SignedCommand, sign}
use clave.Proto.Verify.{verify}
use clave.Proto.Audit.{ChainHash, SpoolEntry, new_spool, emit}
use clave.Proto.Samples.{toy_scheme, toy_hash, event_codec, envelope_codec}
use clave.Volume.Types.{Ciphers, volume_error, wipe_marker_set, access_denied}
use clave.Volume.Keys.{MemKeyStore, mem_key_store, destroy}
use clave.Volume.Container.{MemBacking, mem_backing, zeroed}
use clave.Volume.Disk.{new, is_unlocked}
use clave.Volume.Disk.Laws.{mem_backing-IsBackingStore}
use clave.Net.Loopback.{LoopbackTunnel, loopback}
use clave.Daemon.State.{Parts, Daemon}
use clave.Daemon.Control.{
  audit_coalesce_secs, audit_action_for, decide_action, unlock_volume, wipe, apply_gateway_command,
  volume_read, volume_write,
}
use clave.Daemon.Loop.{
  DaemonEvent, zone_join, decision, volume_unlock, gateway_control, shutdown, Synced, apply_all,
  sync_once, run,
}
use clave.Daemon.Laws.Progress.{IsLater, run-IsLater, replay_rejected}
use clave.Daemon.Laws.Outside.{run-outsider_denied}
use clave.Daemon.Laws.Wipe.{wipe_lasts}
use clave.Daemon.Laws.Sync.{IsKept, sync_once-IsKept}
use clave.Daemon.Laws.Reports.{IsReportOf, IsRecent, decide_action-IsRecent}

abbrev plain : Ciphers
plain = record {
  kw_wrap = λ kek dek. dek;
  kw_unwrap = λ kek wrapped. some wrapped;
  encrypt_area = λ k t size first area. area;
  decrypt_area = λ k t size first area. area;
}

abbrev parts : Parts LoopbackTunnel MemKeyStore MemBacking
parts = record {
  keys = mem_key_store plain;
  sectors = mem_backing;
  ciphers = plain;
  tunnel = loopback;
  sha256 = toy_hash;
  events = event_codec;
  ed25519 = toy_scheme;
  envelopes = envelope_codec;
}

abbrev daemon : Daemon LoopbackTunnel MemKeyStore MemBacking
daemon = record {
  zones = record { members = [] };
  policy = restrictive_default;
  audit = new_spool;
  router = clave.Net.Router.new (record { key = 90 });
  volume =
      new 5 1 ((5, record { kek = []; wrapped = [] }) ∷ []) (zeroed 1) (record { members = [] });
  gateway = record { tenant = 3; key = 7 ∷ []; high_water = 0; max_age_secs = 2592000 };
  last_audit = none;
  observed = none;
  calls = [];
}

abbrev signer : GatewaySigningKey
signer = record { seed = 7 ∷ []; tenant = 3 }

abbrev locking : SignedCommand
locking =
    unfold sign in
    sign toy_scheme envelope_codec signer 5 1000 (GatewayCommand.lock ControlReason.compromise)

-- A personal process that opens a file of the enclave.
abbrev intrusion : Action
intrusion = Action.file_open (windows 9 1) true clave.Core.Decide.read

abbrev day : List (DaemonEvent × UnixTime)
day =
    (zone_join (windows 4 1) launcher, 1000)
    ∷ (volume_unlock, 1001)
    ∷ (decision intrusion, 1002)
    ∷ (gateway_control locking, 1003)
    ∷ (shutdown, 1004)
    ∷ []

run-IsLater_example : IsLater daemon (run parts day daemon)
run-IsLater_example = run-IsLater parts day daemon

replay_rejected_example :
    is_ok
      (apply_gateway_command parts locking 2000
        (run parts day (apply_gateway_command parts locking 1010 daemon).0)).1
    ≡ false
unfolding verify sign clave.Prelude.list_beq
replay_rejected_example = replay_rejected parts locking 1010 2000 day daemon refl

wipe_lasts_example :
    (is_unlocked (run parts day (wipe parts 900 daemon).0).volume ≡ false)
    × ((unlock_volume parts 3000 (run parts day (wipe parts 900 daemon).0)).1
        ≡ err (volume_error wipe_marker_set))
unfolding wipe clave.Volume.Disk.wipe destroy
wipe_lasts_example = wipe_lasts parts mem_backing-IsBackingStore 900 3000 day daemon refl

abbrev morning : List (DaemonEvent × UnixTime)
morning =
    (zone_join (windows 4 1) launcher, 1000)
    ∷ (volume_unlock, 1000)
    ∷ (decision intrusion, 1001)
    ∷ []

run-outsider_denied_example :
    (volume_read parts (windows 9 1) 0 (5 ∷ []) (run parts morning daemon)
      ≡ (5 ∷ [], err (volume_error access_denied)))
    × ((volume_write parts (windows 9 1) 0 (5 ∷ []) (run parts morning daemon)).1
        ≡ err (volume_error access_denied))
    × ((volume_write parts (windows 9 1) 0 (5 ∷ []) (run parts morning daemon)).0.volume.backing
        ≡ (run parts morning daemon).volume.backing)
unfolding is_supervised clave.Prelude.lookup
run-outsider_denied_example =
    run-outsider_denied parts (windows 9 1) morning daemon 0 (5 ∷ []) refl
      (refl, (refl, (refl, tt)))

decide_action-IsRecent_example :
    let d = run parts morning daemon in
    let verdict = decide intrusion d.zones d.policy 1002 in
    let (d', answer) = decide_action parts intrusion 1002 d in
    (answer ≡ verdict)
    × ((a : AuditAction) × IsReportOf intrusion verdict.reason a
        × Any (IsRecent a 1002) d'.audit.pending)
unfolding decide decide_live decide_file_open is_allow is_supervised run clave.Prelude.lookup
    clave.Prelude.insert clave.Volume.Keys.unwrap_dek clave.Volume.Keys.unwrap
decide_action-IsRecent_example =
    decide_action-IsRecent parts morning intrusion 1002 daemon refl refl

-- One report, and a daemon that has it to ship.
abbrev first_entry : SpoolEntry
first_entry = record {
  seq = 1;
  prev = [];
  event = new_event 1000 volume_unmounted (allow Reason.default);
  hash = 9 ∷ [];
}

abbrev synced : Synced LoopbackTunnel MemKeyStore MemBacking
synced = record {
  daemon = record daemon {
    audit = record { seq = 1; head = 9 ∷ []; pending = first_entry ∷ []; forward = none };
  };
  link = record { inbound = []; pushed = []; online = true };
  device_key = 7 ∷ [];
  saved = none;
}

sync_once-IsKept_example : IsKept parts first_entry (sync_once parts 2000 synced).0
unfolding apply_all
sync_once-IsKept_example = sync_once-IsKept parts 2000 synced first_entry (inl refl)
