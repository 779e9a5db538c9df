-- ===== src/Core/Audit.antt =====
-- crates/clave-core/src/audit.rs: the events that the daemon reports.
use clave.Prelude.{Option, none, some, PartialEq, of_discrete}
use clave.Platform.Types.{Zone, work}
use clave.Core.App.{AppId}
use clave.Core.Decide.{Verdict}
use clave.Core.Policy.{UnixTime}

pub data AuditAction : Type 0 where
  clipboard_blocked clipboard_sanitized file_save_denied : AuditAction
  enclave_intrusion_blocked network_blocked screen_capture_over_work : AuditAction
  input_tap_over_work process_joined_zone process_left_zone : AuditAction
  volume_mounted volume_unmounted wiped : AuditAction

unfoldable pub AuditAction-discrete : Discrete AuditAction
AuditAction-discrete = hlevel

instance abbrev pub audit_action_eq : PartialEq AuditAction
audit_action_eq = of_discrete AuditAction-discrete

pub record AuditEvent : Type 0 where
  pub ts : UnixTime
  pub zone : Zone
  pub action : AuditAction
  pub verdict : Verdict
  pub app_id : Option AppId

-- `AuditEvent::new`
abbrev pub new_event : UnixTime → AuditAction → Verdict → AuditEvent
new_event ts action verdict = record {
  ts = ts;
  zone = work;
  action = action;
  verdict = verdict;
  app_id = none;
}

abbrev pub with_app_id : AppId → AuditEvent → AuditEvent
with_app_id app_id e = record e { app_id = some app_id }
