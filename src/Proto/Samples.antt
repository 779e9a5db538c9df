-- ===== src/Proto/Samples.antt =====
-- Concrete instances of what the control plane takes from other crates, for the tests: each law that
-- a theorem assumes of them holds here.
use clave.Prelude.{
  ℕ, zero, suc, ◌≡◌, refl, true, Option, none, some, List, [], ◌∷◌, ◌++◌, arith, Bytes, take,
  length-take, length-append, replicate, list_eq, nat_eq, ◌==◌, list_beq_iff,
}
use clave.Platform.Types.{Zone, work, personal, Decision}
use clave.Core.Decide.{Reason}
use clave.Core.Audit.{AuditAction, AuditEvent}
use clave.Core.Policy.{PolicyBundle, restrictive_default}
use clave.Proto.External.{Ed25519, IsSignatureScheme, Postcard, IsCodec, HasDigests}
use clave.Proto.Command.{ControlReason, GatewayCommand, Envelope}

-- A signature is the key followed by the message.
abbrev pub toy_scheme : Ed25519
toy_scheme = record {
  is_public_key = λ k. true;
  is_signature = λ s. true;
  verifies = λ k m s. s == k ++ m;
  public_of = λ seed. seed;
  sign = λ seed m. seed ++ m;
}

pub toy_scheme_lem : IsSignatureScheme toy_scheme
toy_scheme_lem = record {
  public_is_key = λ seed. refl;
  sign_is_signature = λ seed m. refl;
  sign_verifies = λ seed m. (list_beq_iff (seed ++ m) (seed ++ m)).1 refl;
}

-- The first 32 bytes, padded with zeros.
abbrev pub toy_hash : Bytes → Bytes
toy_hash m = take 32 (m ++ replicate 32 0)

pub toy_hash-HasDigests : HasDigests toy_hash
toy_hash-HasDigests m =
    length-take 32 (m ++ replicate 32 0) (omega (arith, length-append m (replicate 32 0)))

abbrev nth : {A : Type 0} → List A → ℕ → Option A
nth [] i = none
nth (x ∷ xs) zero = some x
nth (x ∷ xs) (suc i) = nth xs i

abbrev zones : List Zone
zones = work ∷ personal ∷ []

abbrev zone_index : Zone → ℕ
zone_index work = 0
zone_index personal = 1

zone_lem : (z : Zone) → nth zones (zone_index z) ≡ some z
zone_lem work = refl
zone_lem personal = refl

abbrev actions : List AuditAction
actions =
    AuditAction.clipboard_blocked ∷ AuditAction.clipboard_sanitized ∷ AuditAction.file_save_denied
    ∷ AuditAction.enclave_intrusion_blocked ∷ AuditAction.network_blocked
    ∷ AuditAction.screen_capture_over_work ∷ AuditAction.input_tap_over_work
    ∷ AuditAction.process_joined_zone ∷ AuditAction.process_left_zone ∷ AuditAction.volume_mounted
    ∷ AuditAction.volume_unmounted ∷ AuditAction.wiped ∷ []

abbrev action_index : AuditAction → ℕ
action_index AuditAction.clipboard_blocked = 0
action_index AuditAction.clipboard_sanitized = 1
action_index AuditAction.file_save_denied = 2
action_index AuditAction.enclave_intrusion_blocked = 3
action_index AuditAction.network_blocked = 4
action_index AuditAction.screen_capture_over_work = 5
action_index AuditAction.input_tap_over_work = 6
action_index AuditAction.process_joined_zone = 7
action_index AuditAction.process_left_zone = 8
action_index AuditAction.volume_mounted = 9
action_index AuditAction.volume_unmounted = 10
action_index AuditAction.wiped = 11

action_lem : (a : AuditAction) → nth actions (action_index a) ≡ some a
action_lem AuditAction.clipboard_blocked = refl
action_lem _ = refl

abbrev decisions : List Decision
decisions =
    Decision.allow ∷ Decision.deny ∷ Decision.watermark ∷ Decision.prompt ∷ Decision.sanitize ∷ []

abbrev decision_index : Decision → ℕ
decision_index Decision.allow = 0
decision_index Decision.deny = 1
decision_index Decision.watermark = 2
decision_index Decision.prompt = 3
decision_index Decision.sanitize = 4

decision_lem : (d : Decision) → nth decisions (decision_index d) ≡ some d
decision_lem Decision.allow = refl
decision_lem _ = refl

abbrev reasons : List Reason
reasons =
    Reason.clipboard ∷ Reason.file_write ∷ Reason.file_access ∷ Reason.enclave_intrusion
    ∷ Reason.network ∷ Reason.screen_capture ∷ Reason.input_tap ∷ Reason.policy_expired
    ∷ Reason.not_supervised ∷ Reason.default ∷ []

abbrev reason_index : Reason → ℕ
reason_index Reason.clipboard = 0
reason_index Reason.file_write = 1
reason_index Reason.file_access = 2
reason_index Reason.enclave_intrusion = 3
reason_index Reason.network = 4
reason_index Reason.screen_capture = 5
reason_index Reason.input_tap = 6
reason_index Reason.policy_expired = 7
reason_index Reason.not_supervised = 8
reason_index Reason.default = 9

reason_lem : (r : Reason) → nth reasons (reason_index r) ≡ some r
reason_lem Reason.clipboard = refl
reason_lem _ = refl

abbrev app_bytes : Option Bytes → Bytes
app_bytes none = 0 ∷ []
app_bytes (some id) = 1 ∷ id

abbrev app_of : Bytes → Option Bytes
app_of [] = none
app_of (zero ∷ _) = none
app_of (suc _ ∷ id) = some id

app_lem : (o : Option Bytes) → app_of (app_bytes o) ≡ o
app_lem none = refl
app_lem (some id) = refl

abbrev event_of :
    ℕ
    → Option Zone
    → Option AuditAction
    → Option Decision
    → Option Reason
    → Option Bytes
    → Option AuditEvent
event_of ts (some z) (some a) (some d) (some r) app = some (record {
  ts = ts;
  zone = z;
  action = a;
  verdict = record { decision = d; reason = r };
  app_id = app;
})
event_of _ _ _ _ _ _ = none

abbrev decode_event : Bytes → Option AuditEvent
decode_event (ts ∷ z ∷ a ∷ d ∷ r ∷ app) =
    event_of ts (nth zones z) (nth actions a) (nth decisions d) (nth reasons r) (app_of app)
decode_event _ = none

abbrev encode_event : AuditEvent → Bytes
encode_event e =
    e.ts
    ∷ zone_index e.zone
    ∷ action_index e.action
    ∷ decision_index e.verdict.decision
    ∷ reason_index e.verdict.reason
    ∷ app_bytes e.app_id

abbrev pub event_codec : Postcard AuditEvent
event_codec = record { to_bytes = encode_event; from_bytes = decode_event }

pub event_codec-IsCodec : IsCodec event_codec
event_codec-IsCodec e = rw (
  zone_lem e.zone,
  action_lem e.action,
  decision_lem e.verdict.decision,
  reason_lem e.verdict.reason,
  app_lem e.app_id,
)

abbrev reason_code : ControlReason → ℕ
reason_code ControlReason.offboarding = 0
reason_code ControlReason.lost_or_stolen = 1
reason_code ControlReason.compromise = 2
reason_code ControlReason.admin_request = 3

abbrev codes_reason : List ControlReason
codes_reason =
    ControlReason.offboarding ∷ ControlReason.lost_or_stolen ∷ ControlReason.compromise
    ∷ ControlReason.admin_request ∷ []

abbrev command_bytes : GatewayCommand → Bytes
command_bytes (GatewayCommand.lock reason) = 0 ∷ 0 ∷ reason_code reason ∷ []
command_bytes (GatewayCommand.wipe container reason) = 1 ∷ container ∷ reason_code reason ∷ []
command_bytes (GatewayCommand.update_policy bundle) = []

abbrev command_of : ℕ → ℕ → Option ControlReason → Option GatewayCommand
command_of zero container (some r) = some (GatewayCommand.lock r)
command_of (suc _) container (some r) = some (GatewayCommand.wipe container r)
command_of _ _ none = none

abbrev envelope_of : ℕ → ℕ → ℕ → ℕ → Option GatewayCommand → Option Envelope
envelope_of p t c i none = none
envelope_of p t c i (some cmd) =
    some (record { proto = p; tenant = t; counter = c; issued_at = i; command = cmd })

abbrev decode_envelope : Bytes → Option Envelope
decode_envelope (p ∷ t ∷ c ∷ i ∷ k ∷ m ∷ r ∷ []) =
    envelope_of p t c i (command_of k m (nth codes_reason r))
decode_envelope _ = none

-- An encoding of the lock and wipe commands.
abbrev pub envelope_codec : Postcard Envelope
envelope_codec = record {
  to_bytes = λ e. e.proto ∷ e.tenant ∷ e.counter ∷ e.issued_at ∷ command_bytes e.command;
  from_bytes = decode_envelope;
}

-- A policy that differs from the restrictive default in its version alone.
abbrev pub plain_policy : ℕ → PolicyBundle
plain_policy version = record restrictive_default { version = version }

abbrev version_of : GatewayCommand → ℕ
version_of (GatewayCommand.update_policy b) = b.version
version_of _ = 0

abbrev decode_policy : Bytes → Option Envelope
decode_policy (p ∷ t ∷ c ∷ i ∷ n ∷ []) = some (record {
  proto = p;
  tenant = t;
  counter = c;
  issued_at = i;
  command = GatewayCommand.update_policy (plain_policy n);
})
decode_policy _ = none

-- An encoding of these policies.
abbrev pub policy_codec : Postcard Envelope
policy_codec = record {
  to_bytes = λ e. e.proto ∷ e.tenant ∷ e.counter ∷ e.issued_at ∷ version_of e.command ∷ [];
  from_bytes = decode_policy;
}
