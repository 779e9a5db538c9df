-- ===== src/Core/Decide.antt =====
-- crates/clave-core/src/decide.rs: one verdict for each action.
pub mod Laws
use clave.Prelude.{
  ℕ, Bool, true, false, not, ◌&&◌, ◌||◌, Option, none, some, Text, ltb, if◌then◌else◌,
}
use clave.Platform.Types.{ProcId, Zone, work, personal, ClipFormat, Decision}
use clave.Core.Zone.{ZoneRegistry, is_supervised}
use clave.Core.Policy.{
  UnixTime, PolicyBundle, work_to_personal, personal_to_work, is_blocked, is_allowed_capturer,
  is_allowed_tapper,
}

pub data Access : Type 0 where
  read write : Access

pub data Action : Type 0 where
  clipboard_transfer : (src dst : Zone) (fmt : ClipFormat) → Action
  file_open : (proc : ProcId) (inside_enclave : Bool) (access : Access) → Action
  net_connect : (proc : ProcId) (host : Text) → Action
  screen_capture : (proc : Option ProcId) (exe : Text) → Action
  input_tap : (proc : Option ProcId) (exe : Text) → Action

pub data Reason : Type 0 where
  clipboard file_write file_access enclave_intrusion network screen_capture input_tap : Reason
  policy_expired not_supervised default : Reason

pub record Verdict : Type 0 where
  pub decision : Decision
  pub reason : Reason

-- `Verdict::of`, `Verdict::allow` and `Verdict::deny`
abbrev pub of : Decision → Reason → Verdict
of d r = record { decision = d; reason = r }

abbrev pub allow : Reason → Verdict
allow r = of Decision.allow r

abbrev pub deny : Reason → Verdict
deny r = of Decision.deny r

abbrev is_allow_decision : Decision → Bool
is_allow_decision Decision.allow = true
is_allow_decision _ = false

unfoldable pub is_allow : Verdict → Bool
is_allow v = is_allow_decision v.decision

unfoldable pub clip_decision : Zone → Zone → ClipFormat → PolicyBundle → Decision
clip_decision work work fmt pol = Decision.allow
clip_decision personal personal fmt pol = Decision.allow
clip_decision work personal fmt pol = work_to_personal pol.clipboard fmt
clip_decision personal work fmt pol = personal_to_work pol.clipboard fmt

abbrev is_write : Access → Bool
is_write write = true
is_write read = false

unfoldable pub decide_file_open : Bool → Bool → Access → Bool → Verdict
decide_file_open false true access save_outside = deny Reason.enclave_intrusion
decide_file_open true true access save_outside = allow Reason.file_access
decide_file_open true false access save_outside =
    if is_write access && not save_outside then deny Reason.file_write else allow Reason.file_access
decide_file_open false false access save_outside = allow Reason.not_supervised

-- `proc.is_some_and(|p| zones.is_supervised(&p))`
abbrev pub is_in_zone : Option ProcId → ZoneRegistry → Bool
is_in_zone none zones = false
is_in_zone (some p) zones = is_supervised p zones

-- The `match` of `decide`, once the policy is known not to have expired
unfoldable pub decide_live : Action → ZoneRegistry → PolicyBundle → Verdict
unfolding clip_decision decide_file_open
decide_live (Action.clipboard_transfer src dst fmt) zones pol =
    of (clip_decision src dst fmt pol) Reason.clipboard
decide_live (Action.file_open proc inside_enclave access) zones pol =
    decide_file_open (is_supervised proc zones) inside_enclave access
      pol.files.allow_save_outside_enclave
decide_live (Action.net_connect proc host) zones pol =
    if not (is_supervised proc zones)
    then allow Reason.not_supervised
    else if is_blocked pol.network host
    then deny Reason.network
    else allow Reason.network
decide_live (Action.screen_capture proc exe) zones pol =
    if is_in_zone proc zones || is_allowed_capturer pol.screen exe
    then allow Reason.screen_capture
    else of pol.screen.on_capture Reason.screen_capture
decide_live (Action.input_tap proc exe) zones pol =
    if is_in_zone proc zones || is_allowed_tapper pol.input exe
    then allow Reason.input_tap
    else of pol.input.on_tap Reason.input_tap

unfoldable pub decide : Action → ZoneRegistry → PolicyBundle → UnixTime → Verdict
unfolding decide_live
decide act zones pol now =
    if ltb pol.not_after now then deny Reason.policy_expired else decide_live act zones pol
