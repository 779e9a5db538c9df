-- ===== src/Core/Decide/Laws.antt =====
-- When an action is allowed, stated without the code's branches.
use clave.Prelude.{◌≡◌, ◌↔◌, ◌⊎◌, ◌≤◌, true, false, arith, contains}
use clave.Platform.Types.{Zone, work, personal, ClipFormat, clip_format_eq, Decision}
use clave.Core.Zone.{ZoneRegistry, is_supervised}
use clave.Core.Policy.{
  UnixTime, PolicyBundle, work_to_personal, personal_to_work, is_blocked, is_allowed_capturer,
  is_allowed_tapper,
}
use clave.Core.Decide.{read, write, Action, is_allow, is_in_zone, decide_live, decide}

-- A clipboard transfer stays in its zone, or its format is one that the policy lets cross: out of
-- the work zone if listed, and into it unless it must be sanitised.
abbrev pub MayTransfer : Zone → Zone → ClipFormat → PolicyBundle → Type 0
MayTransfer work personal fmt pol = contains fmt pol.clipboard.work_to_personal_allow ≡ true
MayTransfer personal work fmt pol = contains fmt pol.clipboard.personal_to_work_sanitize ≡ false
MayTransfer _ _ fmt pol = Unit

-- What the policy permits, by the kind of the action.
abbrev pub Permits : ZoneRegistry → PolicyBundle → Action → Type 0
Permits zones pol (Action.clipboard_transfer src dst fmt) = MayTransfer src dst fmt pol
Permits zones pol (Action.file_open proc true access) = is_supervised proc zones ≡ true
Permits zones pol (Action.file_open proc false access) =
    (is_supervised proc zones ≡ false)
    ⊎ (access ≡ read)
    ⊎ (pol.files.allow_save_outside_enclave ≡ true)
Permits zones pol (Action.net_connect proc host) =
    (is_supervised proc zones ≡ false) ⊎ (is_blocked pol.network host ≡ false)
Permits zones pol (Action.screen_capture proc exe) =
    (is_in_zone proc zones ≡ true)
    ⊎ (is_allowed_capturer pol.screen exe ≡ true)
    ⊎ (pol.screen.on_capture ≡ Decision.allow)
Permits zones pol (Action.input_tap proc exe) =
    (is_in_zone proc zones ≡ true)
    ⊎ (is_allowed_tapper pol.input exe ≡ true)
    ⊎ (pol.input.on_tap ≡ Decision.allow)

decide_live_iff :
    (act : Action) (zones : ZoneRegistry) (pol : PolicyBundle)
    → (is_allow (decide_live act zones pol) ≡ true) ↔ Permits zones pol act
unfolding decide_live is_allow work_to_personal personal_to_work
decide_live_iff (Action.clipboard_transfer work work fmt) zones pol = ground arith
decide_live_iff (Action.clipboard_transfer work personal fmt) zones pol = ground arith
decide_live_iff (Action.clipboard_transfer personal work fmt) zones pol = ground arith
decide_live_iff (Action.clipboard_transfer personal personal fmt) zones pol = ground arith
decide_live_iff (Action.file_open proc true read) zones pol = ground arith
decide_live_iff (Action.file_open proc true write) zones pol = ground arith
decide_live_iff (Action.file_open proc false read) zones pol = ground arith
decide_live_iff (Action.file_open proc false write) zones pol = ground arith
decide_live_iff (Action.net_connect proc host) zones pol = ground arith
decide_live_iff (Action.screen_capture proc exe) zones pol = ground arith
decide_live_iff (Action.input_tap proc exe) zones pol = ground arith

-- An action is allowed exactly when the policy has not expired and permits it.
pub decide_iff :
    (act : Action) (zones : ZoneRegistry) (pol : PolicyBundle) (now : UnixTime)
    → (is_allow (decide act zones pol now) ≡ true) ↔ ((now ≤ pol.not_after) × Permits zones pol act)
unfolding decide is_allow
decide_iff act zones pol now = ground (arith, decide_live_iff act zones pol)
