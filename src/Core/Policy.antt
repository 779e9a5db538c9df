-- ===== src/Core/Policy.antt =====
-- crates/clave-core/src/policy.rs: the policy bundle that the gateway issues.
pub mod Laws
use clave.Prelude.{
  ℕ, ◌^◌, ◌-◌, Bool, true, false, not, ◌&&◌, Option, none, some, List, [], ◌∷◌, ◌++◌, Text, codes,
  list_eq, nat_eq, ◌==◌, is_empty, any, find, contains, trim, if◌then◌else◌,
}
use clave.Platform.Types.{ClipFormat, clip_format_eq, Decision, Rgba, clave_edge, Zone}
use clave.Core.Host.{normalize_host}
use clave.Core.App.{AppId, AppRule, AppPolicy, no_apps}
use clave.Core.Web.{WebAppRule, WebPolicy, no_web}
use clave.Core.Net.{DnsSteering, NetworkProvider, is_egress}

-- `UnixTime` is a `u64`.
abbrev pub UnixTime : Type 0
UnixTime = ℕ

-- `UnixTime::MAX`
abbrev pub unix_time_max : UnixTime
unix_time_max = 2 ^ 64 - 1

pub record InputPolicy : Type 0 where
  pub on_tap : Decision
  pub allowed_tappers : List Text

abbrev pub default_input : InputPolicy
default_input = record { on_tap = Decision.deny; allowed_tappers = [] }

unfoldable pub is_allowed_tapper : InputPolicy → Text → Bool
is_allowed_tapper p exe = any (λ a. a == exe) p.allowed_tappers

pub record ScreenPolicy : Type 0 where
  pub on_capture : Decision
  pub allowed_capturers : List Text

abbrev pub default_screen : ScreenPolicy
default_screen = record { on_capture = Decision.deny; allowed_capturers = [] }

unfoldable pub is_allowed_capturer : ScreenPolicy → Text → Bool
is_allowed_capturer p exe = any (λ a. a == exe) p.allowed_capturers

-- `thickness` is a `u32`.
pub record OverlayPolicy : Type 0 where
  pub color : Rgba
  pub thickness : ℕ

abbrev pub default_overlay : OverlayPolicy
default_overlay = record { color = clave_edge; thickness = 3 }

pub record ClipboardPolicy : Type 0 where
  pub work_to_personal_allow : List ClipFormat
  pub personal_to_work_sanitize : List ClipFormat

unfoldable pub work_to_personal : ClipboardPolicy → ClipFormat → Decision
work_to_personal p fmt =
    if contains fmt p.work_to_personal_allow then Decision.allow else Decision.deny

unfoldable pub personal_to_work : ClipboardPolicy → ClipFormat → Decision
personal_to_work p fmt =
    if contains fmt p.personal_to_work_sanitize then Decision.sanitize else Decision.allow

pub record NetworkPolicy : Type 0 where
  pub blocked_hosts : List Text
  pub static_egress_ip : Option Text
  pub providers : List NetworkProvider

unfoldable pub is_blocked : NetworkPolicy → Text → Bool
is_blocked p host =
    let host = normalize_host host in any (λ h. normalize_host h == host) p.blocked_hosts

unfoldable pub egress_provider : NetworkPolicy → Option NetworkProvider
egress_provider p = find is_egress p.providers

-- `providers.iter().find_map(|p| p.dns.as_ref())`
first_dns : List NetworkProvider → Option DnsSteering
first_dns [] = none
first_dns (p ∷ ps) = elim p.dns [ some d ↦ some d | none ↦ first_dns ps ]

unfoldable pub dns_steering : NetworkPolicy → Option DnsSteering
unfolding first_dns
dns_steering p = first_dns p.providers

pub record FilePolicy : Type 0 where
  pub allow_save_outside_enclave : Bool
  pub work_data_roots : List Text
  pub cow_roots : List Text

pub record PolicyBundle : Type 0 where
  pub version : ℕ
  pub not_after : UnixTime
  pub clipboard : ClipboardPolicy
  pub network : NetworkPolicy
  pub files : FilePolicy
  pub apps : AppPolicy
  pub overlay : OverlayPolicy
  pub screen : ScreenPolicy
  pub input : InputPolicy
  pub web : WebPolicy

-- `PolicyBundle::restrictive_default`
abbrev pub restrictive_default : PolicyBundle
restrictive_default = record {
  version = 0;
  not_after = unix_time_max;
  clipboard = record { work_to_personal_allow = []; personal_to_work_sanitize = [] };
  network = record { blocked_hosts = []; static_egress_ip = none; providers = [] };
  files = record { allow_save_outside_enclave = false; work_data_roots = []; cow_roots = [] };
  apps = no_apps;
  overlay = default_overlay;
  screen = default_screen;
  input = default_input;
  web = no_web;
}

-- `s.trim().is_empty()`
abbrev pub is_blank : Text → Bool
is_blank s = is_empty (trim s)

-- One round of the loop over the app rules: the ids seen so far, and the issues.
unfoldable pub app_issues : List Text → List AppRule → List Text
app_issues seen [] = []
app_issues seen (r ∷ rules) =
    let blank = codes "an app rule has an empty id" ∷ app_issues seen rules in
    let again = (codes "duplicate app id: " ++ r.app_id) ∷ app_issues seen rules in
    let new = app_issues (r.app_id ∷ seen) rules in
    if is_blank r.app_id then blank else if contains r.app_id seen then again else new

abbrev url_issue : WebAppRule → List Text
url_issue w =
    if is_blank w.url then (codes "web app '" ++ (w.id ++ codes "' has an empty url")) ∷ [] else []

-- The loop over the web apps
unfoldable pub web_issues : List Text → List WebAppRule → List Text
web_issues seen [] = []
web_issues seen (w ∷ apps) =
    let blank = url_issue w ++ (codes "a web app has an empty id" ∷ web_issues seen apps) in
    let again = url_issue w ++ ((codes "duplicate web app id: " ++ w.id) ∷ web_issues seen apps) in
    let new = url_issue w ++ web_issues (w.id ∷ seen) apps in
    if is_blank w.id then blank else if contains w.id seen then again else new

abbrev browser_issue : WebPolicy → List Text
browser_issue w =
    if not (is_empty w.apps) && is_blank w.browser
    then codes "web apps are defined but web.browser is empty — they cannot launch" ∷ []
    else []

abbrev version_issue : ℕ → List Text
version_issue v =
    if v == 0 then codes "policy version is 0 — bump it before issuing to devices" ∷ [] else []

-- `PolicyBundle::validate`
unfoldable pub validate : PolicyBundle → List Text
unfolding app_issues web_issues
validate b =
    app_issues [] b.apps.allow
    ++ (browser_issue b.web ++ (web_issues [] b.web.apps ++ version_issue b.version))
