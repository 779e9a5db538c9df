-- ===== src/Core/App.antt =====
-- crates/clave-core/src/app.rs: app rules, binary identities and launch profiles. `AppId` is a
-- newtype of a string, here a synonym.
pub mod Laws
use clave.Prelude.{
  ◌≡◌, Bool, true, false, not, ◌&&◌, if◌then◌else◌, Option, none, some, List, [], ◌∷◌, ◌++◌, Text,
  codes, list_eq, nat_eq, ◌==◌, is_empty, find, map_option,
}

abbrev pub AppId : Type 0
AppId = Text

pub data BinaryMatch : Type 0 where
  macos : (team_id signing_id : Text) → BinaryMatch
  windows : (publisher product : Text) → BinaryMatch

pub data ContainerKind : Type 0 where
  native chromium : ContainerKind

pub record LaunchableApp : Type 0 where
  pub app_id : AppId
  pub label : Text

pub record LaunchSpec : Type 0 where
  pub app_id : AppId
  pub executable : Text
  pub args : List Text
  pub env : List (Text × Text)
  pub namespace_prefix : Option Text
  pub seed_home : List Text

pub record LaunchProfile : Type 0 where
  pub profile_subdir : Text
  pub container : ContainerKind
  pub args : List Text
  pub env : List (Text × Text)
  pub namespace_prefix : Option Text
  pub hive_seed : Option Text
  pub passthrough_paths : List Text
  pub seed_home : List Text

-- `LaunchProfile::default()`
abbrev pub default_profile : LaunchProfile
default_profile = record {
  profile_subdir = [];
  container = native;
  args = [];
  env = [];
  namespace_prefix = none;
  hive_seed = none;
  passthrough_paths = [];
  seed_home = [];
}

-- `LaunchProfile::chromium()`
abbrev pub chromium_profile : LaunchProfile
chromium_profile = record default_profile { container = chromium }

abbrev pub with_seed_home : List Text → LaunchProfile → LaunchProfile
with_seed_home paths p = record p { seed_home = paths }

pub record ResolvedLaunch : Type 0 where
  pub home : Text
  pub profile_dir : Text
  pub args : List Text
  pub env : List (Text × Text)
  pub hive_path : Option Text
  pub namespace_prefix : Option Text
  pub seed_home : List Text

-- The arguments that a container kind adds.
abbrev pub container_args : ContainerKind → Text → List Text
container_args native profile_dir = []
container_args chromium profile_dir =
    (codes "--user-data-dir=" ++ profile_dir)
    ∷ codes "--no-first-run"
    ∷ codes "--no-default-browser-check"
    ∷ []

-- `LaunchProfile::resolve`
unfoldable pub resolve : LaunchProfile → AppId → Text → Text → ResolvedLaunch
resolve p app_id mount_point user =
    let sub = if is_empty p.profile_subdir then app_id else p.profile_subdir in
    let home = mount_point ++ (codes "/" ++ user) in
    let profile_dir = home ++ (codes "/profiles/" ++ sub) in
    record {
      home = home;
      profile_dir = profile_dir;
      args = container_args p.container profile_dir ++ p.args;
      env = (codes "HOME", home) ∷ (codes "TMPDIR", home ++ codes "/tmp") ∷ p.env;
      hive_path = map_option (λ h. home ++ (codes "/registry/" ++ h)) p.hive_seed;
      namespace_prefix = p.namespace_prefix;
      seed_home = p.seed_home;
    }

pub record AppRule : Type 0 where
  pub app_id : AppId
  pub binary : BinaryMatch
  pub launch : LaunchProfile
  pub display_name : Text
  pub executable : Text

-- `AppRule::new`
abbrev pub new_rule : AppId → BinaryMatch → AppRule
new_rule app_id binary = record {
  app_id = app_id;
  binary = binary;
  launch = default_profile;
  display_name = [];
  executable = [];
}

-- `AppRule::label`
unfoldable pub label : AppRule → Text
label r = if is_empty r.display_name then r.app_id else r.display_name

-- `AppRule::is_launchable`
unfoldable pub is_launchable : AppRule → Bool
is_launchable r = not (is_empty r.executable)

-- `AppRule::launch_spec`
unfoldable pub launch_spec : AppRule → Text → Text → LaunchSpec
unfolding resolve
launch_spec r mount_point user =
    let resolved = resolve r.launch r.app_id mount_point user in
    record {
      app_id = r.app_id;
      executable = r.executable;
      args = resolved.args;
      env = resolved.env;
      namespace_prefix = resolved.namespace_prefix;
      seed_home = resolved.seed_home;
    }

pub record AppPolicy : Type 0 where
  pub allow : List AppRule

-- `AppPolicy::empty`
abbrev pub no_apps : AppPolicy
no_apps = record { allow = [] }

unfoldable pub binary_matches : BinaryMatch → BinaryMatch → Bool → Bool
binary_matches (macos rule_team rule_sign) (macos pres_team pres_sign) is_platform_binary =
    if not (rule_sign == pres_sign)
    then false
    else if is_empty rule_team
    then is_platform_binary && is_empty pres_team
    else rule_team == pres_team
binary_matches (windows rule_pub rule_prod) (windows pres_pub pres_prod) is_platform_binary =
    rule_pub == pres_pub && rule_prod == pres_prod
binary_matches _ _ _ = false

-- `AppPolicy::match_app`
unfoldable pub match_app : AppPolicy → BinaryMatch → Bool → Option AppId
match_app apps presented is_platform_binary =
    map_option (λ (r : AppRule). r.app_id)
      (find (λ r. binary_matches r.binary presented is_platform_binary) apps.allow)

-- `AppPolicy::rule`
unfoldable pub app_rule : AppPolicy → AppId → Option AppRule
app_rule apps app_id = find (λ r. r.app_id == app_id) apps.allow

pub record ExecVerdict : Type 0 where
  pub allow : Bool
  pub joins_zone : Bool
  pub matched : Option AppId

abbrev exec_verdict : Option AppId → Bool → ExecVerdict
exec_verdict (some app) parent_supervised = record {
  allow = true;
  joins_zone = true;
  matched = some app;
}
exec_verdict none parent_supervised = record {
  allow = true;
  joins_zone = parent_supervised;
  matched = none;
}

unfoldable pub classify_exec : BinaryMatch → Bool → Bool → AppPolicy → ExecVerdict
classify_exec binary is_platform_binary parent_supervised apps =
    exec_verdict (match_app apps binary is_platform_binary) parent_supervised
