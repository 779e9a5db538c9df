-- ===== src/Core/Web.antt =====
-- crates/clave-core/src/web.rs: web apps that a contained browser opens as app windows.
use clave.Prelude.{
  Bool, not, Option, none, some, List, [], ◌∷◌, ◌++◌, Text, codes, list_eq, nat_eq, ◌==◌, is_empty,
  find, if◌then◌else◌,
}
use clave.Core.App.{AppId, LaunchProfile, LaunchSpec, chromium, default_profile, resolve}

pub record WebAppRule : Type 0 where
  pub id : AppId
  pub display_name : Text
  pub url : Text
  pub persona : Option Text

-- `WebAppRule::new`
abbrev pub new_web_rule : AppId → Text → WebAppRule
new_web_rule id url = record { id = id; display_name = []; url = url; persona = none }

-- `WebAppRule::label`
unfoldable pub web_label : WebAppRule → Text
web_label r = if is_empty r.display_name then r.id else r.display_name

abbrev persona_or : Option Text → Text → Text
persona_or none d = d
persona_or (some p) _ = p

-- The profile that `launch_spec` builds: one directory for a persona, or one for the app.
unfoldable pub web_profile : WebAppRule → LaunchProfile
web_profile r = record default_profile {
  profile_subdir = persona_or r.persona (codes "web-" ++ r.id);
  container = chromium;
  args = (codes "--app=" ++ r.url) ∷ [];
}

-- `WebAppRule::launch_spec`
unfoldable pub web_launch_spec : WebAppRule → Text → Text → Text → LaunchSpec
unfolding web_profile resolve
web_launch_spec r browser mount_point user =
    let resolved = resolve (web_profile r) r.id mount_point user in
    record {
      app_id = r.id;
      executable = browser;
      args = resolved.args;
      env = resolved.env;
      namespace_prefix = resolved.namespace_prefix;
      seed_home = resolved.seed_home;
    }

pub record WebPolicy : Type 0 where
  pub browser : Text
  pub apps : List WebAppRule

-- `WebPolicy::default()`
abbrev pub no_web : WebPolicy
no_web = record { browser = []; apps = [] }

-- `WebPolicy::is_launchable`
unfoldable pub web_is_launchable : WebPolicy → Bool
web_is_launchable w = not (is_empty w.browser)

-- `WebPolicy::rule`
unfoldable pub web_rule : WebPolicy → AppId → Option WebAppRule
web_rule w id = find (λ r. r.id == id) w.apps

pub record WebAppInfo : Type 0 where
  pub app_id : AppId
  pub label : Text
  pub url : Text
