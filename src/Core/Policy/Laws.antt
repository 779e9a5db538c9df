-- ===== src/Core/Policy/Laws.antt =====
-- What a validated bundle guarantees, and how host names are compared.
use clave.Prelude.{
  ◌≡◌, ◌≢◌, refl, ◌↔◌, ◌⊎◌, true, false, List, [], ◌∷◌, ◌++◌, arith, Text, codes, Any, All, any,
  contains, list_eq, nat_eq, list_beq_iff, is_empty, to_lower, to_lower_idem, trim_end, ◌==◌, map,
  ap,
}
use clave.Core.Host.{normalize_host}
use clave.Core.App.{AppRule}
use clave.Core.Web.{WebAppRule}
use clave.Core.Policy.{
  PolicyBundle, NetworkPolicy, is_blocked, is_blank, app_issues, web_issues, url_issue,
  browser_issue, version_issue, validate,
}

-- The ids are not blank, differ from those seen, and differ from each other.
abbrev pub AreFresh : List Text → List Text → Type 0
AreFresh seen [] = Unit
AreFresh seen (x ∷ xs) = (is_blank x ≡ false) × (contains x seen ≡ false) × AreFresh (x ∷ seen) xs

app_issues-nil :
    (seen : List Text) (rules : List AppRule)
    → (app_issues seen rules ≡ []) ↔ AreFresh seen (map (λ (r : AppRule). r.app_id) rules)
unfolding app_issues
app_issues-nil seen [] = ground arith
app_issues-nil seen (r ∷ rules) = ground (arith, app_issues-nil (r.app_id ∷ seen) rules)

append-nil_iff : (xs ys : List Text) → (xs ++ ys ≡ []) ↔ ((xs ≡ []) × (ys ≡ []))
append-nil_iff [] ys = ground arith
append-nil_iff (x ∷ xs) ys = ground arith

web_issues-nil :
    (seen : List Text) (apps : List WebAppRule)
    → (web_issues seen apps ≡ []) ↔ (
        AreFresh seen (map (λ (w : WebAppRule). w.id) apps)
        × All (λ (w : WebAppRule). is_blank w.url ≡ false) apps)
unfolding web_issues
web_issues-nil seen [] = ground arith
web_issues-nil seen (w ∷ apps) = ground (
  arith,
  web_issues-nil (w.id ∷ seen) apps,
  append-nil_iff (url_issue w) (web_issues (w.id ∷ seen) apps),
)

-- Validation reports nothing exactly when every app id and web app id is set and none is repeated
-- among its kind, every web app has a URL, a browser is named if there are web apps, and the version
-- is not zero.
pub validate_iff :
    (b : PolicyBundle)
    → (validate b ≡ []) ↔ (
        AreFresh [] (map (λ (r : AppRule). r.app_id) b.apps.allow)
        × ((b.web.apps ≡ []) ⊎ (is_blank b.web.browser ≡ false))
        × AreFresh [] (map (λ (w : WebAppRule). w.id) b.web.apps)
        × All (λ (w : WebAppRule). is_blank w.url ≡ false) b.web.apps
        × (b.version ≢ 0))
unfolding validate
validate_iff b = ground (
  arith,
  append-nil_iff (app_issues [] b.apps.allow)
      (browser_issue b.web ++ (web_issues [] b.web.apps ++ version_issue b.version)),
  append-nil_iff (browser_issue b.web) (web_issues [] b.web.apps ++ version_issue b.version),
  append-nil_iff (web_issues [] b.web.apps) (version_issue b.version),
  app_issues-nil [] b.apps.allow,
  web_issues-nil [] b.web.apps,
)

is_empty-to_lower : (s : Text) → is_empty (to_lower s) ≡ is_empty s
unfolding to_lower
is_empty-to_lower [] = refl
is_empty-to_lower (c ∷ s) = refl

trim_end-to_lower : (s : Text) → trim_end b'.' (to_lower s) ≡ to_lower (trim_end b'.' s)
unfolding trim_end to_lower
trim_end-to_lower [] = refl
trim_end-to_lower (c ∷ s) = ground (arith, trim_end-to_lower s, is_empty-to_lower (trim_end b'.' s))

trim_end-dot : (s : Text) → trim_end b'.' (s ++ codes ".") ≡ trim_end b'.' s
unfolding trim_end
trim_end-dot [] = refl
trim_end-dot (c ∷ s) = ground (arith, trim_end-dot s)

normalize_host-to_lower : (host : Text) → normalize_host (to_lower host) ≡ normalize_host host
unfolding normalize_host
normalize_host-to_lower host = rw (trim_end-to_lower host) (to_lower_idem (trim_end b'.' host))

normalize_host-dot : (host : Text) → normalize_host (host ++ codes ".") ≡ normalize_host host
unfolding normalize_host
normalize_host-dot host = ap to_lower (trim_end-dot host)

any_normal :
    (hosts : List Text) (n : Text)
    → (any (λ h. normalize_host h == n) hosts ≡ true) ↔ Any (λ h. normalize_host h ≡ n) hosts
any_normal [] n = ground arith
any_normal (h ∷ hosts) n = ground (arith, any_normal hosts n, list_beq_iff (normalize_host h) n)

-- A host is blocked exactly when some entry of the deny list has its normal form; case and a
-- trailing dot, which name the same host, do not change the answer.
pub is_blocked_iff :
    (p : NetworkPolicy) (host : Text)
    → ((is_blocked p host ≡ true)
        ↔ Any (λ h. normalize_host h ≡ normalize_host host) p.blocked_hosts)
      × (is_blocked p (to_lower host) ≡ is_blocked p host)
      × (is_blocked p (host ++ codes ".") ≡ is_blocked p host)
unfolding is_blocked
is_blocked_iff p host = (
  any_normal p.blocked_hosts (normalize_host host),
  rw normalize_host-to_lower,
  rw normalize_host-dot,
)
