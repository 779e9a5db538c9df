-- ===== src/Core/Net/Laws.antt =====
-- Personal traffic never enters the tunnel, and a steered name is a work domain or below one.
use clave.Prelude.{
  ◌≡◌, ◌≢◌, ◌↔◌, ◌⊎◌, inl, inr, Bool, true, false, none, some, List, [], ◌∷◌, ◌++◌, arith, Text,
  codes, Any, is_empty, any, list_beq_iff, ends_with, append_of_ends_with, ends_with_append,
  Bool-cases, if◌then◌else◌, ◌||◌, ◌==◌, list_eq, nat_eq,
}
use clave.Platform.Types.{ProcId, Route}
use clave.Core.Zone.{ZoneRegistry, is_supervised}
use clave.Core.Host.{normalize_host}
use clave.Core.Net.{
  classify_flow, DnsSteering, steer, personal, suffix_matches, decide_dns, classify_dns_flow,
}

-- `name` is `domain` or a name below it; the empty domain has no names.
abbrev pub IsWithin : Text → Text → Type 0
IsWithin name domain =
    (domain ≢ []) × ((name ≡ domain) ⊎ ((p : Text) × (name ≡ p ++ (codes "." ++ domain))))

IsWithin-iff :
    (q d : Text)
    → ((if is_empty d then false else q == d || ends_with (codes "." ++ d) q) ≡ true) ↔ IsWithin q d
IsWithin-iff q [] = ground arith
IsWithin-iff q (c ∷ d) = (
  λ h. (
    ground arith,
    elim (Bool-cases (q == c ∷ d)) [
      | inl same ↦ inl ((list_beq_iff q (c ∷ d)).0 same)
      | inr other ↦ inr (append_of_ends_with (codes "." ++ c ∷ d) q (ground arith))
    ],
  ),
  λ h. elim (h.1) [
    | inl same ↦ ground (arith, list_beq_iff q (c ∷ d))
    | inr (p, e) ↦ ground (arith, ends_with_append (codes "." ++ c ∷ d) p)
  ],
)

-- A query name matches a domain of the policy exactly when it is that domain, or ends in a dot and
-- that domain; the domain is taken in lower case and without its trailing dots, and an empty one
-- matches nothing.
pub suffix_matches_iff :
    (qname domain : Text)
    → (suffix_matches qname domain ≡ true) ↔ IsWithin qname (normalize_host domain)
unfolding suffix_matches
suffix_matches_iff qname domain = IsWithin-iff qname (normalize_host domain)

any-IsWithin :
    (q : Text) (domains : List Text)
    → (any (λ domain. suffix_matches q domain) domains ≡ true)
      ↔ Any (λ domain. IsWithin q (normalize_host domain)) domains
any-IsWithin q [] = ground arith
any-IsWithin q (d ∷ ds) = ground (arith, suffix_matches_iff q d, any-IsWithin q ds)

-- A query of a supervised process is steered exactly when the policy steers all of them or one of
-- its domains covers the name; a query of any other process never is.
pub decide_dns_iff :
    (proc : ProcId) (qname : Text) (zones : ZoneRegistry) (steering : DnsSteering)
    → (decide_dns proc qname zones steering ≡ steer) ↔ (
        (is_supervised proc zones ≡ true)
        × ((steering.steer_all ≡ true)
            ⊎ Any
                (λ domain. IsWithin (normalize_host qname) (normalize_host domain))
                steering.match_domains))
unfolding decide_dns
decide_dns_iff proc qname zones steering =
    ground (arith, any-IsWithin (normalize_host qname) steering.match_domains)

-- A connection goes direct exactly when its process is not supervised. A DNS flow enters the tunnel
-- exactly when its query is steered, or, without steering, when its process is supervised; any other
-- goes direct, and none is blocked.
pub personal_goes_direct :
    (proc : ProcId) (zones : ZoneRegistry) (blocked : Bool) (qname : Text) (steering : DnsSteering)
    → ((classify_flow proc zones blocked ≡ Route.direct) ↔ (is_supervised proc zones ≡ false))
      × ((classify_dns_flow proc zones qname (some steering) ≡ Route.tunnel)
          ↔ (decide_dns proc qname zones steering ≡ steer))
      × ((classify_dns_flow proc zones qname (some steering) ≡ Route.direct)
          ↔ (decide_dns proc qname zones steering ≡ personal))
      × ((classify_dns_flow proc zones qname none ≡ Route.tunnel)
          ↔ (is_supervised proc zones ≡ true))
      × ((classify_dns_flow proc zones qname none ≡ Route.direct)
          ↔ (is_supervised proc zones ≡ false))
unfolding classify_flow classify_dns_flow decide_dns
personal_goes_direct proc zones blocked qname steering =
    (ground arith, ground arith, ground arith, ground arith, ground arith)
