-- ===== src/Gateway/Policies.antt =====
-- crates/clave-gateway/src/policy.rs: `MemCounter` and `MemPolicyIssuer`, which keeps the versions of
-- each workspace's policy and signs the current one.
pub mod Versions
pub mod Accepted
use clave.Prelude.{
  ℕ, ◌+◌, ◌%◌, Option, none, some, List, [], ◌∷◌, ◌++◌, map, Map, lookup, insert, nat_eq, Result,
  ok,
}
use clave.Core.Policy.{UnixTime, PolicyBundle}
use clave.Identity.Email.{WorkspaceId}
use clave.Proto.External.{Ed25519, Postcard}
use clave.Proto.Command.{
  Envelope, GatewayCommand, update_policy, GatewaySigningKey, SignedCommand, sign,
}
use clave.Proto.Audit.{u64_mod}
use clave.Gateway.Action.{GatewayError}

-- `MemCounter::next`: the new count, which is also what is stored. An atomic addition wraps.
abbrev pub next_count : ℕ → ℕ
next_count current = (current + 1) % u64_mod

pub record MemPolicyIssuer : Type 0 where
  pub signer : GatewaySigningKey
  pub policies : Map WorkspaceId (List PolicyBundle)
  pub counter : ℕ

-- `MemPolicyIssuer::with_counter`, with a `MemCounter` that starts at `counter`; `new` starts at 0.
abbrev pub new_issuer : GatewaySigningKey → ℕ → MemPolicyIssuer
new_issuer signer counter = record { signer = signer; policies = []; counter = counter }

unfoldable pub set_policy : WorkspaceId → PolicyBundle → MemPolicyIssuer → MemPolicyIssuer
set_policy w bundle p = record p { policies = insert w (bundle ∷ []) p.policies }

-- `last` of a history
abbrev pub last : {A : Type 0} → List A → Option A
last [] = none
last (a ∷ []) = some a
last (a ∷ b ∷ rest) = last (b ∷ rest)

abbrev pub or_empty : {A : Type 0} → Option (List A) → List A
or_empty none = []
or_empty (some l) = l

-- `MemPolicyIssuer::current`
unfoldable pub current : WorkspaceId → MemPolicyIssuer → Option PolicyBundle
current w p = last (or_empty (lookup w p.policies))

abbrev pub version_after : Option PolicyBundle → ℕ
version_after none = 1
version_after (some b) = (b.version + 1) % u64_mod

-- `author_policy`: the bundle is given the version after the last one.
unfoldable pub author_policy :
    WorkspaceId → PolicyBundle → MemPolicyIssuer → PolicyBundle × MemPolicyIssuer
author_policy w bundle p =
    let history = or_empty (lookup w p.policies) in
    let versioned = record bundle { version = version_after (last history) } in
    (versioned, record p { policies = insert w (history ++ (versioned ∷ [])) p.policies })

unfoldable pub policy_versions : WorkspaceId → MemPolicyIssuer → List ℕ
policy_versions w p = map (λ b. b.version) (or_empty (lookup w p.policies))

module _ (ed : Ed25519) (codec : Postcard Envelope) where
  unfoldable pub sign_bundle :
      UnixTime → Option PolicyBundle → MemPolicyIssuer → Option SignedCommand × MemPolicyIssuer
  unfolding sign
  sign_bundle now none p = (none, p)
  sign_bundle now (some bundle) p =
      let counter = next_count p.counter in
      (
        some (sign ed codec p.signer counter now (update_policy bundle)),
        record p { counter = counter },
      )

  -- `sign_current`; `issue_initial_policy` and `reissue_policy` are calls of it.
  unfoldable pub sign_current :
      WorkspaceId → UnixTime → MemPolicyIssuer → Option SignedCommand × MemPolicyIssuer
  unfolding current sign_bundle
  sign_current w now p = sign_bundle now (current w p) p
