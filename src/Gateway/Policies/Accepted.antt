-- ===== src/Gateway/Policies/Accepted.antt =====
-- The policies that the issuer signs and the verifier of a device: what is signed last is accepted.
use clave.Prelude.{
  ℕ, ◌+◌, ◌<◌, ◌≤◌, ◌≡◌, refl, sym, ap, ◌∙◌, arith, Bool, true, false, List, [], ◌∷◌, length, All,
  Option, none, some, map, map_option, lookup, nat_eq, Result, ok,
}
use mathlib.Core.Path.{ap₂}
use clave.Core.Policy.{UnixTime, PolicyBundle}
use clave.Identity.Email.{WorkspaceId}
use clave.Proto.External.{Ed25519, Postcard, IsSignatureScheme}
use clave.Proto.Audit.{u64_mod}
use clave.Proto.Command.{
  ProtoError, Envelope, new_envelope, GatewayCommand, update_policy, SignedCommand, sign,
  signing_input, default_max_age_secs, max_future_skew_secs,
}
use clave.Proto.Verify.{GatewayVerifier, verify}
use clave.Proto.Verify.Laws.{Accepts, counter_of, verify_cases}
use clave.Gateway.Policies.{
  MemPolicyIssuer, current, last, or_empty, sign_current, sign_bundle, next_count,
}

both : {A B : Type 0} {x : A × B} {a : A} {b : B} → x.0 ≡ a → x.1 ≡ b → x ≡ (a, b)
both h k = cc

-- One round: a policy is asked for at the gateway's time, and the command, if there is one, reaches
-- the device at its own time, or never.
pub record Round : Type 0 where
  pub workspace : WorkspaceId
  pub issued_at : UnixTime
  pub arrives : Bool
  pub now : UnixTime

abbrev pub IsTimely : Round → Type 0
IsTimely r =
    (r.now ≤ r.issued_at + default_max_age_secs) × (r.issued_at ≤ r.now + max_future_skew_secs)

-- This policy survives its encoding, in every envelope.
abbrev pub IsEncoded : Postcard Envelope → PolicyBundle → Type 0
IsEncoded codec b =
    (tenant counter : ℕ) (issued_at : UnixTime)
    → let env = new_envelope tenant counter issued_at (update_policy b) in
      codec.from_bytes (codec.to_bytes env) ≡ some env

-- The current policy of each workspace does.
abbrev pub AreEncoded : Postcard Envelope → MemPolicyIssuer → Type 0
AreEncoded codec p = (w : WorkspaceId) (b : PolicyBundle) → current w p ≡ some b → IsEncoded codec b

-- The verifier of a device that trusts this issuer and has seen nothing newer than its count.
pub record Trusts (ed : Ed25519) (v : GatewayVerifier) (p : MemPolicyIssuer) : Type 0 where
  pub key : v.key ≡ ed.public_of p.signer.seed
  pub tenant : v.tenant ≡ p.signer.tenant
  pub max_age : v.max_age_secs ≡ default_max_age_secs
  pub behind : v.high_water ≤ p.counter

-- What a device should make of a round, by what the workspace's current policy is and whether the
-- command arrives: it accepts this policy, or hears nothing.
abbrev heard : Bool → Option PolicyBundle → Option (Result ProtoError GatewayCommand)
heard true o = map_option (λ b. ok (update_policy b)) o
heard false o = none

abbrev pub answer : MemPolicyIssuer → Round → Option (Result ProtoError GatewayCommand)
unfolding current
answer p r = heard r.arrives (current r.workspace p)

module _ (ed : Ed25519) (codec : Postcard Envelope) where
  abbrev deliver :
      Bool
      → Option SignedCommand
      → UnixTime
      → GatewayVerifier
      → Option (Result ProtoError GatewayCommand) × GatewayVerifier
  unfolding verify
  deliver true (some signed) now v = let (r, v') = verify ed codec v signed now in (some r, v')
  deliver _ _ now v = (none, v)

  -- What the device makes of each command that reaches it.
  unfoldable pub outcomes :
      List Round
      → MemPolicyIssuer
      → GatewayVerifier
      → List (Option (Result ProtoError GatewayCommand))
  unfolding sign_current deliver
  outcomes [] p v = []
  outcomes (r ∷ rs) p v =
      let (signed, p') = sign_current ed codec r.workspace r.issued_at p in
      let (result, v') = deliver r.arrives signed r.now v in result ∷ outcomes rs p' v'

  module _ (scheme : IsSignatureScheme ed) where
    pub verify-newest :
        (v : GatewayVerifier) (p : MemPolicyIssuer) (b : PolicyBundle) (r : Round)
        → IsEncoded codec b
        → p.counter + 1 < u64_mod
        → Trusts ed v p
        → IsTimely r
        → (verify ed codec v
            (sign ed codec p.signer (p.counter + 1) r.issued_at (update_policy b))
            r.now)
          ≡ (ok (update_policy b), record v { high_water = p.counter + 1 })
    unfolding sign
    verify-newest v p b r codes room t timely =
        let env = new_envelope p.signer.tenant (p.counter + 1) r.issued_at (update_policy b) in
        let signed = sign ed codec p.signer (p.counter + 1) r.issued_at (update_policy b) in
        let a : Accepts ed codec v signed r.now env = record {
          well_formed = scheme.sign_is_signature p.signer.seed (signing_input (codec.to_bytes env));
          authentic =
              rw t.key (scheme.sign_verifies p.signer.seed (signing_input (codec.to_bytes env)));
          decoded = codes p.signer.tenant (p.counter + 1) r.issued_at;
          version = refl;
          ours = sym t.tenant;
          recent = rw t.max_age timely.0;
          not_ahead = timely.1;
          fresh = omega (arith, t.behind);
        } in
        let accepted = (verify_cases ed codec v signed r.now).1 env a in
        let (env', a', same, moved) =
          (verify_cases ed codec v signed r.now).0 (update_policy b) accepted in
        let counted : env'.counter ≡ p.counter + 1 =
          ap (counter_of env)
            (sym a'.decoded ∙ codes p.signer.tenant (p.counter + 1) r.issued_at) in
        both accepted (moved ∙ ap (λ n. record v { high_water = n }) counted)

    deliver-heard :
        (v : GatewayVerifier) (p : MemPolicyIssuer) (r : Round) (o : Option PolicyBundle)
        → ((b : PolicyBundle) → o ≡ some b → IsEncoded codec b)
        → p.counter + 1 < u64_mod
        → Trusts ed v p
        → IsTimely r
        → let (signed, p') = sign_bundle ed codec r.issued_at o p in
          let (result, v') = deliver r.arrives signed r.now v in
          (result ≡ heard r.arrives o)
          × Trusts ed v' p'
          × (p'.counter ≤ p.counter + 1)
          × (p'.policies ≡ p.policies)
    unfolding deliver sign_bundle
    deliver-heard v p r o codes room t timely = go r.arrives o codes
      where
        go :
            (arrives : Bool) (o : Option PolicyBundle)
            → ((b : PolicyBundle) → o ≡ some b → IsEncoded codec b)
            → let (signed, p') = sign_bundle ed codec r.issued_at o p in
              let (result, v') = deliver arrives signed r.now v in
              (result ≡ heard arrives o)
              × Trusts ed v' p'
              × (p'.counter ≤ p.counter + 1)
              × (p'.policies ≡ p.policies)
        go true none codes = (refl, t, omega arith, refl)
        go false none codes = (refl, t, omega arith, refl)
        go false (some b) codes = (
          refl,
          record {
            key = t.key;
            tenant = t.tenant;
            max_age = t.max_age;
            behind = omega (arith, t.behind);
          },
          omega arith,
          refl,
        )
        go true (some b) codes =
            let n : next_count p.counter ≡ p.counter + 1 = omega arith in
            rw (n, verify-newest v p b r (codes b refl) room t timely)
              (
                refl,
                record {
                  key = t.key;
                  tenant = t.tenant;
                  max_age = t.max_age;
                  behind = omega arith;
                },
                omega arith,
                refl,
              )

    -- A device that trusts the issuer and has seen no newer count accepts, in every round whose
    -- command reaches it, the policy that is current for the round's workspace, if there is one,
    -- whichever of the commands before it never arrived; and in the other rounds it hears nothing. This
    -- holds as long as each command arrives within the allowed age and skew, the signatures keep their
    -- laws, the current policies survive their encoding, and the count stays below 2 ^ 64.
    pub outcomes_lem :
        (rs : List Round) (p : MemPolicyIssuer) (v : GatewayVerifier)
        → p.counter + length rs < u64_mod
        → AreEncoded codec p
        → Trusts ed v p
        → All IsTimely rs
        → outcomes rs p v ≡ map (answer p) rs
    unfolding outcomes sign_current current
    outcomes_lem [] p v room codes t timely = refl
    outcomes_lem (r ∷ rs) p v room codes t timely =
        let (here, trusts, grown, same) =
          deliver-heard v p r (current r.workspace p) (codes r.workspace) (omega arith) t
            timely.0 in
        let later =
          outcomes_lem rs _ _ (omega arith)
            (λ w b e. codes w b (ap (λ ps. last (or_empty (lookup w ps))) (sym same) ∙ e)) trusts
            timely.1 in
        ap₂ (λ x xs. x ∷ xs) here
          (later
            ∙ ap (λ ps. map (λ r. heard r.arrives (last (or_empty (lookup r.workspace ps)))) rs)
                same)
