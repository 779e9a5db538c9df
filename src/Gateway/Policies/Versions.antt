-- ===== src/Gateway/Policies/Versions.antt =====
-- The versions of a workspace's policy.
use clave.Prelude.{
  ℕ, ◌+◌, ◌<◌, ◌≡◌, refl, sym, ap, ◌∙◌, inl, inr, Bool-cases, arith, List, [], ◌∷◌, ◌++◌, map,
  length, append_nil, some, lookup, lookup-insert, nat_eq, nat_beq_iff, ◌==◌, if◌then◌else◌,
}
use clave.Core.Policy.{PolicyBundle}
use clave.Identity.Email.{WorkspaceId}
use clave.Proto.Audit.{u64_mod}
use clave.Proto.Command.{GatewaySigningKey}
use clave.Gateway.Policies.{
  MemPolicyIssuer, new_issuer, author_policy, policy_versions, current, last, or_empty,
  version_after,
}

unfoldable pub author_all : List (WorkspaceId × PolicyBundle) → MemPolicyIssuer → MemPolicyIssuer
unfolding author_policy
author_all [] p = p
author_all (x ∷ rest) p = author_all rest (author_policy x.0 x.1 p).1

-- The bundles authored for one workspace.
abbrev pub authored_for : WorkspaceId → List (WorkspaceId × PolicyBundle) → List PolicyBundle
authored_for w [] = []
authored_for w (x ∷ rest) =
    let later = authored_for w rest in if x.0 == w then x.1 ∷ later else later

-- n, n + 1, ... : one for each bundle
abbrev pub numbered : ℕ → List PolicyBundle → List PolicyBundle
numbered n [] = []
numbered n (b ∷ bs) = record b { version = n } ∷ numbered (n + 1) bs

-- The history of a workspace goes on from `n` versions.
abbrev Counts : ℕ → List PolicyBundle → Type 0
Counts n h = version_after (last h) ≡ n + 1

last-append : {A : Type 0} (xs : List A) (a : A) → last (xs ++ (a ∷ [])) ≡ some a
last-append [] a = refl
last-append (x ∷ []) a = refl
last-append (x ∷ y ∷ xs) a = last-append (y ∷ xs) a

append-cons :
    {A : Type 0} (xs : List A) (a : A) (ys : List A) → (xs ++ (a ∷ [])) ++ ys ≡ xs ++ (a ∷ ys)
append-cons [] a ys = refl
append-cons (x ∷ xs) a ys = ap (λ l. x ∷ l) (append-cons xs a ys)

history-author_policy :
    (w x : WorkspaceId) (b : PolicyBundle) (p : MemPolicyIssuer) (n : ℕ)
    → version_after (last (or_empty (lookup x p.policies))) ≡ n
    → lookup w (author_policy x b p).1.policies ≡ (
        if x == w
        then some (or_empty (lookup x p.policies) ++ (record b { version = n } ∷ []))
        else lookup w p.policies)
unfolding author_policy
history-author_policy w x b p n e = rw (← e) (
    lookup-insert x w
      (or_empty (lookup x p.policies)
        ++ (record b { version = version_after (last (or_empty (lookup x p.policies))) } ∷ []))
      p.policies)

history-author_all :
    (w : WorkspaceId) (bs : List (WorkspaceId × PolicyBundle)) (p : MemPolicyIssuer) (n : ℕ)
    → n + length bs + 1 < u64_mod
    → Counts n (or_empty (lookup w p.policies))
    → or_empty (lookup w (author_all bs p).policies)
      ≡ or_empty (lookup w p.policies) ++ numbered (n + 1) (authored_for w bs)
unfolding author_all
history-author_all w [] p n room h = sym (append_nil _)
history-author_all w ((x, b) ∷ bs) p n room h = elim (Bool-cases (x == w)) [
  | inl here ↦
      let same = (nat_beq_iff x w).0 here in
      let old = or_empty (lookup w p.policies) in
      let versioned = record b { version = n + 1 } in
      let grown : or_empty (lookup w (author_policy x b p).1.policies) ≡ old ++ (versioned ∷ []) =
        rw (history-author_policy w x b p (n + 1) (rw same h), here) (rw same refl) in
      rw here (
        history-author_all w bs (author_policy x b p).1 (n + 1) (omega arith)
          (rw (grown, last-append old versioned) (ground arith))
        ∙ rw grown (append-cons old versioned (numbered (n + 1 + 1) (authored_for w bs))))
  | inr apart ↦
      let kept : or_empty (lookup w (author_policy x b p).1.policies)
          ≡ or_empty (lookup w p.policies) =
        rw (history-author_policy w x b p _ refl, apart) refl in
      rw apart
        (history-author_all w bs (author_policy x b p).1 n (omega arith) (rw kept h) ∙ rw kept refl)
]

-- Whatever is authored for whatever workspaces, on a new issuer (fewer than 2 ^ 64 - 1 bundles): the
-- history of a workspace is what was authored for it, in order, with the versions 1, 2, 3 and so on,
-- and the current policy is the last of them.
pub author_all-numbered :
    (signer : GatewaySigningKey) (counter : ℕ) (bs : List (WorkspaceId × PolicyBundle))
    (w : WorkspaceId)
    → length bs + 1 < u64_mod
    → let p = author_all bs (new_issuer signer counter) in
      (policy_versions w p ≡ map (λ b. b.version) (numbered 1 (authored_for w bs)))
      × (current w p ≡ last (numbered 1 (authored_for w bs)))
unfolding policy_versions current lookup
author_all-numbered signer counter bs w room =
    let all = history-author_all w bs (new_issuer signer counter) 0 (omega arith) refl in
    (ap (map (λ (b : PolicyBundle). b.version)) all, ap last all)
