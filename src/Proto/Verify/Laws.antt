-- ===== src/Proto/Verify/Laws.antt =====
-- What an accepted command has shown, and that no command is accepted twice.
use clave.Prelude.{
  ◌⊎◌, ℕ, ◌+◌, ◌≤◌, ◌<◌, ◌≡◌, refl, sym, ap, ◌∙◌, ◌↔◌, inl, inr, true, false, Option, none, some,
  arith, Bytes, List, [], ◌∷◌, Option-cases, Result, ok, err, is_ok,
}
use mathlib.Core.Path.{ap₂}
use clave.Core.Policy.{UnixTime}
use clave.Proto.External.{Ed25519, Postcard, IsSignatureScheme}
use clave.Proto.Command.{
  TenantId, ProtoError, GatewayCommand, Envelope, new_envelope, SignedCommand, GatewaySigningKey,
  sign, signing_input, gateway_proto_version, default_max_age_secs, max_future_skew_secs,
}
use clave.Proto.Verify.{GatewayVerifier, new_verifier, check, accept, verify, verify_all}

abbrev pub counter_of : Envelope → Option Envelope → ℕ
counter_of d none = d.counter
counter_of d (some env) = env.counter

module _ (ed : Ed25519) (codec : Postcard Envelope) where
  -- What a command must show to be accepted.
  pub record Accepts (v : GatewayVerifier) (signed : SignedCommand) (now : UnixTime)
      (env : Envelope) : Type 0 where
    pub well_formed : ed.is_signature signed.signature ≡ true
    pub authentic : ed.verifies v.key (signing_input signed.envelope) signed.signature ≡ true
    pub decoded : codec.from_bytes signed.envelope ≡ some env
    pub version : env.proto ≡ gateway_proto_version
    pub ours : env.tenant ≡ v.tenant
    pub recent : now ≤ env.issued_at + v.max_age_secs
    pub not_ahead : env.issued_at ≤ now + max_future_skew_secs
    pub fresh : v.high_water < env.counter

  check_iff :
      (v : GatewayVerifier) (signed : SignedCommand) (now : UnixTime) (env : Envelope)
      → (check ed codec v signed now ≡ ok env) ↔ Accepts v signed now env
  unfolding check
  check_iff v signed now env = elim (Option-cases (codec.from_bytes signed.envelope)) [
    | inl bad ↦ (λ h. ground arith, λ a. ground (arith, a.decoded))
    | inr (env', e) ↦ (λ h. ground arith, λ a. ground arith)
  ]

  pub verify_cases :
      (v : GatewayVerifier) (signed : SignedCommand) (now : UnixTime)
      → ((cmd : GatewayCommand)
          → (verify ed codec v signed now).0 ≡ ok cmd
          → (env : Envelope) × Accepts v signed now env
            × (env.command ≡ cmd)
            × ((verify ed codec v signed now).1 ≡ record v { high_water = env.counter }))
        × ((env : Envelope)
            → Accepts v signed now env
            → (verify ed codec v signed now).0 ≡ ok env.command)
        × ((e : ProtoError)
            → (verify ed codec v signed now).0 ≡ err e
            → (verify ed codec v signed now).1 ≡ v)
  unfolding verify
  verify_cases v signed now = by_check (check ed codec v signed now) refl
    where
      by_check :
          (r : Result ProtoError Envelope)
          → check ed codec v signed now ≡ r
          → ((cmd : GatewayCommand)
              → (accept v r).0 ≡ ok cmd
              → (env : Envelope) × Accepts v signed now env
                × (env.command ≡ cmd)
                × ((accept v r).1 ≡ record v { high_water = env.counter }))
            × ((env : Envelope) → Accepts v signed now env → (accept v r).0 ≡ ok env.command)
            × ((e : ProtoError) → (accept v r).0 ≡ err e → (accept v r).1 ≡ v)
      by_check (ok env) e = (
        λ cmd h. (env, (check_iff v signed now env).0 e, ground arith, refl),
        λ env' a. ground (arith, (check_iff v signed now env').1 a),
        λ x h. cc,
      )
      by_check (err x) e =
          (λ cmd h. cc, λ env' a. cc (e, (check_iff v signed now env').1 a), λ y h. refl)

  -- A command is accepted exactly when some envelope of it passes every check and has this command. The
  -- mark then becomes the counter of such an envelope, and a refused command leaves the verifier as it
  -- was.
  pub verify_lem :
      (v : GatewayVerifier) (signed : SignedCommand) (now : UnixTime) (cmd : GatewayCommand)
      → (((verify ed codec v signed now).0 ≡ ok cmd)
          ↔ ((env : Envelope) × Accepts v signed now env × (env.command ≡ cmd)))
        × (((env : Envelope) × Accepts v signed now env
              × (verify ed codec v signed now
                  ≡ (ok env.command, record v { high_water = env.counter })))
            ⊎ ((x : ProtoError) × (verify ed codec v signed now ≡ (err x, v))))
  verify_lem v signed now cmd = (
    (
      λ h. let (env, a, same, moved) = (verify_cases v signed now).0 cmd h in (env, a, same),
      λ (env, a, same). (verify_cases v signed now).1 env a ∙ ap ok same,
    ),
    by_result (verify ed codec v signed now).0 refl,
  )
    where
      by_result :
          (r : Result ProtoError GatewayCommand)
          → (verify ed codec v signed now).0 ≡ r
          → ((env : Envelope) × Accepts v signed now env
              × (verify ed codec v signed now
                  ≡ (ok env.command, record v { high_water = env.counter })))
            ⊎ ((x : ProtoError) × (verify ed codec v signed now ≡ (err x, v)))
      by_result (ok command) e =
          let (env, a, same, moved) = (verify_cases v signed now).0 command e in
          inl (env, a, ap₂ (λ r w. (r, w)) (e ∙ ap ok (sym same)) moved)
      by_result (err x) e = inr (x, ap₂ (λ r w. (r, w)) e ((verify_cases v signed now).2 x e))

  pub verify-grows :
      (v : GatewayVerifier) (signed : SignedCommand) (now : UnixTime)
      → v.high_water ≤ (verify ed codec v signed now).1.high_water
  verify-grows v signed now = by_result (verify ed codec v signed now).0 refl
    where
      by_result :
          (r : Result ProtoError GatewayCommand)
          → (verify ed codec v signed now).0 ≡ r
          → v.high_water ≤ (verify ed codec v signed now).1.high_water
      by_result (ok cmd) e =
          let (env, a, same, moved) = (verify_cases v signed now).0 cmd e in
          rw moved (omega (arith, a.fresh))
      by_result (err x) e = rw ((verify_cases v signed now).2 x e) (omega arith)

  verify_all-grows :
      (v : GatewayVerifier) (inputs : List (SignedCommand × UnixTime))
      → v.high_water ≤ (verify_all ed codec v inputs).high_water
  unfolding verify_all
  verify_all-grows v [] = omega arith
  verify_all-grows v ((signed, now) ∷ rest) =
      omega
        (arith, verify-grows v signed now, verify_all-grows (verify ed codec v signed now).1 rest)

  -- A verifier whose mark is at least what it became by accepting a command refuses that command.
  pub replayed_lem :
      (v v' : GatewayVerifier) (signed : SignedCommand) (now later : UnixTime)
      → is_ok (verify ed codec v signed now).0 ≡ true
      → (verify ed codec v signed now).1.high_water ≤ v'.high_water
      → is_ok (verify ed codec v' signed later).0 ≡ false
  replayed_lem v v' signed now later h grown =
      by_results (verify ed codec v signed now).0 refl (verify ed codec v' signed later).0 refl
    where
      by_results :
          (r : Result ProtoError GatewayCommand)
          → (verify ed codec v signed now).0 ≡ r
          → (s : Result ProtoError GatewayCommand) → (verify ed codec v' signed later).0 ≡ s
          → is_ok (verify ed codec v' signed later).0 ≡ false
      by_results (err x) e s f = cc (h, e)
      by_results (ok cmd) e (err y) f = ground arith
      by_results (ok cmd) e (ok cmd') f =
          let (env, a, same, moved) = (verify_cases v signed now).0 cmd e in
          let (env', a', same', moved') = (verify_cases v' signed later).0 cmd' f in
          absurd (
            omega (
              arith,
              a'.fresh,
              grown,
              ap (λ (w : GatewayVerifier). w.high_water) moved,
              ap (counter_of env) (sym a.decoded ∙ a'.decoded),
            ))

  -- Once a command has been accepted it is refused ever after: at any later time, and whatever
  -- commands were offered in between.
  pub verify_no_replay :
      (v : GatewayVerifier) (signed : SignedCommand) (now later : UnixTime)
      (between : List (SignedCommand × UnixTime))
      → is_ok (verify ed codec v signed now).0 ≡ true
      → is_ok
          (verify ed codec
            (verify_all ed codec (verify ed codec v signed now).1 between)
            signed
            later).0
        ≡ false
  verify_no_replay v signed now later between h =
      replayed_lem v (verify_all ed codec (verify ed codec v signed now).1 between) signed now later
        h (verify_all-grows (verify ed codec v signed now).1 between)

  -- A new verifier pins the key and starts its mark at 0.
  pinned_lem :
      (tenant : TenantId) (key : Bytes) (v : GatewayVerifier)
      → new_verifier ed codec tenant key ≡ ok v
      → v
        ≡ record { tenant = tenant; key = key; high_water = 0; max_age_secs = default_max_age_secs }
  unfolding new_verifier
  pinned_lem tenant key v h = ground arith

  -- What the gateway signs for this tenant is accepted by a verifier that pins its key, if the
  -- counter is new, the two clocks are near enough and the envelope survives its encoding.
  pub verify-sign :
      (key : GatewaySigningKey) (v : GatewayVerifier) (counter : ℕ) (issued_at now : UnixTime)
      (cmd : GatewayCommand)
      → IsSignatureScheme ed
      → codec.from_bytes (codec.to_bytes (new_envelope key.tenant counter issued_at cmd))
        ≡ some (new_envelope key.tenant counter issued_at cmd)
      → new_verifier ed codec key.tenant (ed.public_of key.seed) ≡ ok v
      → now ≤ issued_at + default_max_age_secs
      → issued_at ≤ now + max_future_skew_secs
      → 0 < counter
      → (verify ed codec v (sign ed codec key counter issued_at cmd) now).0 ≡ ok cmd
  unfolding sign
  verify-sign key v counter issued_at now cmd scheme codes pinned old ahead new =
      let env = new_envelope key.tenant counter issued_at cmd in
      let input = signing_input (codec.to_bytes env) in
      let pin = pinned_lem key.tenant (ed.public_of key.seed) v pinned in
      (verify_cases v (sign ed codec key counter issued_at cmd) now).1 env (record {
        well_formed = scheme.sign_is_signature key.seed input;
        authentic =
            rw (ap (λ (w : GatewayVerifier). w.key) pin) (scheme.sign_verifies key.seed input);
        decoded = codes;
        version = refl;
        ours = sym (ap (λ (w : GatewayVerifier). w.tenant) pin);
        recent = rw (ap (λ (w : GatewayVerifier). w.max_age_secs) pin) old;
        not_ahead = ahead;
        fresh = rw (ap (λ (w : GatewayVerifier). w.high_water) pin) new;
      })
