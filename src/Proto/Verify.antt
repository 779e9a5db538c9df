-- ===== src/Proto/Verify.antt =====
-- crates/clave-proto/src/verify.rs: the device's check of a command of the gateway.
pub mod Laws
use clave.Prelude.{
  ℕ, ◌-◌, Bool, not, ◌||◌, Bytes, ltb, leb, nat_eq, ◌==◌, Result, ok, err, ◌>>=◌, ◌>>◌, fail_if,
  ok_or, if◌then◌else◌, List, [], ◌∷◌,
}
use clave.Core.Policy.{UnixTime}
use clave.Proto.External.{Ed25519, Postcard}
use clave.Proto.Command.{
  TenantId, ProtoError, bad_signature, replay, stale, wrong_tenant, unsupported_proto, malformed,
  GatewayCommand, Envelope, SignedCommand, signing_input, gateway_proto_version,
  default_max_age_secs, max_future_skew_secs,
}

pub record GatewayVerifier : Type 0 where
  pub tenant : TenantId
  pub key : Bytes
  pub high_water : ℕ
  pub max_age_secs : ℕ

abbrev pub with_high_water : ℕ → GatewayVerifier → GatewayVerifier
with_high_water counter v = record v { high_water = counter }

abbrev pub with_max_age : ℕ → GatewayVerifier → GatewayVerifier
with_max_age secs v = record v { max_age_secs = secs }

-- The end of `verify`: the mark moves to the counter of an accepted envelope.
abbrev accept :
    GatewayVerifier
    → Result ProtoError Envelope
    → Result ProtoError GatewayCommand × GatewayVerifier
accept v (ok env) = (ok env.command, record v { high_water = env.counter })
accept v (err e) = (err e, v)

module _ (ed : Ed25519) (codec : Postcard Envelope) where
  -- `GatewayVerifier::new`
  unfoldable pub new_verifier : TenantId → Bytes → Result ProtoError GatewayVerifier
  new_verifier tenant pinned_public_key =
      if ed.is_public_key pinned_public_key
      then ok (record {
        tenant = tenant;
        key = pinned_public_key;
        high_water = 0;
        max_age_secs = default_max_age_secs;
      })
      else err malformed

  -- The checks of `verify`, up to the update of the high-water mark. `saturating_sub` is `-`.
  unfoldable pub check : GatewayVerifier → SignedCommand → UnixTime → Result ProtoError Envelope
  unfolding signing_input
  check v signed now = do
    fail_if (not (ed.is_signature signed.signature)) malformed
    fail_if (not (ed.verifies v.key (signing_input signed.envelope) signed.signature)) bad_signature
    env ← ok_or (codec.from_bytes signed.envelope) malformed
    fail_if (not (env.proto == gateway_proto_version)) (unsupported_proto env.proto)
    fail_if (not (env.tenant == v.tenant)) (wrong_tenant v.tenant env.tenant)
    let age = now - env.issued_at
    let future = env.issued_at - now
    fail_if (ltb v.max_age_secs age || ltb max_future_skew_secs future) (stale env.issued_at now)
    fail_if (leb env.counter v.high_water) (replay v.high_water env.counter)
    ok env

  -- `GatewayVerifier::verify`: the result, and the verifier afterwards.
  unfoldable pub verify :
      GatewayVerifier
      → SignedCommand
      → UnixTime
      → Result ProtoError GatewayCommand × GatewayVerifier
  unfolding check
  verify v signed now = accept v (check v signed now)

  -- The verifier after a sequence of commands, accepted or not.
  unfoldable pub verify_all : GatewayVerifier → List (SignedCommand × UnixTime) → GatewayVerifier
  unfolding verify
  verify_all v [] = v
  verify_all v ((signed, now) ∷ rest) = verify_all (verify v signed now).1 rest
