-- ===== src/Proto/Command.antt =====
-- crates/clave-proto/src/command.rs and sign.rs, and the constants and errors of lib.rs.
use clave.Prelude.{ℕ, ◌*◌, Bytes, codes, ◌++◌}
use clave.Core.Policy.{UnixTime, PolicyBundle}
use clave.Proto.External.{Ed25519, Postcard}

-- `TenantId` is a newtype of a `u64`.
abbrev pub TenantId : Type 0
TenantId = ℕ

abbrev pub gateway_proto_version : ℕ
gateway_proto_version = 1

abbrev pub default_max_age_secs : ℕ
default_max_age_secs = 30 * 24 * 60 * 60

abbrev pub max_future_skew_secs : ℕ
max_future_skew_secs = 5 * 60

abbrev pub domain : Bytes
domain = codes "clave-proto/v1\n"

unfoldable pub signing_input : Bytes → Bytes
signing_input envelope_bytes = domain ++ envelope_bytes

pub data ProtoError : Type 0 where
  bad_signature : ProtoError
  replay : (last got : ℕ) → ProtoError
  stale : (issued_at now : UnixTime) → ProtoError
  wrong_tenant : (pinned got : TenantId) → ProtoError
  unsupported_proto : (got : ℕ) → ProtoError
  malformed : ProtoError

pub data ControlReason : Type 0 where
  offboarding lost_or_stolen compromise admin_request : ControlReason

pub data GatewayCommand : Type 0 where
  update_policy : PolicyBundle → GatewayCommand
  lock : (reason : ControlReason) → GatewayCommand
  wipe : (container : ℕ) (reason : ControlReason) → GatewayCommand

pub record Envelope : Type 0 where
  pub proto : ℕ
  pub tenant : TenantId
  pub counter : ℕ
  pub issued_at : UnixTime
  pub command : GatewayCommand

-- `Envelope::new`
abbrev pub new_envelope : TenantId → ℕ → UnixTime → GatewayCommand → Envelope
new_envelope tenant counter issued_at command = record {
  proto = gateway_proto_version;
  tenant = tenant;
  counter = counter;
  issued_at = issued_at;
  command = command;
}

pub record SignedCommand : Type 0 where
  pub envelope : Bytes
  pub signature : Bytes

-- `GatewaySigningKey`: the key pair is given by its seed.
pub record GatewaySigningKey : Type 0 where
  pub seed : Bytes
  pub tenant : TenantId

module _ (ed : Ed25519) (codec : Postcard Envelope) where
  -- `GatewaySigningKey::sign_envelope`
  unfoldable pub sign_envelope : GatewaySigningKey → Envelope → SignedCommand
  unfolding signing_input
  sign_envelope key envelope =
      let bytes = codec.to_bytes envelope in
      record { envelope = bytes; signature = ed.sign key.seed (signing_input bytes) }

  -- `GatewaySigningKey::sign`
  unfoldable pub sign : GatewaySigningKey → ℕ → UnixTime → GatewayCommand → SignedCommand
  unfolding sign_envelope
  sign key counter issued_at command =
      sign_envelope key (new_envelope key.tenant counter issued_at command)
