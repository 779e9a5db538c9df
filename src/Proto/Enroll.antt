-- ===== src/Proto/Enroll.antt =====
-- crates/clave-proto/src/enroll.rs: what the gateway hands to a device that enrols.
use clave.Prelude.{ℕ, Bytes, Text, Option}
use clave.Proto.Command.{SignedCommand}

pub record WrappedVolumeKey : Type 0 where
  pub container : ℕ
  pub wrapped_dek : Bytes
  pub ephemeral_pub : Option Bytes

pub record TlsCredentials : Type 0 where
  pub ca_pem : Bytes
  pub cert_pem : Bytes
  pub key_pem : Bytes
  pub server_name : Text
  pub gateway_addr : Text

pub record EnrollmentGrant : Type 0 where
  pub policy : Option SignedCommand
  pub volume_key : Option WrappedVolumeKey

-- `EnrollmentGrant::new`
abbrev pub new_grant : Option SignedCommand → Option WrappedVolumeKey → EnrollmentGrant
new_grant policy volume_key = record { policy = policy; volume_key = volume_key }
