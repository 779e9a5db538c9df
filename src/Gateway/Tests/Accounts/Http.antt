-- ===== src/Gateway/Tests/Accounts/Http.antt =====
-- Requests of the administrator who has logged in.
use clave.Prelude.{◌≡◌, refl, none, some, codes, ok}
use clave.Proto.Samples.{toy_scheme, policy_codec}
use clave.Gateway.Ledger.{new_ledger}
use clave.Gateway.Server.{Gateway}
use clave.Gateway.Http.{Sealer, parse_u128, parse_pubkey}
use clave.Gateway.Http.Admin.{suspend, handle_admin}
use clave.Gateway.Http.Guarded.{Judged, handle_admin-Judged}
use clave.Gateway.Tests.Accounts.{session, after_login}

abbrev sealer : Sealer
sealer = record { seal = λ s. ok (codes "cookie"); unseal = λ value. some session }

abbrev running : Gateway
running = record {
  store = after_login;
  policy_issuer = none;
  volume_keys = none;
  audit = new_ledger;
  audit_store = none;
  device_ca = none;
}

handle_admin-Judged_example :
    Judged toy_scheme policy_codec sealer
      (some (codes "cookie"))
      60
      (suspend 1)
      running
      (handle_admin toy_scheme policy_codec sealer (some (codes "cookie")) 60 (suspend 1) running)
handle_admin-Judged_example =
    handle_admin-Judged toy_scheme policy_codec sealer (some (codes "cookie")) 60 (suspend 1)
      running

a_sign_is_read : parse_u128 (codes "+42") ≡ some 42
unfolding parse_u128
a_sign_is_read = refl

a_short_key_is_refused : parse_pubkey (codes "00ff") ≡ none
unfolding parse_pubkey
a_short_key_is_refused = refl
