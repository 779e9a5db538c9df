-- ===== src/Gateway/Action.antt =====
-- crates/clave-gateway/src/error.rs, and the shape of the handlers: an action reads and changes a
-- state, and returns a value or an error. The text of an error message is named, not spelled out.
pub mod Rules
use clave.Prelude.{Bool, true, false, Result, ok, err, Option, none, some}
use clave.Identity.Authz.{DenyReason, InviteError, AdminAction}

pub data Message : Type 0 where
  insufficient_role : AdminAction → Message
  invite_above_own_role grant_above_own_role more_senior_member : Message
  invalid_email no_refresh_token seal_failed : Message
  no_such_member no_such_device no_policy_issuer no_policy not_persisted : Message

pub data GatewayError : Type 0 where
  unauthorized : DenyReason → GatewayError
  forbidden not_found store_error idp_error counter_error : Message → GatewayError
  invite : InviteError → GatewayError
  no_such_workspace session_invalid : GatewayError

abbrev pub Action : Type 0 → Type 0 → Type 0
Action S A = S → Result GatewayError A × S

module _ {S A : Type 0} where
  abbrev pub pure : A → Action S A
  pure a s = (ok a, s)

  abbrev pub raise : GatewayError → Action S A
  raise e s = (err e, s)

  abbrev pub gets : (S → A) → Action S A
  gets f s = (ok (f s), s)

  abbrev pub lift : Result GatewayError A → Action S A
  lift r s = (r, s)

  -- `ok_or(e)?`
  abbrev pub require_some : GatewayError → Option A → Action S A
  require_some e none = raise e
  require_some e (some a) = pure a

module _ {S : Type 0} where
  abbrev pub modify : (S → S) → Action S (Unit {0})
  modify f s = (ok tt, f s)

  -- `if c { return Err(e) }`
  abbrev pub refuse_if : Bool → GatewayError → Action S (Unit {0})
  refuse_if true e = raise e
  refuse_if false e = pure tt

infixl 5 ◌>>=◌ ◌>>◌
abbrev pub continue_with :
    {S A B : Type 0} → (A → Action S B) → Result GatewayError A × S → Result GatewayError B × S
continue_with f (ok a, s) = f a s
continue_with f (err e, s) = (err e, s)

abbrev pub ◌>>=◌ : {S A B : Type 0} → Action S A → (A → Action S B) → Action S B
m >>= f = λ s. continue_with f (m s)

abbrev pub ◌>>◌ : {S B : Type 0} → Action S (Unit {0}) → Action S B → Action S B
m >> k = m >>= λ _. k
