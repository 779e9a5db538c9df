-- ===== src/Gateway/Action/Rules.antt =====
-- How to prove a property of what an action returns and leaves: one rule for each way to fail.
use clave.Prelude.{◌≡◌, refl, Bool, true, false, Option, none, some, Result, ok, err}
use clave.Gateway.Action.{
  GatewayError, Action, refuse_if, require_some, lift, continue_with, ◌>>=◌, ◌>>◌,
}

module _ {S A : Type 0} (P : Result GatewayError A × S → Type 0) (s : S) where
  -- It holds if the request is refused, and if the rest runs.
  pub refuse_if_both :
      (b : Bool) (e : GatewayError) (k : Action S A)
      → P (err e, s)
      → (b ≡ false → P (k s))
      → P ((refuse_if b e >> k) s)
  refuse_if_both true e k h f = h
  refuse_if_both false e k h f = f refl

  pub require_some_both :
      {B : Type 0} (o : Option B) (e : GatewayError) (k : B → Action S A)
      → P (err e, s)
      → ((b : B) → o ≡ some b → P (k b s))
      → P ((require_some e o >>= k) s)
  require_some_both none e k h f = h
  require_some_both (some b) e k h f = f b refl

  pub lift_both :
      {B : Type 0} (r : Result GatewayError B) (k : B → Action S A)
      → ((e : GatewayError) → r ≡ err e → P (err e, s))
      → ((b : B) → r ≡ ok b → P (k b s))
      → P ((lift r >>= k) s)
  lift_both (err e) k h f = h e refl
  lift_both (ok b) k h f = f b refl

module _ {S A B : Type 0} (P : Result GatewayError A × S → Type 0) where
  -- The first part of an action may fail after a change of the state.
  pub bind_both :
      (r : Result GatewayError B × S) (k : B → Action S A)
      → ((e : GatewayError) → r.0 ≡ err e → P (err e, r.1))
      → ((b : B) → r.0 ≡ ok b → P (k b r.1))
      → P (continue_with k r)
  bind_both (err e, s) k h f = h e refl
  bind_both (ok b, s) k h f = f b refl
