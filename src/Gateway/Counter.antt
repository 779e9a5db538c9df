-- ===== src/Gateway/Counter.antt =====
-- crates/clave-gateway/src/policy.rs: the counter of signed policies that is kept in a file. The state is
-- the text of the file, if it can be read; whether it can be replaced is an argument.
pub mod Issued
use clave.Prelude.{
  ℕ, zero, suc, ◌+◌, ◌%◌, ◌^◌, ◌≤◌, ◌<◌, ◌≡◌, refl, sym, ap, ◌∙◌, arith, Bool, true, false, Option,
  none, some, List, [], ◌∷◌, Text, trim, parse_below, to_decimal, parse_below-to_decimal, Result,
  ok, err,
}
use clave.Gateway.Action.{GatewayError, counter_error, not_persisted}

abbrev pub u64 : ℕ
u64 = 2 ^ 64

abbrev pub or_zero : Option ℕ → ℕ
or_zero none = 0
or_zero (some n) = n

-- `FileCounter::read_current`, and `current`
unfoldable pub read_current : Option Text → ℕ
unfolding parse_below
read_current none = 0
read_current (some s) = or_zero (parse_below u64 (trim s))

-- `FileCounter::next`: the new number is written beside the file and then takes its place.
unfoldable pub next : Bool → Option Text → Result GatewayError ℕ × Option Text
unfolding read_current to_decimal
next false file = (err (counter_error not_persisted), file)
next true file = let n = (read_current file + 1) % u64 in (ok n, some (to_decimal n))
