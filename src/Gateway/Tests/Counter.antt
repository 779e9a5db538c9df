-- ===== src/Gateway/Tests/Counter.antt =====
-- A counter whose file holds 41, and that cannot be written once.
use clave.Prelude.{
  ◌+◌, ◌≡◌, refl, arith, true, false, some, Bool, Option, List, [], ◌∷◌, Text, codes, trim,
  parse_below,
}
use clave.Gateway.Counter.{read_current}
use clave.Gateway.Counter.Issued.{issued, successes, after, issued-after}

abbrev file : Option Text
file = some (codes "41")

abbrev calls : List Bool
calls = true ∷ false ∷ true ∷ []

file_run : read_current file ≡ 41
unfolding read_current parse_below trim
file_run = refl

issued-after_example :
    ((issued calls file).0 ≡ after (successes calls) (read_current file))
    × (read_current (issued calls file).1 ≡ read_current file + successes calls)
issued-after_example = issued-after calls file (omega (arith, file_run))
