-- ===== src/Gateway/Counter/Issued.antt =====
-- The numbers that the counter gives out, over failures and restarts.
use clave.Prelude.{
  ℕ, zero, suc, ◌+◌, ◌%◌, ◌<◌, ◌≡◌, refl, ap, ◌∙◌, arith, Bool, true, false, Option, List, [], ◌∷◌,
  ◌++◌, Text, trim, parse_below, to_decimal, parse_below-to_decimal, Result, ok, err,
}
use clave.Gateway.Action.{GatewayError}
use clave.Gateway.Counter.{u64, or_zero, read_current, next}

abbrev given : Result GatewayError ℕ → List ℕ
given (ok n) = n ∷ []
given (err e) = []

-- The numbers given out by some calls, each of which can or cannot replace the file, and the file that
-- they leave. The file is the whole state, so the gateway may start again between any two calls.
abbrev pub issued : List Bool → Option Text → List ℕ × Option Text
unfolding next
issued [] file = ([], file)
issued (can_replace ∷ calls) file =
    let first = next can_replace file in
    let rest = issued calls first.1 in (given first.0 ++ rest.0, rest.1)

abbrev pub successes : List Bool → ℕ
successes [] = 0
successes (true ∷ calls) = suc (successes calls)
successes (false ∷ calls) = successes calls

-- The `k` numbers after `n`
abbrev pub after : ℕ → ℕ → List ℕ
after zero n = []
after (suc k) n = (n + 1) ∷ after k (n + 1)

read_current-next :
    (file : Option Text)
    → read_current file + 1 < u64
    → read_current (next true file).1 ≡ read_current file + 1
unfolding next read_current
read_current-next file fits =
    let n : (read_current file + 1) % u64 ≡ read_current file + 1 = omega arith in
    let (same, back) = parse_below-to_decimal u64 (read_current file + 1) fits fits in
    ap (λ m. or_zero (parse_below u64 (trim (to_decimal m)))) n
    ∙ ap (λ s. or_zero (parse_below u64 s)) same
    ∙ ap or_zero back

-- Whatever the file holds at first, whichever of the calls fail and wherever the gateway is started
-- again: as long as the counter stays below 2 ^ 64, the calls that succeed give out the numbers after the
-- first one without a gap or a repetition, and the file holds the last of them.
pub issued-after :
    (calls : List Bool) (file : Option Text)
    → read_current file + successes calls < u64
    → ((issued calls file).0 ≡ after (successes calls) (read_current file))
      × (read_current (issued calls file).1 ≡ read_current file + successes calls)
unfolding issued next
issued-after [] file fits = (refl, omega arith)
issued-after (false ∷ calls) file fits = issued-after calls file fits
issued-after (true ∷ calls) file fits =
    let now = read_current-next file (omega arith) in
    let (same, last) = issued-after calls (next true file).1 (omega (arith, now)) in
    let n : (read_current file + 1) % u64 ≡ read_current file + 1 = omega arith in
    (
      ap (λ m. m ∷ (issued calls (next true file).1).0) n
          ∙ ap (λ ns. (read_current file + 1) ∷ ns)
              (same ∙ ap (λ m. after (successes calls) m) now),
      omega (arith, last, now),
    )
