-- ===== src/Prelude/Decimals.antt =====
-- Numbers in decimal, as `to_string` prints them and `parse` reads them.
use Prim.Native.Nat.{ℕ, zero, suc, ◌+◌, ◌-◌, ◌*◌, ◌/◌, ◌%◌, ◌^◌, ◌≤◌, ◌<◌}
use mathlib.Core.Path.{◌≡◌, refl, ◌∙◌}
use mathlib.Core.Logic.{inl, inr}
use mathlib.Core.Bool.{false, ◌&&◌}
use mathlib.Core.Option.{Option, none, some}
use mathlib.Core.List.{[], ◌∷◌}
use native.Mathlib.Omega.{arith}
use native.Mathlib.Nat.{pow-suc}
use clave.Prelude.Tests.{nat_eq, ◌==◌, if◌then◌else◌, leb, ltb, Bool-cases}
use clave.Prelude.Lists.{is_empty, All}
use clave.Prelude.Texts.{Text, is_whitespace, trim_start, trim_back, trim}

-- The digits of a number to base 10, after those read
unfoldable pub digits_from : ℕ → Text → Option ℕ
digits_from n [] = some n
digits_from n (c ∷ s) =
    let rest = digits_from (n * 10 + (c - b'0')) s in
    if leb b'0' c && leb c b'9' then rest else none

abbrev below : ℕ → Option ℕ → Option ℕ
below bound none = none
below bound (some n) = if ltb n bound then some n else none

abbrev some_digits : ℕ → Text → Option ℕ
unfolding digits_from
some_digits bound s = if is_empty s then none else below bound (digits_from 0 s)

-- `str::parse` into an unsigned number below the bound, which takes a sign
unfoldable pub parse_below : ℕ → Text → Option ℕ
unfolding some_digits
parse_below bound [] = none
parse_below bound (c ∷ s) = if c == b'+' then some_digits bound s else some_digits bound (c ∷ s)

-- `to_string` on a number of at most so many digits
unfoldable pub decimal_from : ℕ → ℕ → Text → Text
decimal_from zero n out = out
decimal_from (suc fuel) n out =
    let last = (b'0' + n % 10) ∷ out in
    let rest = decimal_from fuel (n / 10) last in if ltb n 10 then last else rest

-- `u64::to_string`: such a number has at most 20 digits.
unfoldable pub to_decimal : ℕ → Text
unfolding decimal_from
to_decimal n = decimal_from 20 n []

digits_from-last :
    (n : ℕ) (out : Text) → digits_from (n / 10) ((b'0' + n % 10) ∷ out) ≡ digits_from n out
unfolding digits_from
digits_from-last n out = ground arith

digits_from-one :
    (n : ℕ) (out : Text) → n < 10 → digits_from 0 ((b'0' + n % 10) ∷ out) ≡ digits_from n out
unfolding digits_from
digits_from-one n out h = ground arith

digits_from-decimal_from :
    (fuel n : ℕ) (out : Text)
    → n < 10 ^ suc fuel
    → digits_from 0 (decimal_from (suc fuel) n out) ≡ digits_from n out
unfolding decimal_from
digits_from-decimal_from zero n out h = elim (Bool-cases (ltb n 10)) [
  | inl e ↦ rw e (digits_from-one n out (ground arith))
  | inr e ↦ absurd (ground (arith, rw pow-suc at h))
]
digits_from-decimal_from (suc fuel) n out h = elim (Bool-cases (ltb n 10)) [
  | inl e ↦ rw e (digits_from-one n out (ground arith))
  | inr e ↦
      let tenth : n / 10 < 10 ^ suc fuel = let power = rw pow-suc at h in omega arith in
      rw e (
        digits_from-decimal_from fuel (n / 10) ((b'0' + n % 10) ∷ out) tenth
        ∙ digits_from-last n out)
]

-- No digit is a space, and a text of digits is not empty.
abbrev IsDigit : ℕ → Type 0
IsDigit c = (b'0' ≤ c) × (c ≤ b'9')

decimal_from-IsDigit :
    (fuel n : ℕ) (out : Text) → All IsDigit out → All IsDigit (decimal_from fuel n out)
unfolding decimal_from
decimal_from-IsDigit zero n out h = h
decimal_from-IsDigit (suc fuel) n out h = elim (Bool-cases (ltb n 10)) [
  | inl e ↦ rw e ((omega arith, omega arith), h)
  | inr e ↦
      rw e
        (decimal_from-IsDigit fuel (n / 10) ((b'0' + n % 10) ∷ out) ((omega arith, omega arith), h))
]

is_whitespace-IsDigit : (c : ℕ) → IsDigit c → is_whitespace c ≡ false
is_whitespace-IsDigit c h = ground arith

trim_back-IsDigit : (s : Text) → All IsDigit s → trim_back s ≡ s
unfolding trim_back
trim_back-IsDigit [] h = refl
trim_back-IsDigit (c ∷ s) (h, hs) =
    ground (arith, trim_back-IsDigit s hs, is_whitespace-IsDigit c h)

pub trim-IsDigit : (s : Text) → All IsDigit s → trim s ≡ s
unfolding trim trim_start
trim-IsDigit [] h = trim_back-IsDigit [] h
trim-IsDigit (c ∷ s) (h, hs) = rw (is_whitespace-IsDigit c h) (trim_back-IsDigit (c ∷ s) (h, hs))

parse_below-IsDigit :
    (bound : ℕ) (s : Text) (n : ℕ)
    → All IsDigit s
    → is_empty s ≡ false
    → digits_from 0 s ≡ some n
    → n < bound
    → parse_below bound s ≡ some n
unfolding parse_below
parse_below-IsDigit bound [] n h e d lt = cc
parse_below-IsDigit bound (c ∷ s) n (h, hs) e d lt = ground arith

decimal_from-not_empty :
    (fuel n : ℕ) (out : Text) → is_empty (decimal_from (suc fuel) n out) ≡ false
unfolding decimal_from
decimal_from-not_empty zero n out = ground arith
decimal_from-not_empty (suc fuel) n out =
    ground (arith, decimal_from-not_empty fuel (n / 10) ((b'0' + n % 10) ∷ out))

-- A number of 64 bits is read back from its print, with or without spaces round it trimmed.
pub parse_below-to_decimal :
    (bound n : ℕ)
    → n < bound
    → n < 2 ^ 64
    → (trim (to_decimal n) ≡ to_decimal n) × (parse_below bound (to_decimal n) ≡ some n)
unfolding to_decimal digits_from
parse_below-to_decimal bound n lt small =
    let digits = decimal_from-IsDigit 20 n [] tt in
    (
      trim-IsDigit (to_decimal n) digits,
      parse_below-IsDigit bound (to_decimal n) n digits (decimal_from-not_empty 19 n [])
          (digits_from-decimal_from 19 n [] (omega arith)) lt,
    )
