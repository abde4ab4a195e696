-- ===== src/Common/Decimal.antt =====
-- Decimal text of the unsigned integers of Rust's standard library: `to_string` and `str::parse`.
use Prim.Native.Nat.{ℕ, zero, suc, ◌+◌, ◌-◌, ◌*◌, ◌/◌, ◌%◌, ◌≤◌, ◌<◌}
use mathlib.Core.Path.{◌≡◌, ◌∙◌}
use mathlib.Core.Logic.{inl, inr}
use mathlib.Core.Bool.{◌&&◌}
use mathlib.Core.Option.{Option, none, some}
use mathlib.Core.List.{[], ◌∷◌}
use native.Mathlib.Omega.{arith}
use rusteyes.Common.Tests.{if◌then◌else◌, ltb, leb, ◌==◌, Bool-cases}
use rusteyes.Common.Text.{Text}

-- The digits of a number, put before other text; a number of at most `fuel` digits.
unfoldable pub to_decimal : (fuel n : ℕ) → Text → Text
to_decimal zero n rest = rest
to_decimal (suc fuel) n rest =
    let longer = to_decimal fuel (n / 10) ((b'0' + n % 10) ∷ rest) in
    if ltb n 10 then (b'0' + n) ∷ rest else longer

-- The digits after those that make `n`, of a number up to `last`.
unfoldable pub parse_digits : (last n : ℕ) → Text → Option ℕ
parse_digits last n [] = some n
parse_digits last n (b ∷ bytes) =
    let next = n * 10 + (b - b'0') in
    let rest = parse_digits last next bytes in
    if leb b'0' b && leb b b'9' && leb next last then rest else none

unfoldable pub parse_some : ℕ → Text → Option ℕ
unfolding parse_digits
parse_some last [] = none
parse_some last (b ∷ bytes) = parse_digits last 0 (b ∷ bytes)

-- `parse` of an unsigned integer up to `last`, which may have a plus sign.
unfoldable pub parse : ℕ → Text → Option ℕ
unfolding parse_some
parse last [] = none
parse last (b ∷ bytes) = if b == b'+' then parse_some last bytes else parse_some last (b ∷ bytes)

-- The first number with more than `fuel` digits.
abbrev pub beyond : ℕ → ℕ
beyond zero = 1
beyond (suc fuel) = 10 * beyond fuel

parse_digits-digit :
    (last n d next : ℕ) (rest : Text)
    → d < 10
    → n * 10 + d ≡ next
    → next ≤ last
    → parse_digits last n ((b'0' + d) ∷ rest) ≡ parse_digits last next rest
unfolding parse_digits
parse_digits-digit last n d next rest small made fits =
    let same : n * 10 + ((b'0' + d) - b'0') ≡ next = omega arith in rw same (ground arith)

parse_digits-to_decimal :
    (fuel last n : ℕ) (rest : Text)
    → n < beyond fuel
    → n ≤ last
    → parse_digits last 0 (to_decimal fuel n rest) ≡ parse_digits last n rest
unfolding to_decimal
parse_digits-to_decimal zero last n rest short fits = ground arith
parse_digits-to_decimal (suc fuel) last n rest short fits = elim (Bool-cases (ltb n 10)) [
  | inl small ↦ rw small (parse_digits-digit last 0 n n rest (ground arith) (omega arith) fits)
  | inr large ↦ rw large (
      parse_digits-to_decimal fuel last (n / 10) ((b'0' + n % 10) ∷ rest) (omega arith)
        (omega arith)
      ∙ parse_digits-digit last (n / 10) (n % 10) n rest (omega arith) (omega arith) fits)
]

-- The text of a number is no sign and not empty.
parse_digits-parse :
    (fuel last n : ℕ) (rest : Text)
    → parse last (to_decimal (suc fuel) n rest) ≡ parse_digits last 0 (to_decimal (suc fuel) n rest)
unfolding to_decimal parse parse_some
parse_digits-parse zero last n rest = elim (Bool-cases (ltb n 10)) [
  | inl small ↦ rw small (ground arith)
  | inr large ↦ rw large (ground arith)
]
parse_digits-parse (suc fuel) last n rest = elim (Bool-cases (ltb n 10)) [
  | inl small ↦ rw small (ground arith)
  | inr large ↦ rw large (parse_digits-parse fuel last (n / 10) ((b'0' + n % 10) ∷ rest))
]

-- The text of a number reads back as the number.
pub parse-to_decimal :
    (fuel last n : ℕ)
    → n < beyond (suc fuel)
    → n ≤ last
    → parse last (to_decimal (suc fuel) n []) ≡ some n
unfolding parse_digits
parse-to_decimal fuel last n short fits =
    parse_digits-parse fuel last n [] ∙ parse_digits-to_decimal (suc fuel) last n [] short fits
