-- ===== src/Common/Utf8.antt =====
-- `std::str::from_utf8`: the test for well-formed UTF-8, by the table of the Unicode standard.
use Prim.Native.Nat.{ℕ, zero, suc}
use mathlib.Core.Bool.{Bool, true, false, ◌&&◌}
use mathlib.Core.Option.{Option, none, some}
use mathlib.Core.List.{List, [], ◌∷◌}
use rusteyes.Common.Tests.{if◌then◌else◌, ltb, leb, ◌==◌}

-- What may follow a first byte: the number of bytes, and the range of the next one.
abbrev following : ℕ → Option (ℕ × ℕ × ℕ)
following b =
    if ltb b 0x80
    then some (0, 0x80, 0xbf)
    else if ltb b 0xc2
    then none
    else if ltb b 0xe0
    then some (1, 0x80, 0xbf)
    else if b == 0xe0
    then some (2, 0xa0, 0xbf)
    else if b == 0xed
    then some (2, 0x80, 0x9f)
    else if ltb b 0xf0
    then some (2, 0x80, 0xbf)
    else if b == 0xf0
    then some (3, 0x90, 0xbf)
    else if ltb b 0xf4
    then some (3, 0x80, 0xbf)
    else if b == 0xf4
    then some (3, 0x80, 0x8f)
    else none

-- With `missing` bytes of a character to come, the next one in a range.
unfoldable pub utf8_from : (missing low high : ℕ) → List ℕ → Bool
utf8_from missing low high [] = missing == 0
utf8_from zero low high (b ∷ bytes) = elim (following b) [
  | none ↦ false
  | some (n, l, h) ↦ utf8_from n l h bytes
]
utf8_from (suc n) low high (b ∷ bytes) = elim (leb low b && leb b high) [
  | false ↦ false
  | true ↦ utf8_from n 0x80 0xbf bytes
]

unfoldable pub is_utf8 : List ℕ → Bool
unfolding utf8_from
is_utf8 bytes = utf8_from 0 0x80 0xbf bytes
