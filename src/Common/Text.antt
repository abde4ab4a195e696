-- ===== src/Common/Text.antt =====
-- `String` and byte strings. A `String` is the list of its code points: the order of UTF-8 bytes,
-- which is Rust's, is the order of code points. A byte string is the list of its bytes.
use Prim.Native.Nat.{ℕ}
use Prim.Native.Char.{code}
use Prim.Native.String.{String}
use mathlib.Core.Path.{◌≡◌, refl, subst, ap₂}
use mathlib.Core.Logic.{◌↔◌, ◌≢◌, inl, inr}
use mathlib.Core.Bool.{Bool, true, false, not, ◌&&◌, ◌||◌}
use mathlib.Core.List.{List, [], ◌∷◌}
use native.Mathlib.Omega.{arith}
use rusteyes.Common.Tests.{if◌then◌else◌, ltb, leb, ◌==◌, ==_iff, Bool-cases}
use rusteyes.Common.Map.{Key}

abbrev pub Text : Type 0
Text = List ℕ

-- The code points of a literal.
abbrev pub text : String → Text
text String.[] = []
text (String.◌∷◌ c s) = code c ∷ text s

unfoldable pub text_eq : Text → Text → Bool
text_eq [] [] = true
text_eq [] (b ∷ t) = false
text_eq (a ∷ s) [] = false
text_eq (a ∷ s) (b ∷ t) = a == b && text_eq s t

-- Lexicographic order.
unfoldable pub text_lt : Text → Text → Bool
text_lt [] [] = false
text_lt [] (b ∷ t) = true
text_lt (a ∷ s) [] = false
text_lt (a ∷ s) (b ∷ t) = ltb a b || (a == b && text_lt s t)

pub text_eq_refl : (s : Text) → text_eq s s ≡ true
unfolding text_eq
text_eq_refl [] = refl
text_eq_refl (a ∷ s) = ground (arith, text_eq_refl s)

text_eq_sound : (s t : Text) → text_eq s t ≡ true → s ≡ t
unfolding text_eq
text_eq_sound [] [] h = refl
text_eq_sound [] (b ∷ t) h = cc
text_eq_sound (a ∷ s) [] h = cc
text_eq_sound (a ∷ s) (b ∷ t) h = ground (arith, text_eq_sound s t)

pub text_eq_iff : (s t : Text) → (text_eq s t ≡ true) ↔ (s ≡ t)
text_eq_iff s t = (text_eq_sound s t, λ e. subst (λ u. text_eq s u ≡ true) e (text_eq_refl s))

pub text_eq_ne : (s t : Text) → s ≢ t → text_eq s t ≡ false
text_eq_ne s t h = ground (arith, text_eq_iff s t)

instance abbrev pub text_key : Key Text
text_key = record { beq = text_eq; blt = text_lt; beq_iff = text_eq_iff }

-- `char::is_whitespace`: the code points with Unicode's White_Space property.
unfoldable pub is_whitespace : ℕ → Bool
is_whitespace c =
    (leb 0x9 c && leb c 0xd)
    || (c == 0x20)
    || (c == 0x85)
    || (c == 0xa0)
    || (c == 0x1680)
    || (leb 0x2000 c && leb c 0x200a)
    || (c == 0x2028)
    || (c == 0x2029)
    || (c == 0x202f)
    || (c == 0x205f)
    || (c == 0x3000)

unfoldable pub trim_start : Text → Text
unfolding is_whitespace
trim_start [] = []
trim_start (c ∷ s) = if is_whitespace c then trim_start s else c ∷ s

-- The front of the text is kept while something that is no whitespace follows.
cons_kept : ℕ → Text → Text
unfolding is_whitespace
cons_kept c [] = if is_whitespace c then [] else c ∷ []
cons_kept c (d ∷ r) = c ∷ d ∷ r

unfoldable pub trim_end : Text → Text
unfolding cons_kept
trim_end [] = []
trim_end (c ∷ s) = cons_kept c (trim_end s)

unfoldable pub trim : Text → Text
unfolding trim_start trim_end
trim s = trim_end (trim_start s)

unfoldable pub is_empty : Text → Bool
is_empty [] = true
is_empty (c ∷ s) = false

-- Of two texts, one is less.
pub text_lt-flip : (s t : Text) → s ≢ t → text_lt t s ≡ not (text_lt s t)
unfolding text_lt
text_lt-flip [] [] h = absurd (h refl)
text_lt-flip [] (b ∷ t) h = refl
text_lt-flip (a ∷ s) [] h = refl
text_lt-flip (a ∷ s) (b ∷ t) h = elim (Bool-cases (a == b)) [
  | inr differ ↦ ground arith
  | inl equal ↦
      let e : a ≡ b = (==_iff a b).0 equal in
      ground (arith, text_lt-flip s t (λ es. h (ap₂ ◌∷◌ e es)))
]
