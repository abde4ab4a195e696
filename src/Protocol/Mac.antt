-- ===== src/Protocol/Mac.antt =====
-- src/sync_protocol.rs: `constant_time_eq`.
use Prim.Native.Nat.{bit_or, bit_xor, bit_or-bitwise, bit_xor-bitwise, digits, differ}
use rusteyes.Common.{
  ℕ, zero, suc, ◌/◌, ◌%◌, ◌≤◌, ◌≡◌, ◌↔◌, refl, sym, subst, ◌∙◌, Bool, true, [], ◌∷◌, arith, max,
  ◌==◌, ==_iff, length,
}
use mathlib.Core.Path.{ap₂}
use rusteyes.Protocol.{Bytes}

-- The loop of `constant_time_eq`, from the difference found so far.
unfoldable pub difference_from : ℕ → Bytes → Bytes → ℕ
difference_from difference [] right = difference
difference_from difference (l ∷ left) [] = difference
difference_from difference (l ∷ left) (r ∷ right) =
    difference_from (bit_or difference (bit_xor l r)) left right

-- `constant_time_eq`.
unfoldable pub constant_time_eq : Bytes → Bytes → Bool
unfolding difference_from
constant_time_eq left right = difference_from 0 left right == 0

abbrev xor_digits : ℕ → ℕ → ℕ → ℕ
xor_digits n a b = digits (λ b. b) differ n a b

abbrev or_digits : ℕ → ℕ → ℕ → ℕ
or_digits n a b = digits (λ b. b) max n a b

differ_self : (a : ℕ) → differ a a ≡ 0
differ_self zero = refl
differ_self (suc a) = differ_self a

differ_zero : (a b : ℕ) → differ a b ≡ 0 → a ≡ b
differ_zero zero b h = omega arith
differ_zero (suc a) zero h = omega arith
differ_zero (suc a) (suc b) h = omega (arith, differ_zero a b h)

xor_digits_zero : (n a b : ℕ) → a ≤ n → xor_digits n a b ≡ 0 → a ≡ b
xor_digits_zero zero zero b p h = omega arith
xor_digits_zero zero (suc a) b p h = absurd (omega arith)
xor_digits_zero (suc n) zero b p h = omega arith
xor_digits_zero (suc n) (suc a) b p h = omega (
  arith,
  xor_digits_zero n (suc a / 2) (b / 2) (omega arith) (omega arith),
  differ_zero (suc a % 2) (b % 2) (omega arith),
)

xor_digits_self : (n a : ℕ) → a ≤ n → xor_digits n a a ≡ 0
xor_digits_self zero zero p = refl
xor_digits_self zero (suc a) p = absurd (omega arith)
xor_digits_self (suc n) zero p = refl
xor_digits_self (suc n) (suc a) p =
    omega (arith, xor_digits_self n (suc a / 2) (omega arith), differ_self (suc a % 2))

or_digits_zero : (n a b : ℕ) → a ≤ n → or_digits n a b ≡ 0 → (a ≡ 0) × (b ≡ 0)
or_digits_zero zero zero b p h = (refl, h)
or_digits_zero zero (suc a) b p h = absurd (omega arith)
or_digits_zero (suc n) zero b p h = (refl, h)
or_digits_zero (suc n) (suc a) b p h =
    let (x, y) = or_digits_zero n (suc a / 2) (b / 2) (omega arith) (omega arith) in
    (omega arith, omega arith)

bit_or_zero : (a b : ℕ) → bit_or a b ≡ 0 → (a ≡ 0) × (b ≡ 0)
bit_or_zero a b h = or_digits_zero a a b (omega arith) (sym (bit_or-bitwise a b) ∙ h)

bit_xor_zero : (a b : ℕ) → bit_xor a b ≡ 0 → a ≡ b
bit_xor_zero a b h = xor_digits_zero a a b (omega arith) (sym (bit_xor-bitwise a b) ∙ h)

bit_xor_self : (a : ℕ) → bit_xor a a ≡ 0
bit_xor_self a = bit_xor-bitwise a a ∙ xor_digits_self a a (omega arith)

difference_from-start : (d : ℕ) (left right : Bytes) → difference_from d left right ≡ 0 → d ≡ 0
unfolding difference_from
difference_from-start d [] right h = h
difference_from-start d (l ∷ left) [] h = h
difference_from-start d (l ∷ left) (r ∷ right) h =
    (bit_or_zero d (bit_xor l r) (difference_from-start (bit_or d (bit_xor l r)) left right h)).0

difference_from-zero :
    (d : ℕ) (left right : Bytes)
    → length left ≡ length right
    → difference_from d left right ≡ 0
    → left ≡ right
unfolding difference_from
difference_from-zero d [] [] e h = refl
difference_from-zero d [] (r ∷ right) e h = absurd (omega arith)
difference_from-zero d (l ∷ left) [] e h = absurd (omega arith)
difference_from-zero d (l ∷ left) (r ∷ right) e h =
    let (z, x) =
      bit_or_zero d (bit_xor l r) (difference_from-start (bit_or d (bit_xor l r)) left right h) in
    ap₂ ◌∷◌ (bit_xor_zero l r x)
      (difference_from-zero (bit_or d (bit_xor l r)) left right (omega arith) h)

difference_from_self : (bytes : Bytes) → difference_from 0 bytes bytes ≡ 0
unfolding difference_from
difference_from_self [] = refl
difference_from_self (b ∷ bytes) = rw (bit_xor_self b) (difference_from_self bytes)

-- Of two lists of bytes of one length, `constant_time_eq` holds exactly if they are equal.
pub constant_time_eq_iff :
    (left right : Bytes)
    → length left ≡ length right
    → (constant_time_eq left right ≡ true) ↔ (left ≡ right)
unfolding constant_time_eq
constant_time_eq_iff left right e = (
  λ h. difference_from-zero 0 left right e ((==_iff (difference_from 0 left right) 0).0 h),
  λ same.
      subst (λ r. (difference_from 0 left r == 0) ≡ true) same
        ((==_iff (difference_from 0 left left) 0).1 (difference_from_self left)),
)
