-- ===== src/Common/Equality.antt =====
-- `Eq`: a type with a Boolean equality.
use Prim.Native.Nat.{ℕ}
use mathlib.Core.Path.{◌≡◌}
use mathlib.Core.Logic.{◌↔◌}
use mathlib.Core.Bool.{Bool, true}
use rusteyes.Common.Tests.{◌==◌, ==_iff}

pub record Equality {ℓ} (A : Type ℓ) : Type ℓ where
  pub same : A → A → Bool
  pub same_iff : (a b : A) → (same a b ≡ true) ↔ (a ≡ b)

instance abbrev pub word_equality : Equality ℕ
word_equality = record { same = ◌==◌; same_iff = ==_iff }
