-- ===== src/Common/Map.antt =====
-- `BTreeMap`: an association list kept in the order of its keys, over keys with a Boolean equality
-- and order.
use Prim.Native.Nat.{ℕ}
use mathlib.Core.Path.{◌≡◌, refl}
use mathlib.Core.Logic.{◌↔◌}
use mathlib.Core.Bool.{Bool, true}
use mathlib.Core.Option.{Option, none, some}
use mathlib.Core.List.{List, [], ◌∷◌}
use native.Mathlib.Omega.{arith}
use rusteyes.Common.Tests.{if◌then◌else◌, ltb, ◌==◌, ==_iff}

pub record Key {ℓ} (K : Type ℓ) : Type ℓ where
  pub beq : K → K → Bool
  pub blt : K → K → Bool
  pub beq_iff : (a b : K) → (beq a b ≡ true) ↔ (a ≡ b)

instance abbrev pub word_key : Key ℕ
word_key = record { beq = ◌==◌; blt = ltb; beq_iff = ==_iff }

abbrev pub BTreeMap {ℓ κ} : Type ℓ → Type κ → Type (ℓ ⊔ κ)
BTreeMap K V = List (K × V)

module _ {ℓ κ} {K : Type ℓ} {V : Type κ} ⦃k : Key K⦄ where
  unfoldable pub get : K → BTreeMap K V → Option V
  get key [] = none
  get key ((j, w) ∷ m) = if k.beq key j then some w else get key m

  unfoldable pub insert : K → V → BTreeMap K V → BTreeMap K V
  insert key v [] = (key, v) ∷ []
  insert key v ((j, w) ∷ m) =
      let rest = insert key v m in
      if k.beq key j
      then (key, v) ∷ m
      else if k.blt key j
      then (key, v) ∷ (j, w) ∷ m
      else (j, w) ∷ rest

  pub get-insert :
      (key j : K) (v : V) (m : BTreeMap K V)
      → get j (insert key v m) ≡ (if k.beq j key then some v else get j m)
  unfolding get insert
  get-insert key j v [] = refl
  get-insert key j v ((i, w) ∷ m) =
      ground (arith, k.beq_iff key i, k.beq_iff j i, k.beq_iff j key, get-insert key j v m)
