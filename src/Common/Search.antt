-- ===== src/Common/Search.antt =====
-- Predicates on all elements of a list, and what `find` and `filter` make of them.
use mathlib.Core.Path.{◌≡◌, subst}
use mathlib.Core.Bool.{Bool, true, false}
use mathlib.Core.Option.{none, some}
use mathlib.Core.List.{List, [], ◌∷◌}
use native.Mathlib.Omega.{arith}
use rusteyes.Common.Tests.{Bool-cases}
use mathlib.Core.Logic.{inl, inr}
use rusteyes.Common.Lists.{All, find}

module _ {ℓ κ μ} {A : Type ℓ} (P : A → Type κ) (Q : A → Type μ) where
  pub All-map : ((x : A) → P x → Q x) → (xs : List A) → All P xs → All Q xs
  All-map f [] h = tt
  All-map f (x ∷ xs) h = (f x h.0, All-map f xs h.1)

  pub All-zip : (xs : List A) → All P xs → All Q xs → All (λ x. P x × Q x) xs
  All-zip [] h k = tt
  All-zip (x ∷ xs) h k = ((h.0, k.0), All-zip xs h.1 k.1)

module _ {ℓ κ} {A : Type ℓ} (P : A → Type κ) where
  -- What holds of all holds of the one that a search finds.
  pub All-find : (p : A → Bool) (xs : List A) {x : A} → All P xs → find p xs ≡ some x → P x
  unfolding find
  All-find p [] h e = cc
  All-find p (y ∷ xs) {x = x} h e = elim (Bool-cases (p y)) [
    | inl hit ↦ let same : y ≡ x = ground arith in subst P same h.0
    | inr miss ↦ All-find p xs h.1 (ground arith)
  ]

  pub All-true : ((x : A) → P x) → (xs : List A) → All P xs
  All-true f [] = tt
  All-true f (x ∷ xs) = (f x, All-true f xs)

module _ {ℓ} {A : Type ℓ} (p : A → Bool) where
  pub find-eq-some : (xs : List A) {x : A} → find p xs ≡ some x → p x ≡ true
  unfolding find
  find-eq-some [] e = cc
  find-eq-some (y ∷ xs) {x = x} e = ground (arith, find-eq-some xs {x = x})

  pub find-eq-none : (xs : List A) → find p xs ≡ none → All (λ x. p x ≡ false) xs
  unfolding find
  find-eq-none [] e = tt
  find-eq-none (y ∷ xs) e = ground (arith, find-eq-none xs)
