-- ===== src/Base/Predicates.antt =====
-- Quantifiers over a list, by recursion, so that the tactics take them apart.
use mathlib.Core.Path.{◌≡◌}
use mathlib.Core.Logic.{◌⊎◌, inl, inr, ◌↔◌}
use mathlib.Core.Bool.{Bool, true, false, ◌||◌}
use mathlib.Core.List.{List, [], ◌∷◌}
use native.Mathlib.Omega.{arith}

module _ {ℓ κ} {A : Type ℓ} where
  abbrev pub All : (A → Type κ) → List A → Type κ
  All Q (y ∷ ys) = Q y × All Q ys
  All Q [] = Unit

abbrev pub Any {ℓ} : {A : Type ℓ} → (A → Type 0) → List A → Type 0
Any P [] = ⊥
Any P (x ∷ xs) = P x ⊎ Any P xs

abbrev pub In : {A : Type 0} → A → List A → Type 0
In a [] = ⊥
In a (x ∷ xs) = (a ≡ x) ⊎ In a xs

unfoldable pub any {ℓ} : {A : Type ℓ} → (A → Bool) → List A → Bool
any p [] = false
any p (x ∷ xs) = p x || any p xs

module _ {ℓ} {A : Type ℓ} where
  pub any_iff : (p : A → Bool) (xs : List A) → (any p xs ≡ true) ↔ Any (λ x. p x ≡ true) xs
  unfolding any
  any_iff p [] = (λ h. cc, λ h. absurd h)
  any_iff p (x ∷ xs) = ground (arith, any_iff p xs)

  pub Any-mono : {P Q : A → Type 0} (f : (x : A) → P x → Q x) (xs : List A) → Any P xs → Any Q xs
  Any-mono f [] h = h
  Any-mono f (x ∷ xs) (inl h) = inl (f x h)
  Any-mono f (x ∷ xs) (inr h) = inr (Any-mono f xs h)
