-- ===== src/Controller/Rollout/Waves.antt =====
-- The waves of a rollout: the percentages that are accepted, and the nodes that a wave takes.
use geneza.Base.{
  inl, inr, subst, ℕ, zero, suc, ◌+◌, ◌*◌, ◌/◌, ◌≤◌, ◌<◌, min, ◌≡◌, refl, sym, ap, ◌∙◌, true, some,
  List, [], ◌∷◌, ◌++◌, Bool-cases, arith, Str, length, length-take, take, take_all,
}
use native.Mathlib.Nat.{mul-le-mul_right}
use mathlib.Core.Option.{some-injective, none-ne-some}
use geneza.Base.Int.{ℤ, pos, negsuc, ltb_ℤ, eqb_ℤ_iff, ◌≤ℤ◌}
use geneza.Controller.Rollout.{
  wave_size, wave_members, default_waves, ascending, last_is_100, normalize_waves,
}

-- Percentages that ascend strictly above one, up to 100.
pub Ascends : ℤ → List ℤ → Type 0
Ascends prev [] = Unit
Ascends prev (p ∷ ps) = (ltb_ℤ prev p ≡ true) × (p ≤ℤ pos 100) × Ascends p ps

pub EndsAt : ℤ → List ℤ → Type 0
EndsAt z ws = (init : List ℤ) × (ws ≡ init ++ z ∷ [])

ascending-Ascends : (prev : ℤ) (ps : List ℤ) → ascending prev ps ≡ true → Ascends prev ps
unfolding ascending Ascends
ascending-Ascends prev [] h = tt
ascending-Ascends prev (p ∷ ps) h =
    (ground arith, ground arith, ascending-Ascends p ps (ground arith))

last_is_100-EndsAt : (ws : List ℤ) → last_is_100 ws ≡ true → EndsAt (pos 100) ws
unfolding last_is_100 EndsAt
last_is_100-EndsAt [] h = cc
last_is_100-EndsAt (p ∷ []) h = ([], ap (λ x. x ∷ []) ((eqb_ℤ_iff p (pos 100)).0 h))
last_is_100-EndsAt (p ∷ q ∷ ps) h =
    let rest = last_is_100-EndsAt (q ∷ ps) h in (p ∷ rest.0, ap (◌∷◌ p) rest.1)

-- Only strictly ascending percentages in (0, 100] that end with 100 are accepted as the waves of a
-- rollout; none given are the default ones.
pub normalize_waves-Ascends :
    (input ws : List ℤ) → normalize_waves input ≡ some ws → Ascends (pos 0) ws × EndsAt (pos 100) ws
unfolding normalize_waves
normalize_waves-Ascends [] ws h =
    let e = some-injective default_waves ws h in
    subst (λ w. Ascends (pos 0) w × EndsAt (pos 100) w) e
      (
        ascending-Ascends (pos 0) default_waves (unfold ascending in refl),
        last_is_100-EndsAt default_waves (unfold last_is_100 in refl),
      )
normalize_waves-Ascends (p ∷ ps) ws h = elim (Bool-cases (ascending (pos 0) (p ∷ ps))) [
  | inr a ↦ absurd (none-ne-some ws (sym (rw a refl) ∙ h))
  | inl a ↦ elim (Bool-cases (last_is_100 (p ∷ ps))) [
    | inr l ↦ absurd (none-ne-some ws (sym (rw (a, l) refl) ∙ h))
    | inl l ↦
        let e = some-injective (p ∷ ps) ws (sym (rw (a, l) refl) ∙ h) in
        subst (λ w. Ascends (pos 0) w × EndsAt (pos 100) w) e
          (ascending-Ascends (pos 0) (p ∷ ps) a, last_is_100-EndsAt (p ∷ ps) l)
  ]
]

ceil_lem :
    (x n k : ℕ)
    → x ≤ 100 * n
    → k ≡ min (min ((x + 99) / 100) n) n
    → (x ≤ 100 * k) × (100 * k < x + 100)
ceil_lem x n k h e = (omega arith, omega arith)

-- The nodes of a wave of at most 100% are the smallest prefix of the fleet that covers the percentage
-- of it.
pub wave_members-ceil :
    (eligible : List Str) (pct : ℕ)
    → pct ≤ 100
    → let n = length eligible in
      let k = length (wave_members eligible (pos pct)) in
      (pct * n ≤ 100 * k) × (100 * k < pct * n + 100)
unfolding wave_members wave_size
wave_members-ceil eligible pct h =
    let n = length eligible in
    ceil_lem (pct * n) n (length (wave_members eligible (pos pct))) (mul-le-mul_right n h)
      (unfold wave_members wave_size in length-take (min ((pct * n + 99) / 100) n) eligible)

take_mono : (a b : ℕ) (xs : List Str) → a ≤ b → (rest : List Str) × (take b xs ≡ take a xs ++ rest)
take_mono zero b xs h = (take b xs, refl)
take_mono (suc a) zero xs h = absurd (omega arith)
take_mono (suc a) (suc b) [] h = ([], refl)
take_mono (suc a) (suc b) (x ∷ xs) h =
    let r = take_mono a b xs (omega arith) in (r.0, ap (◌∷◌ x) r.1)

min_div_mono : (x y n : ℕ) → x ≤ y → min ((x + 99) / 100) n ≤ min ((y + 99) / 100) n
min_div_mono x y n h = omega arith

all_lem : (n : ℕ) → n ≤ min ((100 * n + 99) / 100) n
all_lem n = omega arith

wave_size_mono : (p q : ℤ) (n : ℕ) → p ≤ℤ q → wave_size p n ≤ wave_size q n
unfolding wave_size
wave_size_mono (negsuc a) q n h = omega arith
wave_size_mono (pos a) (negsuc b) n h = absurd (omega arith)
wave_size_mono (pos a) (pos b) n h =
    min_div_mono (a * n) (b * n) n (mul-le-mul_right n (omega arith))

-- A wave keeps every node of a smaller one, in its place, and the wave of 100% is the whole fleet.
pub wave_members-grows :
    (eligible : List Str) (p q : ℤ)
    → p ≤ℤ q
    → ((rest : List Str) × (wave_members eligible q ≡ wave_members eligible p ++ rest))
      × (wave_members eligible (pos 100) ≡ eligible)
unfolding wave_members
wave_members-grows eligible p q h = (
  take_mono _ _ eligible (wave_size_mono p q (length eligible) h),
  take_all _ eligible (unfold wave_size in all_lem (length eligible)),
)
