-- ===== src/Controller/Rollout/Steps/InWaves.antt =====
-- That a tick stays within the waves of a rollout.
use geneza.Base.{
  ℕ, zero, suc, ◌<◌, ◌≡◌, refl, sym, ap, ◌∙◌, true, false, ◌&&◌, Option, none, some, List, [], ◌∷◌,
  inl, inr, Bool-cases, arith, length, get_elem?,
}
use geneza.Base.Int.{eqb_ℤ_iff, ℤ, pos, ◌-ℤ◌, ltb_ℤ, leb_ℤ, eqb_ℤ}
use mathlib.Core.Option.{some-injective, none-ne-some}
use geneza.Controller.Rollout.{
  Rollout, RolloutTrigger, trigger_admin, trigger_auto, Channel, Blocker, wave_members, is_active,
  last_is_100,
}
use geneza.Controller.Rollout.Steps.{
  advance_wave, Health, save, fail_wave, is_healthy, finalize_rollout, blocked_wave, healthy_wave,
  pin_ring, tick_wave, ticked,
}

-- The last wave is the whole fleet, and the current wave is one of the waves.
abbrev pub InWaves : Rollout → Type 0
InWaves r = (last_is_100 r.waves ≡ true) × (r.wave_idx < length r.waves)

abbrev pub HasInWaves : Option Rollout → Type 0
HasInWaves none = Unit
HasInWaves (some r) = InWaves r

pub get_elem-total : (ws : List ℤ) (i : ℕ) → i < length ws → (p : ℤ) × (get_elem? ws i ≡ some p)
get_elem-total [] i h = absurd (omega arith)
get_elem-total (w ∷ ws) zero h = (w, refl)
get_elem-total (w ∷ ws) (suc i) h = get_elem-total ws i (omega arith)

-- A wave below 100% is not the last.
pub next_wave :
    (ws : List ℤ) (i : ℕ) (p : ℤ)
    → last_is_100 ws ≡ true
    → get_elem? ws i ≡ some p
    → leb_ℤ (pos 100) p ≡ false
    → suc i < length ws
unfolding last_is_100
next_wave [] i p h e l = cc
next_wave (w ∷ []) zero p h e l =
    let q = sym (some-injective w p e) ∙ (eqb_ℤ_iff w (pos 100)).0 h in
    absurd (cc (sym l ∙ ap (λ x. leb_ℤ (pos 100) x) q))
next_wave (w ∷ []) (suc i) p h e l = absurd (none-ne-some p e)
next_wave (w ∷ v ∷ ws) zero p h e l = omega arith
next_wave (w ∷ v ∷ ws) (suc i) p h e l = omega (arith, next_wave (v ∷ ws) i p h e l)

fail_wave-InWaves :
    (c : Channel) (r : Rollout) (t : RolloutTrigger) (bs : List Blocker)
    → InWaves r
    → HasInWaves (fail_wave c r t bs).rollout
unfolding fail_wave save
fail_wave-InWaves c r trigger_admin bs k = k
fail_wave-InWaves c r trigger_auto bs k = k

blocked_wave-InWaves :
    (now : ℤ) (c : Channel) (r : Rollout) (bs : List Blocker)
    → InWaves r
    → HasInWaves (blocked_wave now c r bs).rollout
unfolding blocked_wave save
blocked_wave-InWaves now c r bs k =
    elim (Bool-cases (
      ltb_ℤ (pos 0) r.wave_timeout_seconds
      && leb_ℤ r.wave_timeout_seconds (now -ℤ r.wave_entered_unix))) [
        | inl b ↦
            rw b (
              fail_wave-InWaves c (record r { healthy_since = pos 0; blockers = bs }) r.trigger bs
                k)
        | inr b ↦ rw b k
      ]

-- The tick of a healthy wave neither panics nor leaves the waves.
healthy_wave-InWaves :
    (health : Health) (now : ℤ) (c : Channel) (r : Rollout) (pct : ℤ)
    → get_elem? r.waves r.wave_idx ≡ some pct
    → InWaves r
    → (d : Channel) × (healthy_wave health now c r pct ≡ some d) × HasInWaves d.rollout
unfolding healthy_wave finalize_rollout save advance_wave
healthy_wave-InWaves health now c r pct g k = elim (Bool-cases (eqb_ℤ r.healthy_since (pos 0))) [
  | inl z ↦ rw z (_, refl, k)
  | inr z ↦ rw z (elim (Bool-cases (ltb_ℤ (now -ℤ r.healthy_since) r.soak_seconds)) [
    | inl s ↦ rw s (_, refl, k)
    | inr s ↦ rw s (elim (Bool-cases (leb_ℤ (pos 100) pct)) [
      | inr l ↦
          let next = next_wave r.waves r.wave_idx pct k.0 g l in
          rw (l, (get_elem-total r.waves (suc r.wave_idx) next).1) (_, refl, (k.0, next))
      | inl l ↦ rw l (elim (Bool-cases (is_healthy (health.at_end r.eligible r.target))) [
        | inr f ↦ rw f (_, refl, k)
        | inl f ↦ rw f (_, refl, k)
      ])
    ])
  ])
]

tick_wave-InWaves :
    (health : Health) (now : ℤ) (c : Channel) (r : Rollout) (pct : ℤ)
    → get_elem? r.waves r.wave_idx ≡ some pct
    → InWaves r
    → (d : Channel) × (tick_wave health now c r (some pct) ≡ some d) × HasInWaves d.rollout
unfolding tick_wave pin_ring
tick_wave-InWaves health now c r pct g k =
    let c' = pin_ring c r.target (wave_members r.eligible pct) in
    elim (Bool-cases (is_healthy (health.at_wave (wave_members r.eligible pct) r.target))) [
      | inr b ↦ rw b (blocked_wave now c' r _, refl, blocked_wave-InWaves now c' r _ k)
      | inl b ↦ rw b (healthy_wave-InWaves health now c' r pct g k)
    ]

-- A tick neither panics nor leaves the waves.
pub ticked-InWaves :
    (health : Health) (now : ℤ) (c : Channel) (o : Option Rollout)
    → c.rollout ≡ o
    → HasInWaves o
    → (d : Channel) × (ticked health now c o ≡ some d) × HasInWaves d.rollout
unfolding ticked
ticked-InWaves health now c none e k = (c, refl, rw e tt)
ticked-InWaves health now c (some r) e k = elim (Bool-cases (is_active r.state)) [
  | inr a ↦ rw a (c, refl, rw e k)
  | inl a ↦
      let g = get_elem-total r.waves r.wave_idx k.1 in
      rw (a, g.1) (tick_wave-InWaves health now c r g.0 g.1 k)
]
