-- ===== src/Controller/Rollout/Steps/Progress.antt =====
-- Ticks that come at one time: a duplicate, or one of another replica.
use geneza.Base.{
  ℕ, suc, ◌≤◌, ◌≡◌, refl, sym, ◌∙◌, true, false, ◌&&◌, Option, none, some, List, [], ◌∷◌, ◌⊎◌, inl,
  inr, Bool-cases, arith, get_elem?, subst,
}
use geneza.Base.Int.{ℤ, pos, ◌-ℤ◌, ltb_ℤ, leb_ℤ, eqb_ℤ, eqb_ℤ_iff}
use mathlib.Core.Option.{some-injective, none-ne-some}
use geneza.Controller.Rollout.{
  Rollout, RolloutTrigger, trigger_admin, trigger_auto, Channel, Blocker, wave_members, is_active,
}
use geneza.Controller.Rollout.Steps.Promotion.{Leaving, Leaving-some, advance_wave-Leaving}
use geneza.Controller.Rollout.Steps.{
  Health, save, fail_wave, is_healthy, finalize_rollout, blocked_wave, healthy_wave, pin_ring,
  tick_wave, ticked, rollout_tick,
}

abbrev and_then : Option Channel → (Channel → Option Channel) → Option Channel
and_then none f = none
and_then (some c) f = f c

and_then-some :
    (o : Option Channel) (f : Channel → Option Channel) (d : Channel)
    → and_then o f ≡ some d
    → (c : Channel) × (o ≡ some c) × (f c ≡ some d)
and_then-some none f d h = absurd (none-ne-some d h)
and_then-some (some c) f d h = (c, refl, h)

-- Ticks at one time, each with what the fleet reports to it.
unfoldable pub rollout_ticks : List Health → ℤ → Channel → Option Channel
rollout_ticks [] now c = some c
rollout_ticks (h ∷ hs) now c = and_then (rollout_tick h now c) (rollout_ticks hs now)

-- A rollout that is below a wave, or that entered it and began its soak no earlier than now.
abbrev Settled : ℕ → ℤ → Rollout → Type 0
Settled k now r =
    (ltb_ℤ (pos 0) r.soak_seconds ≡ true)
    × (r.wave_idx ≤ k)
    × (r.wave_idx ≡ k → (r.healthy_since ≡ pos 0) ⊎ (r.healthy_since ≡ now))

abbrev AllSettled : ℕ → ℤ → Option Rollout → Type 0
AllSettled k now none = ⊥
AllSettled k now (some r) = Settled k now r

no_time : (a b soak : ℤ) → b ≡ a → ltb_ℤ (pos 0) soak ≡ true → ltb_ℤ (a -ℤ b) soak ≡ true
unfolding ◌-ℤ◌
no_time a b soak e h = ground arith

fail_wave-Settled :
    (k : ℕ) (now : ℤ) (c : Channel) (r : Rollout) (t : RolloutTrigger) (bs : List Blocker)
    → Settled k now r
    → AllSettled k now (fail_wave c r t bs).rollout
unfolding fail_wave save
fail_wave-Settled k now c r trigger_admin bs s = s
fail_wave-Settled k now c r trigger_auto bs s = s

blocked_wave-Settled :
    (k : ℕ) (now : ℤ) (c : Channel) (r : Rollout) (bs : List Blocker)
    → Settled k now r
    → AllSettled k now (blocked_wave now c r bs).rollout
unfolding blocked_wave save
blocked_wave-Settled k now c r bs s =
    elim (Bool-cases (
      ltb_ℤ (pos 0) r.wave_timeout_seconds
      && leb_ℤ r.wave_timeout_seconds (now -ℤ r.wave_entered_unix))) [
        | inl b ↦ rw b (
            fail_wave-Settled k now c (record r { healthy_since = pos 0; blockers = bs }) r.trigger
              bs (s.0, s.1, λ _. inl refl))
        | inr b ↦ rw b (s.0, s.1, λ _. inl refl)
      ]

-- At the last wave that these ticks may reach, the soak has not passed.
soaking :
    (k : ℕ) (now : ℤ) (r : Rollout)
    → Settled k now r
    → eqb_ℤ r.healthy_since (pos 0) ≡ false
    → r.wave_idx ≡ k
    → ltb_ℤ (now -ℤ r.healthy_since) r.soak_seconds ≡ true
soaking k now r s z e = elim (s.2 e) [
  | inl n ↦ absurd (cc (z, (eqb_ℤ_iff r.healthy_since (pos 0)).1 n))
  | inr n ↦ no_time now r.healthy_since r.soak_seconds n s.0
]

next_le : (i k : ℕ) → i ≤ k → ¬ (i ≡ k) → suc i ≤ k
next_le i k h n = ground arith

healthy_wave-Settled :
    (k : ℕ) (health : Health) (now : ℤ) (c : Channel) (r : Rollout) (pct : ℤ)
    → Settled k now r
    → Leaving (λ d. AllSettled k now d.rollout) (healthy_wave health now c r pct)
unfolding healthy_wave finalize_rollout save
healthy_wave-Settled k health now c r pct s = elim (Bool-cases (eqb_ℤ r.healthy_since (pos 0))) [
  | inl z ↦ rw z (s.0, s.1, λ _. inr refl)
  | inr z ↦ rw z (elim (Bool-cases (ltb_ℤ (now -ℤ r.healthy_since) r.soak_seconds)) [
    | inl t ↦ rw t s
    | inr t ↦ rw t (elim (Bool-cases (leb_ℤ (pos 100) pct)) [
      | inr l ↦ rw l (
          advance_wave-Leaving (λ d. AllSettled k now d.rollout) now c (record r { blockers = [] })
            _ (s.0, next_le r.wave_idx k s.1 (λ e. cc (t, soaking k now r s z e)), λ _. inl refl))
      | inl l ↦ rw l (elim (Bool-cases (is_healthy (health.at_end r.eligible r.target))) [
        | inr f ↦ rw f (s.0, s.1, λ _. inl refl)
        | inl f ↦ rw f s
      ])
    ])
  ])
]

tick_wave-Settled :
    (k : ℕ) (health : Health) (now : ℤ) (c : Channel) (r : Rollout) (o : Option ℤ) (d : Channel)
    → Settled k now r
    → tick_wave health now c r o ≡ some d
    → AllSettled k now d.rollout
unfolding tick_wave pin_ring
tick_wave-Settled k health now c r none d s h = absurd (none-ne-some d h)
tick_wave-Settled k health now c r (some pct) d s h =
    let c' = pin_ring c r.target (wave_members r.eligible pct) in
    Leaving-some (λ x. AllSettled k now x.rollout) _ d h
      (elim (Bool-cases (is_healthy (health.at_wave (wave_members r.eligible pct) r.target))) [
        | inr b ↦ rw b (blocked_wave-Settled k now c' r _ s)
        | inl b ↦ rw b (healthy_wave-Settled k health now c' r pct s)
      ])

ticked-Settled :
    (k : ℕ) (health : Health) (now : ℤ) (c : Channel) (o : Option Rollout) (d : Channel)
    → c.rollout ≡ o
    → AllSettled k now o
    → ticked health now c o ≡ some d
    → AllSettled k now d.rollout
unfolding ticked
ticked-Settled k health now c none d e s h = absurd s
ticked-Settled k health now c (some r) d e s h = elim (Bool-cases (is_active r.state)) [
  | inl a ↦
      tick_wave-Settled k health now c r (get_elem? r.waves r.wave_idx) d s (sym (rw a refl) ∙ h)
  | inr a ↦
      subst (λ x. AllSettled k now x.rollout) (some-injective c d (sym (rw a refl) ∙ h)) (rw e s)
]

rollout_ticks-Settled :
    (k : ℕ) (hs : List Health) (now : ℤ) (c d : Channel)
    → AllSettled k now c.rollout
    → rollout_ticks hs now c ≡ some d
    → AllSettled k now d.rollout
unfolding rollout_ticks rollout_tick
rollout_ticks-Settled k [] now c d s h =
    subst (λ x. AllSettled k now x.rollout) (some-injective c d h) s
rollout_ticks-Settled k (g ∷ hs) now c d s h =
    let m = and_then-some (ticked g now c c.rollout) (rollout_ticks hs now) d h in
    rollout_ticks-Settled k hs now m.0 d (ticked-Settled k g now c c.rollout m.0 refl s m.1) m.2

Settled-idx :
    (k : ℕ) (now : ℤ) (o : Option Rollout)
    → AllSettled k now o
    → (r : Rollout) × (o ≡ some r) × (r.wave_idx ≤ k)
Settled-idx k now none s = absurd s
Settled-idx k now (some r) s = (r, refl, s.1)

-- However many ticks come at one time, and whatever the fleet reports to each of them, they leave
-- the rollout in the store and advance it by one wave at most, if its soak is longer than nothing.
pub rollout_ticks-once :
    (hs : List Health) (now : ℤ) (c d : Channel) (r : Rollout)
    → c.rollout ≡ some r
    → ltb_ℤ (pos 0) r.soak_seconds ≡ true
    → rollout_ticks hs now c ≡ some d
    → (r' : Rollout) × (d.rollout ≡ some r') × (r'.wave_idx ≤ suc r.wave_idx)
rollout_ticks-once hs now c d r e soak h =
    let start : AllSettled (suc r.wave_idx) now c.rollout =
      rw e (soak, omega arith, λ q. absurd (omega arith)) in
    Settled-idx (suc r.wave_idx) now d.rollout
      (rollout_ticks-Settled (suc r.wave_idx) hs now c d start h)
