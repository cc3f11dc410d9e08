-- ===== src/Controller/Rollout/Steps/Promotion.antt =====
-- When a version becomes the stable one.
use geneza.Base.{
  suc, ◌≡◌, refl, sym, ap, ◌∙◌, true, false, ◌&&◌, Option, none, some, List, [], ◌∷◌, ◌⊎◌, inl, inr,
  Bool-cases, get_elem?, subst,
}
use geneza.Base.Int.{ℤ, pos, ◌-ℤ◌, ltb_ℤ, leb_ℤ, eqb_ℤ}
use mathlib.Core.Option.{some-injective, none-ne-some}
use geneza.Controller.Rollout.{
  Rollout, RolloutTrigger, trigger_admin, trigger_auto, Channel, Blocker, wave_members, revert_ring,
  is_active,
}
use geneza.Controller.Rollout.Steps.{
  advance_wave, pin_ring, Health, save, fail_wave, is_healthy, finalize_rollout, blocked_wave,
  healthy_wave, tick_wave, ticked, rollout_tick,
}

-- What the last steps of a promotion took: a wave of the whole fleet that has soaked, and no node of
-- the fleet that blocks.
pub record Soaked (health : Health) (now : ℤ) (r : Rollout) (pct : ℤ) (c' : Channel) : Type 0 where
  pub last_wave : leb_ℤ (pos 100) pct ≡ true
  pub was_healthy : eqb_ℤ r.healthy_since (pos 0) ≡ false
  pub soaked : ltb_ℤ (now -ℤ r.healthy_since) r.soak_seconds ≡ false
  pub fleet_healthy : health.at_end r.eligible r.target ≡ []
  pub promotes : c'.ring.stable_version ≡ r.target
  pub ring_cleared : c'.ring.canary_nodes ≡ []

-- A promotion: of an active rollout, whose wave has no node that blocks.
pub record Promoted (health : Health) (now : ℤ) (c c' : Channel) : Type 0 where
  pub rollout : Rollout
  pub pct : ℤ
  pub in_store : c.rollout ≡ some rollout
  pub is_driven : is_active rollout.state ≡ true
  pub wave : get_elem? rollout.waves rollout.wave_idx ≡ some pct
  pub wave_healthy : health.at_wave (wave_members rollout.eligible pct) rollout.target ≡ []
  pub has_soaked : Soaked health now rollout pct c'

pub is_healthy-nil : (bs : List Blocker) → is_healthy bs ≡ true → bs ≡ []
unfolding is_healthy
is_healthy-nil [] h = refl
is_healthy-nil (b ∷ bs) h = cc

fail_wave-stable :
    (c : Channel) (r : Rollout) (t : RolloutTrigger) (bs : List Blocker)
    → (fail_wave c r t bs).ring.stable_version ≡ c.ring.stable_version
unfolding fail_wave save revert_ring
fail_wave-stable c r trigger_admin bs = refl
fail_wave-stable c r trigger_auto bs = refl

blocked_wave-stable :
    (now : ℤ) (c : Channel) (r : Rollout) (bs : List Blocker)
    → (blocked_wave now c r bs).ring.stable_version ≡ c.ring.stable_version
unfolding blocked_wave save
blocked_wave-stable now c r bs =
    elim (Bool-cases (
      ltb_ℤ (pos 0) r.wave_timeout_seconds
      && leb_ℤ r.wave_timeout_seconds (now -ℤ r.wave_entered_unix))) [
        | inl b ↦
            rw b
              (fail_wave-stable c (record r { healthy_since = pos 0; blockers = bs }) r.trigger bs)
        | inr b ↦ rw b refl
      ]

-- What holds of the channel that a tick leaves, unless it panics.
abbrev pub Leaving : (Channel → Type 0) → Option Channel → Type 0
Leaving P none = Unit
Leaving P (some d) = P d

pub Leaving-some :
    (P : Channel → Type 0) (o : Option Channel) (d : Channel) → o ≡ some d → Leaving P o → P d
Leaving-some P o d e k = subst (λ x. Leaving P x) e k

Leaving-map :
    (P Q : Channel → Type 0) (o : Option Channel)
    → ((d : Channel) → P d → Q d)
    → Leaving P o
    → Leaving Q o
Leaving-map P Q none f k = tt
Leaving-map P Q (some d) f k = f d k

pub advance_wave-Leaving :
    (P : Channel → Type 0) (now : ℤ) (c : Channel) (r : Rollout) (o : Option ℤ)
    → P (record c {
      rollout =
          some (record r {
            wave_idx = suc r.wave_idx;
            wave_entered_unix = now;
            healthy_since = pos 0;
          });
    })
    → Leaving P (advance_wave now c r o)
unfolding advance_wave save
advance_wave-Leaving P now c r none k = tt
advance_wave-Leaving P now c r (some next) k = k

healthy_wave-stable :
    (health : Health) (now : ℤ) (c : Channel) (r : Rollout) (pct : ℤ)
    → Leaving
        (λ d. (d.ring.stable_version ≡ c.ring.stable_version) ⊎ Soaked health now r pct d)
        (healthy_wave health now c r pct)
unfolding healthy_wave finalize_rollout save
healthy_wave-stable health now c r pct = elim (Bool-cases (eqb_ℤ r.healthy_since (pos 0))) [
  | inl z ↦ rw z (inl refl)
  | inr z ↦ rw z (elim (Bool-cases (ltb_ℤ (now -ℤ r.healthy_since) r.soak_seconds)) [
    | inl s ↦ rw s (inl refl)
    | inr s ↦ rw s (elim (Bool-cases (leb_ℤ (pos 100) pct)) [
      | inr l ↦ rw l (
          advance_wave-Leaving
            (λ d. (d.ring.stable_version ≡ c.ring.stable_version) ⊎ Soaked health now r pct d) now c
            (record r { blockers = [] }) _ (inl refl))
      | inl l ↦ rw l (elim (Bool-cases (is_healthy (health.at_end r.eligible r.target))) [
        | inr f ↦ rw f (inl refl)
        | inl f ↦ rw f (
            inr (record {
              last_wave = l;
              was_healthy = z;
              soaked = s;
              fleet_healthy = is_healthy-nil (health.at_end r.eligible r.target) f;
              promotes = refl;
              ring_cleared = refl;
            }))
      ])
    ])
  ])
]

-- What a tick may do to the stable version.
abbrev Outcome : Health → ℤ → Channel → Channel → Type 0
Outcome health now c d = (d.ring.stable_version ≡ c.ring.stable_version) ⊎ Promoted health now c d

tick_wave-Outcome :
    (health : Health) (now : ℤ) (c : Channel) (r : Rollout) (o : Option ℤ) (d : Channel)
    → c.rollout ≡ some r
    → is_active r.state ≡ true
    → get_elem? r.waves r.wave_idx ≡ o
    → tick_wave health now c r o ≡ some d
    → Outcome health now c d
unfolding tick_wave pin_ring
tick_wave-Outcome health now c r none d e a g h = absurd (none-ne-some d h)
tick_wave-Outcome health now c r (some pct) d e a g h =
    let c' = pin_ring c r.target (wave_members r.eligible pct) in
    Leaving-some (Outcome health now c) _ d h
      (elim (Bool-cases (is_healthy (health.at_wave (wave_members r.eligible pct) r.target))) [
        | inr b ↦ rw b (inl (blocked_wave-stable now c' r _))
        | inl b ↦ rw b (
            Leaving-map _ (Outcome health now c) _ (λ x k. promoted e a g (is_healthy-nil _ b) x k)
              (healthy_wave-stable health now c' r pct))
      ])
  where
    promoted :
        c.rollout ≡ some r
        → is_active r.state ≡ true
        → get_elem? r.waves r.wave_idx ≡ some pct
        → health.at_wave (wave_members r.eligible pct) r.target ≡ []
        → (x : Channel)
        → (x.ring.stable_version ≡ c.ring.stable_version) ⊎ Soaked health now r pct x
        → Outcome health now c x
    promoted e a g b x (inl q) = inl q
    promoted e a g b x (inr k) = inr (record {
      rollout = r;
      pct = pct;
      in_store = e;
      is_driven = a;
      wave = g;
      wave_healthy = b;
      has_soaked = k;
    })

ticked-Outcome :
    (health : Health) (now : ℤ) (c : Channel) (o : Option Rollout) (d : Channel)
    → c.rollout ≡ o
    → ticked health now c o ≡ some d
    → Outcome health now c d
unfolding ticked
ticked-Outcome health now c none d e h =
    inl (ap (λ x. x.ring.stable_version) (sym (some-injective c d h)))
ticked-Outcome health now c (some r) d e h = elim (Bool-cases (is_active r.state)) [
  | inl a ↦ tick_wave-Outcome health now c r _ d e a refl (sym (rw a refl) ∙ h)
  | inr a ↦ inl (ap (λ x. x.ring.stable_version) (sym (some-injective c d (sym (rw a refl) ∙ h))))
]

-- A tick that changes the stable version promotes the target of an active rollout at a wave of 100%
-- that has been healthy for the whole soak, with no node of the wave or of the fleet that blocks it;
-- it clears the canary ring. Every other tick keeps the stable version.
pub rollout_tick-Promoted :
    (health : Health) (now : ℤ) (c d : Channel)
    → rollout_tick health now c ≡ some d
    → (d.ring.stable_version ≡ c.ring.stable_version) ⊎ Promoted health now c d
unfolding rollout_tick
rollout_tick-Promoted health now c d h = ticked-Outcome health now c c.rollout d refl h
