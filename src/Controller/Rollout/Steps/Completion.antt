-- ===== src/Controller/Rollout/Steps/Completion.antt =====
-- That a rollout over a fleet that stays healthy is completed.
use geneza.Base.{
  inl, inr, suc, ◌+◌, ◌≤◌, ◌<◌, ◌≡◌, refl, ap, ◌∙◌, true, false, Option, none, some, List, [], ◌∷◌,
  Bool-cases, arith, Str, length, get_elem?, if◌then◌else◌, All,
}
use geneza.Base.Int.{ℤ, pos, ◌-ℤ◌, ltb_ℤ, leb_ℤ, eqb_ℤ}
use geneza.Controller.Rollout.{
  Rollout, active, done, Ring, Channel, wave_members, is_active, last_is_100,
}
use geneza.Controller.Rollout.Steps.{
  advance_wave, Health, save, is_healthy, finalize_rollout, healthy_wave, pin_ring, tick_wave,
  ticked, rollout_tick,
}
use geneza.Controller.Rollout.Steps.InWaves.{InWaves, get_elem-total, next_wave}

abbrev pub all_healthy : Health
all_healthy = record { at_wave = λ nodes version. []; at_end = λ nodes version. [] }

abbrev and_tick : ℤ → Option Channel → Option Channel
and_tick now none = none
and_tick now (some c) = rollout_tick all_healthy now c

-- The two ticks of a pair of times, and all the pairs.
round : ℤ × ℤ → Option Channel → Option Channel
round p none = none
round p (some c) = and_tick p.1 (rollout_tick all_healthy p.0 c)

-- Pairs of ticks on a healthy fleet: at one time, and when the soak has passed.
pub rounds : List (ℤ × ℤ) → Option Channel → Option Channel
unfolding round
rounds [] c = c
rounds (p ∷ ps) c = rounds ps (round p c)

-- The clock is not at the epoch, and the two times are a soak apart.
abbrev pub Spaced : ℤ → (ℤ × ℤ) → Type 0
Spaced soak p = (eqb_ℤ p.0 (pos 0) ≡ false) × (ltb_ℤ (p.1 -ℤ p.0) soak ≡ false)

channel : Rollout → Ring → Channel
channel r ring = record { rollout = some r; ring = ring }

completed : Rollout → Channel
completed r = record {
  rollout = some (record r { state = done; blockers = [] });
  ring = record { stable_version = r.target; canary_version = []; canary_nodes = [] };
}

soaking : Rollout → ℤ → Rollout
soaking r t = record r { state = active; blockers = []; healthy_since = t }

advanced : Rollout → ℤ → Rollout
advanced r later = record r {
  state = active;
  blockers = [];
  wave_idx = suc r.wave_idx;
  wave_entered_unix = later;
  healthy_since = pos 0;
}

pinned : Rollout → Ring → ℤ → Ring
pinned r ring pct = record {
  stable_version = ring.stable_version;
  canary_version = r.target;
  canary_nodes = wave_members r.eligible pct;
}

first_tick :
    (r : Rollout) (ring : Ring) (pct t : ℤ)
    → r.state ≡ active
    → get_elem? r.waves r.wave_idx ≡ some pct
    → r.healthy_since ≡ pos 0
    → rollout_tick all_healthy t (channel r ring) ≡ some (channel (soaking r t) (pinned r ring pct))
unfolding rollout_tick ticked tick_wave pin_ring healthy_wave save channel soaking pinned is_healthy
    is_active
first_tick r ring pct t a g z = rw (a, g, z) refl

last_tick :
    (r : Rollout) (ring : Ring) (pct : ℤ) (p : ℤ × ℤ)
    → InWaves r
    → get_elem? r.waves r.wave_idx ≡ some pct
    → Spaced r.soak_seconds p
    → rollout_tick all_healthy p.1 (channel (soaking r p.0) ring)
      ≡ some (
          if leb_ℤ (pos 100) pct
          then completed (soaking r p.0)
          else channel (advanced r p.1) (pinned r ring pct))
unfolding rollout_tick ticked tick_wave pin_ring healthy_wave advance_wave finalize_rollout save
    channel soaking advanced completed pinned is_healthy is_active
last_tick r ring pct p k g s = elim (Bool-cases (leb_ℤ (pos 100) pct)) [
  | inl l ↦ rw (g, s.0, s.1, l) refl
  | inr l ↦
      let next =
        get_elem-total r.waves (suc r.wave_idx) (next_wave r.waves r.wave_idx pct k.0 g l) in
      rw (g, s.0, s.1, l, next.1) refl
]

round_lem :
    (r : Rollout) (ring : Ring) (pct : ℤ) (p : ℤ × ℤ)
    → InWaves r
    → r.state ≡ active
    → get_elem? r.waves r.wave_idx ≡ some pct
    → r.healthy_since ≡ pos 0
    → Spaced r.soak_seconds p
    → round p (some (channel r ring))
      ≡ some (
          if leb_ℤ (pos 100) pct
          then completed (soaking r p.0)
          else channel (advanced r p.1) (pinned r (pinned r ring pct) pct))
unfolding round
round_lem r ring pct p k a g z s =
    ap (and_tick p.1) (first_tick r ring pct p.0 a g z)
    ∙ last_tick r (pinned r ring pct) pct p k g s

completed-stays :
    (r : Rollout) (ps : List (ℤ × ℤ)) → rounds ps (some (completed r)) ≡ some (completed r)
unfolding rounds round rollout_tick ticked completed is_active
completed-stays r [] = refl
completed-stays r (p ∷ ps) = completed-stays r ps

-- What a completed rollout of a target leaves.
pub record Completed (target : Str) (d : Channel) : Type 0 where
  pub promoted : d.ring.stable_version ≡ target
  pub cleared : d.ring.canary_nodes ≡ []
  pub rollout : Rollout
  pub in_store : d.rollout ≡ some rollout
  pub is_done : rollout.state ≡ done

completed-Completed : (r : Rollout) → Completed r.target (completed r)
unfolding completed
completed-Completed r = record {
  promoted = refl;
  cleared = refl;
  rollout = record r { state = done; blockers = [] };
  in_store = refl;
  is_done = refl;
}

rounds-from :
    (ps : List (ℤ × ℤ)) (r : Rollout) (ring : Ring)
    → InWaves r
    → r.state ≡ active
    → r.healthy_since ≡ pos 0
    → All (Spaced r.soak_seconds) ps
    → length r.waves ≤ r.wave_idx + length ps
    → (d : Channel) × (rounds ps (some (channel r ring)) ≡ some d) × Completed r.target d
unfolding rounds advanced soaking
rounds-from [] r ring k a z s n = absurd (omega (arith, k.1))
rounds-from (p ∷ ps) r ring k a z s n =
    let w = get_elem-total r.waves r.wave_idx k.1 in
    let one = round_lem r ring w.0 p k a w.1 z s.0 in
    elim (Bool-cases (leb_ℤ (pos 100) w.0)) [
      | inl l ↦
          let whole =
            one
            ∙ ap
                (λ b. some (
                  if b
                  then completed (soaking r p.0)
                  else channel (advanced r p.1) (pinned r (pinned r ring w.0) w.0)))
                l in
          (
            completed (soaking r p.0),
            ap (rounds ps) whole ∙ completed-stays (soaking r p.0) ps,
            completed-Completed (soaking r p.0),
          )
      | inr l ↦
          let whole =
            one
            ∙ ap
                (λ b. some (
                  if b
                  then completed (soaking r p.0)
                  else channel (advanced r p.1) (pinned r (pinned r ring w.0) w.0)))
                l in
          let next = next_wave r.waves r.wave_idx w.0 k.0 w.1 l in
          let rest =
            rounds-from ps (advanced r p.1) (pinned r (pinned r ring w.0) w.0) (k.0, next) refl refl
              s.1 (omega (arith, n)) in
          (rest.0, ap (rounds ps) whole ∙ rest.1, rest.2)
    ]

-- When no tick finds a blocker in the fleet, a rollout that is active in one of its waves, the last of them the whole fleet, is completed by as many pairs of
-- ticks as there are waves left, where no soak has begun, the ticks of a pair the soak apart and after the epoch:
-- no tick panics, the target is then the stable version of the ring, no canary is left,
-- and the rollout in the store is done.
pub rounds-completes :
    (ps : List (ℤ × ℤ)) (c : Channel) (r : Rollout)
    → c.rollout ≡ some r
    → last_is_100 r.waves ≡ true
    → r.wave_idx < length r.waves
    → r.state ≡ active
    → r.healthy_since ≡ pos 0
    → All (Spaced r.soak_seconds) ps
    → length r.waves ≤ r.wave_idx + length ps
    → (d : Channel) × (rounds ps (some c) ≡ some d) × Completed r.target d
unfolding channel
rounds-completes ps c r e w i a z s n =
    let d = rounds-from ps r c.ring (w, i) a z s n in
    (d.0, ap (λ o. rounds ps (some (record { rollout = o; ring = c.ring }))) e ∙ d.1, d.2)
