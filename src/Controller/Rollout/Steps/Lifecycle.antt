-- ===== src/Controller/Rollout/Steps/Lifecycle.antt =====
-- The index of the current wave, in every state that the operations lead to.
use geneza.Base.{
  ◌<◌, ◌≡◌, refl, sym, ◌∙◌, true, Option, none, some, List, [], ◌∷◌, inl, inr, Bool-cases, arith,
  Str, length, subst, bytes_eq,
}
use geneza.Base.Int.{ℤ, pos}
use mathlib.Core.Option.{some-injective, none-ne-some}
use geneza.Controller.Rollout.{
  terminal, Rollout, Ring, Channel, is_active, last_is_100, ascending, normalize_waves,
  default_waves, started, new_rollout, StartRequest, start_rollout, in_progress, is_nil,
}
use geneza.Controller.Rollout.Steps.{
  resumable, Health, save, rollout_tick, paused_from, pause_rollout, resumed_from, resume_rollout,
  aborted_from, abort_rollout,
}
use geneza.Controller.Rollout.Steps.InWaves.{HasInWaves, ticked-InWaves}

normalize_waves-last :
    (input ws : List ℤ)
    → normalize_waves input ≡ some ws
    → (last_is_100 ws ≡ true) × (0 < length ws)
unfolding normalize_waves last_is_100
normalize_waves-last [] ws h =
    subst (λ w. (last_is_100 w ≡ true) × (0 < length w)) (some-injective default_waves ws h)
      (refl, omega arith)
normalize_waves-last (p ∷ ps) ws h = elim (Bool-cases (ascending (pos 0) (p ∷ ps))) [
  | inr a ↦ absurd (none-ne-some ws (sym (rw a refl) ∙ h))
  | inl a ↦ elim (Bool-cases (last_is_100 (p ∷ ps))) [
    | inr l ↦ absurd (none-ne-some ws (sym (rw (a, l) refl) ∙ h))
    | inl l ↦
        subst (λ w. (last_is_100 w ≡ true) × (0 < length w))
          (some-injective (p ∷ ps) ws (sym (rw (a, l) refl) ∙ h)) (l, omega arith)
  ]
]

-- The channels that a product's store goes through: no rollout at first; starts, pauses, resumes,
-- aborts and ticks, at any times; and an operator who changes the ring by hand.
pub data Reachable : Channel → Type 0 where
  fresh : (ring : Ring) → Reachable (record { rollout = none; ring = ring })
  ring_set : (c : Channel) (ring : Ring) → Reachable c → Reachable (record c { ring = ring })
  started_to :
      (now : ℤ) (q : StartRequest) (c d : Channel)
      → start_rollout now q c ≡ some d
      → Reachable c
      → Reachable d
  paused_to : (c d : Channel) → pause_rollout c ≡ some d → Reachable c → Reachable d
  resumed_to : (now : ℤ) (c d : Channel) → resume_rollout now c ≡ some d → Reachable c → Reachable d
  aborted_to :
      (actor : Str) (c d : Channel) → abort_rollout actor c ≡ some d → Reachable c → Reachable d
  ticked_to :
      (health : Health) (now : ℤ) (c d : Channel)
      → rollout_tick health now c ≡ some d
      → Reachable c
      → Reachable d

-- What an operation that may refuse leaves.
abbrev KeepsWaves : Option Channel → Type 0
KeepsWaves none = Unit
KeepsWaves (some d) = HasInWaves d.rollout

KeepsWaves-some :
    (o : Option Channel) (d : Channel) → o ≡ some d → KeepsWaves o → HasInWaves d.rollout
KeepsWaves-some o d e k = subst KeepsWaves e k

started-KeepsWaves :
    (now : ℤ) (q : StartRequest) (c : Channel) (o : Option (List ℤ))
    → normalize_waves q.waves ≡ o
    → KeepsWaves (started now q c o)
unfolding started new_rollout
started-KeepsWaves now q c none e = tt
started-KeepsWaves now q c (some ws) e = normalize_waves-last q.waves ws e

start_rollout-KeepsWaves :
    (now : ℤ) (q : StartRequest) (c : Channel) → KeepsWaves (start_rollout now q c)
unfolding start_rollout
start_rollout-KeepsWaves now q c = elim (Bool-cases (is_nil q.target)) [
  | inl a ↦ rw a tt
  | inr a ↦ rw a (elim (Bool-cases (in_progress c.rollout)) [
    | inl b ↦ rw b tt
    | inr b ↦ rw b (elim (Bool-cases (bytes_eq q.target c.ring.stable_version)) [
      | inl s ↦ rw s tt
      | inr s ↦ rw s (elim (Bool-cases q.published) [
        | inr p ↦ rw p tt
        | inl p ↦ rw p (started-KeepsWaves now q c (normalize_waves q.waves) refl)
      ])
    ])
  ])
]

paused_from-KeepsWaves :
    (c : Channel) (o : Option Rollout) → HasInWaves o → KeepsWaves (paused_from c o)
unfolding paused_from save
paused_from-KeepsWaves c none k = tt
paused_from-KeepsWaves c (some r) k = elim (Bool-cases (is_active r.state)) [
  | inl a ↦ rw a k
  | inr a ↦ rw a tt
]

resumed_from-KeepsWaves :
    (now : ℤ) (c : Channel) (o : Option Rollout) → HasInWaves o → KeepsWaves (resumed_from now c o)
unfolding resumed_from save
resumed_from-KeepsWaves now c none k = tt
resumed_from-KeepsWaves now c (some r) k = elim (Bool-cases (resumable r.state)) [
  | inl a ↦ rw a k
  | inr a ↦ rw a tt
]

aborted_from-KeepsWaves :
    (actor : Str) (c : Channel) (o : Option Rollout)
    → HasInWaves o
    → KeepsWaves (aborted_from actor c o)
unfolding aborted_from
aborted_from-KeepsWaves actor c none k = tt
aborted_from-KeepsWaves actor c (some r) k = elim (Bool-cases (terminal r.state)) [
  | inl a ↦ rw a tt
  | inr a ↦ rw a k
]

Reachable-InWaves : (c : Channel) → Reachable c → HasInWaves c.rollout
unfolding pause_rollout resume_rollout abort_rollout rollout_tick
Reachable-InWaves c (fresh ring) = tt
Reachable-InWaves c (ring_set b ring r) = Reachable-InWaves b r
Reachable-InWaves c (started_to now q b d e r) =
    KeepsWaves-some _ d e (start_rollout-KeepsWaves now q b)
Reachable-InWaves c (paused_to b d e r) =
    KeepsWaves-some _ d e (paused_from-KeepsWaves b b.rollout (Reachable-InWaves b r))
Reachable-InWaves c (resumed_to now b d e r) =
    KeepsWaves-some _ d e (resumed_from-KeepsWaves now b b.rollout (Reachable-InWaves b r))
Reachable-InWaves c (aborted_to actor b d e r) =
    KeepsWaves-some _ d e (aborted_from-KeepsWaves actor b b.rollout (Reachable-InWaves b r))
Reachable-InWaves c (ticked_to health now b d e r) =
    let t = ticked-InWaves health now b b.rollout refl (Reachable-InWaves b r) in
    subst (λ x. HasInWaves x.rollout) (some-injective t.0 d (sym t.1 ∙ e)) t.2

-- In every reachable state a tick gives a result, whatever the fleet reports: the index of the
-- current wave is never out of the range of the waves.
pub Reachable-rollout_tick :
    (c : Channel)
    → Reachable c
    → (health : Health) (now : ℤ) → (d : Channel) × (rollout_tick health now c ≡ some d)
unfolding rollout_tick
Reachable-rollout_tick c r health now =
    let t = ticked-InWaves health now c c.rollout refl (Reachable-InWaves c r) in (t.0, t.1)
