-- ===== src/Controller/Rollout/Steps/Soaking.antt =====
-- What a rollout has seen of its wave when it is promoted: the ticks since the wave became healthy.
use geneza.Base.{
  ◌≡◌, refl, sym, ◌∙◌, true, false, ◌&&◌, Option, none, some, List, [], ◌∷◌, ◌⊎◌, inl, inr,
  Bool-cases, Str, get_elem?, subst, bytes_eq,
}
use geneza.Base.Int.{ℤ, pos, ◌-ℤ◌, ltb_ℤ, leb_ℤ, eqb_ℤ}
use mathlib.Core.Option.{some-injective}
use geneza.Controller.Rollout.{
  done, paused, terminal, Rollout, Ring, Channel, Blocker, RolloutTrigger, trigger_admin,
  trigger_auto, is_active, wave_members, normalize_waves, started, new_rollout, StartRequest,
  start_rollout, in_progress, is_nil,
}
use geneza.Controller.Rollout.Steps.{
  resumable, Health, save, pin_ring, fail_wave, is_healthy, finalize_rollout, blocked_wave,
  healthy_wave, tick_wave, ticked, rollout_tick, paused_from, pause_rollout, resumed_from,
  resume_rollout, aborted_from, abort_rollout,
}
use geneza.Controller.Rollout.Steps.Promotion.{
  advance_wave-Leaving, Leaving-some, Leaving, Promoted, rollout_tick-Promoted, is_healthy-nil,
}

-- A tick, with what the fleet reports to it.
pub record Tick : Type 0 where
  pub now : ℤ
  pub health : Health

-- The last ticks, the newest first, each of which saw a wave without a node that blocks, back to one
-- at the time `since`.
pub data Soak (members : List Str) (target : Str) (since : ℤ) : List Tick → Type 0 where
  begins :
      (health : Health) (ts : List Tick)
      → health.at_wave members target ≡ []
      → Soak members target since (record { now = since; health = health } ∷ ts)
  goes_on :
      (t : Tick) (ts : List Tick)
      → t.health.at_wave members target ≡ []
      → Soak members target since ts
      → Soak members target since (t ∷ ts)

-- What a product's store goes through, with the ticks since the last start, pause, resume or abort.
pub data History : Channel → List Tick → Type 0 where
  fresh : (ring : Ring) → History (record { rollout = none; ring = ring }) []
  ring_set :
      (c : Channel) (ring : Ring) (ts : List Tick)
      → History c ts
      → History (record c { ring = ring }) ts
  started_to :
      (now : ℤ) (q : StartRequest) (c d : Channel) (ts : List Tick)
      → start_rollout now q c ≡ some d
      → History c ts
      → History d []
  paused_to :
      (c d : Channel) (ts : List Tick) → pause_rollout c ≡ some d → History c ts → History d []
  resumed_to :
      (now : ℤ) (c d : Channel) (ts : List Tick)
      → resume_rollout now c ≡ some d
      → History c ts
      → History d []
  aborted_to :
      (actor : Str) (c d : Channel) (ts : List Tick)
      → abort_rollout actor c ≡ some d
      → History c ts
      → History d []
  ticked_to :
      (t : Tick) (c d : Channel) (ts : List Tick)
      → rollout_tick t.health t.now c ≡ some d
      → History c ts
      → History d (t ∷ ts)

-- An active rollout whose wave is healthy since some time has soaked from then on.
abbrev Soaks : List Tick → Option Rollout → Type 0
Soaks ts none = Unit
Soaks ts (some r) =
    is_active r.state ≡ true
    → eqb_ℤ r.healthy_since (pos 0) ≡ false
    → (pct : ℤ) → get_elem? r.waves r.wave_idx ≡ some pct
    → Soak (wave_members r.eligible pct) r.target r.healthy_since ts

-- What an operation that may refuse leaves.
abbrev Leaves : List Tick → Option Channel → Type 0
Leaves ts o = Leaving (λ d. Soaks ts d.rollout) o

Leaves-some :
    (ts : List Tick) (o : Option Channel) (d : Channel)
    → o ≡ some d
    → Leaves ts o
    → Soaks ts d.rollout
Leaves-some ts o d e k = Leaving-some (λ x. Soaks ts x.rollout) o d e k

done-inactive : is_active done ≡ false
unfolding is_active
done-inactive = refl

paused-inactive : is_active paused ≡ false
unfolding is_active
paused-inactive = refl

fail_wave-Soaks :
    (ts : List Tick) (c : Channel) (r : Rollout) (trigger : RolloutTrigger) (bs : List Blocker)
    → Soaks ts (fail_wave c r trigger bs).rollout
unfolding fail_wave save is_active
fail_wave-Soaks ts c r trigger_admin bs = λ a z pct g. cc
fail_wave-Soaks ts c r trigger_auto bs = λ a z pct g. cc

blocked_wave-Soaks :
    (ts : List Tick) (now : ℤ) (c : Channel) (r : Rollout) (bs : List Blocker)
    → Soaks ts (blocked_wave now c r bs).rollout
unfolding blocked_wave save
blocked_wave-Soaks ts now c r bs =
    elim (Bool-cases (
      ltb_ℤ (pos 0) r.wave_timeout_seconds
      && leb_ℤ r.wave_timeout_seconds (now -ℤ r.wave_entered_unix))) [
        | inl b ↦
            rw b (
              fail_wave-Soaks ts c (record r { healthy_since = pos 0; blockers = bs }) r.trigger bs)
        | inr b ↦ rw b (λ a z pct g. cc)
      ]

healthy_wave-Soaks :
    (t : Tick) (ts : List Tick) (c : Channel) (r : Rollout) (pct : ℤ)
    → is_active r.state ≡ true
    → get_elem? r.waves r.wave_idx ≡ some pct
    → t.health.at_wave (wave_members r.eligible pct) r.target ≡ []
    → Soaks ts (some r)
    → Leaves (t ∷ ts) (healthy_wave t.health t.now c r pct)
unfolding healthy_wave finalize_rollout save
healthy_wave-Soaks t ts c r pct act wave seen soaks =
    elim (Bool-cases (eqb_ℤ r.healthy_since (pos 0))) [
      | inl z ↦ rw z (λ a y p g. begins_now p g)
      | inr z ↦ rw z (elim (Bool-cases (ltb_ℤ (t.now -ℤ r.healthy_since) r.soak_seconds)) [
        | inl s ↦ rw s (λ a y p g. goes_on t ts (seen_at p g) (soaks act z p g))
        | inr s ↦ rw s (elim (Bool-cases (leb_ℤ (pos 100) pct)) [
          | inr l ↦ rw l (
              advance_wave-Leaving (λ x. Soaks (t ∷ ts) x.rollout) t.now c
                (record r { blockers = [] }) _ (λ a y p g. cc))
          | inl l ↦ rw l (elim (Bool-cases (is_healthy (t.health.at_end r.eligible r.target))) [
            | inr f ↦ rw f (λ a y p g. cc)
            | inl f ↦ rw f (λ a y p g. absurd (cc (a, done-inactive)))
          ])
        ])
      ])
    ]
  where
    seen_at :
        (p : ℤ)
        → get_elem? r.waves r.wave_idx ≡ some p
        → t.health.at_wave (wave_members r.eligible p) r.target ≡ []
    seen_at p g =
        subst (λ x. t.health.at_wave (wave_members r.eligible x) r.target ≡ [])
          (some-injective pct p (sym wave ∙ g)) seen

    begins_now :
        (p : ℤ)
        → get_elem? r.waves r.wave_idx ≡ some p
        → Soak (wave_members r.eligible p) r.target t.now (t ∷ ts)
    begins_now p g = begins t.health ts (seen_at p g)

tick_wave-Leaves :
    (t : Tick) (ts : List Tick) (c : Channel) (r : Rollout) (o : Option ℤ)
    → is_active r.state ≡ true
    → get_elem? r.waves r.wave_idx ≡ o
    → Soaks ts (some r)
    → Leaves (t ∷ ts) (tick_wave t.health t.now c r o)
unfolding tick_wave pin_ring
tick_wave-Leaves t ts c r none act wave soaks = tt
tick_wave-Leaves t ts c r (some pct) act wave soaks =
    let c' = pin_ring c r.target (wave_members r.eligible pct) in
    elim (Bool-cases (is_healthy (t.health.at_wave (wave_members r.eligible pct) r.target))) [
      | inr b ↦ rw b (blocked_wave-Soaks (t ∷ ts) t.now c' r _)
      | inl b ↦ rw b (healthy_wave-Soaks t ts c' r pct act wave (is_healthy-nil _ b) soaks)
    ]

ticked-Leaves :
    (t : Tick) (ts : List Tick) (c : Channel) (o : Option Rollout)
    → c.rollout ≡ o
    → Soaks ts o
    → Leaves (t ∷ ts) (ticked t.health t.now c o)
unfolding ticked
ticked-Leaves t ts c none e soaks = subst (λ x. Soaks (t ∷ ts) x) (sym e) tt
ticked-Leaves t ts c (some r) e soaks = elim (Bool-cases (is_active r.state)) [
  | inl a ↦ rw a (tick_wave-Leaves t ts c r _ a refl soaks)
  | inr a ↦ rw a (subst (λ x. Soaks (t ∷ ts) x) (sym e) (λ b z pct g. absurd (cc (a, b))))
]

started-Leaves :
    (now : ℤ) (q : StartRequest) (c : Channel) (o : Option (List ℤ)) → Leaves [] (started now q c o)
unfolding started new_rollout
started-Leaves now q c none = tt
started-Leaves now q c (some ws) = λ a z pct g. cc

start_rollout-Leaves :
    (now : ℤ) (q : StartRequest) (c : Channel) → Leaves [] (start_rollout now q c)
unfolding start_rollout
start_rollout-Leaves now q c = elim (Bool-cases (is_nil q.target)) [
  | inl a ↦ rw a tt
  | inr a ↦ rw a (elim (Bool-cases (in_progress c.rollout)) [
    | inl b ↦ rw b tt
    | inr b ↦ rw b (elim (Bool-cases (bytes_eq q.target c.ring.stable_version)) [
      | inl s ↦ rw s tt
      | inr s ↦ rw s (elim (Bool-cases q.published) [
        | inr p ↦ rw p tt
        | inl p ↦ rw p (started-Leaves now q c (normalize_waves q.waves))
      ])
    ])
  ])
]

paused_from-Leaves : (c : Channel) (o : Option Rollout) → Leaves [] (paused_from c o)
unfolding paused_from save
paused_from-Leaves c none = tt
paused_from-Leaves c (some r) = elim (Bool-cases (is_active r.state)) [
  | inl a ↦ rw a (λ b z pct g. absurd (cc (b, paused-inactive)))
  | inr a ↦ rw a tt
]

resumed_from-Leaves :
    (now : ℤ) (c : Channel) (o : Option Rollout) → Leaves [] (resumed_from now c o)
unfolding resumed_from save
resumed_from-Leaves now c none = tt
resumed_from-Leaves now c (some r) = elim (Bool-cases (resumable r.state)) [
  | inl a ↦ rw a (λ b z pct g. cc)
  | inr a ↦ rw a tt
]

aborted_from-Leaves :
    (actor : Str) (c : Channel) (o : Option Rollout) → Leaves [] (aborted_from actor c o)
unfolding aborted_from is_active
aborted_from-Leaves actor c none = tt
aborted_from-Leaves actor c (some r) = elim (Bool-cases (terminal r.state)) [
  | inl a ↦ rw a tt
  | inr a ↦ rw a (λ b z pct g. cc)
]

History-Soaks : (c : Channel) (ts : List Tick) → History c ts → Soaks ts c.rollout
unfolding pause_rollout resume_rollout abort_rollout rollout_tick
History-Soaks c ts (fresh ring) = tt
History-Soaks c ts (ring_set b ring _ h) = History-Soaks b ts h
History-Soaks c ts (started_to now q b _ _ e h) =
    Leaves-some [] _ c e (start_rollout-Leaves now q b)
History-Soaks c ts (paused_to b _ _ e h) = Leaves-some [] _ c e (paused_from-Leaves b b.rollout)
History-Soaks c ts (resumed_to now b _ _ e h) =
    Leaves-some [] _ c e (resumed_from-Leaves now b b.rollout)
History-Soaks c ts (aborted_to actor b _ _ e h) =
    Leaves-some [] _ c e (aborted_from-Leaves actor b b.rollout)
History-Soaks c ts (ticked_to t b _ us e h) =
    Leaves-some (t ∷ us) _ c e (ticked-Leaves t us b b.rollout refl (History-Soaks b us h))

-- Whatever a product's store has been through, a tick that changes the stable version promotes the
-- target of an active rollout at a wave of 100% that has soaked: the ticks before it saw no node of
-- the wave that blocks, back to a tick that lies the soak time or more before it, with no start,
-- pause, resume or abort in between; and at the tick itself no node of the wave or of the fleet
-- blocks. The canary ring is cleared. Every other tick keeps the stable version.
pub History-Promoted :
    (c d : Channel) (ts : List Tick) (health : Health) (now : ℤ)
    → History c ts
    → rollout_tick health now c ≡ some d
    → (d.ring.stable_version ≡ c.ring.stable_version)
      ⊎ ((p : Promoted health now c d) × Soak
            (wave_members p.rollout.eligible p.pct)
            p.rollout.target
            p.rollout.healthy_since
            ts)
History-Promoted c d ts health now h e = elim (rollout_tick-Promoted health now c d e) [
  | inl same ↦ inl same
  | inr p ↦ inr (
    p,
    subst (λ o. Soaks ts o) p.in_store (History-Soaks c ts h) p.is_driven p.has_soaked.was_healthy
        p.pct p.wave,
  )
]
