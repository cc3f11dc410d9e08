-- ===== src/Controller/Rollout/Steps.antt =====
-- internal/controller/rollout.go: the operations on a rollout that was started, the tick of the
-- controller loop among them.
pub mod Promotion
pub mod Soaking
pub mod InWaves
pub mod Lifecycle
pub mod Progress
pub mod Completion
mod Examples
use geneza.Base.{
  ℕ, suc, ◌+◌, Bool, true, false, not, ◌&&◌, ◌||◌, Option, none, some, List, [], ◌∷◌, get_elem?,
  if◌then◌else◌, Str,
}
use geneza.Base.Int.{ℤ, pos, ◌-ℤ◌, ltb_ℤ, leb_ℤ, eqb_ℤ}
use geneza.Controller.Rollout.{
  RolloutState, active, paused, halted, done, aborted, RolloutTrigger, trigger_admin, trigger_auto,
  Blocker, HaltReason, no_reason, aborted_by, wave_timed_out, Rollout, Ring, Channel, terminal,
  is_active, wave_members, revert_ring,
}

-- ring.canaryBlockers, as it answers during one tick: for the wave, and at the check of the whole
-- fleet, which comes later.
pub record Health : Type 0 where
  pub at_wave : List Str → Str → List Blocker
  pub at_end : List Str → Str → List Blocker

save : Channel → Rollout → Channel
save c r = record c { rollout = some r }

-- pauseRollout; none is an error.
paused_from : Channel → Option Rollout → Option Channel
unfolding save
paused_from c none = none
paused_from c (some r) =
    if is_active r.state then some (save c (record r { state = paused })) else none

pub pause_rollout : Channel → Option Channel
unfolding paused_from
pause_rollout c = paused_from c c.rollout

resumable : RolloutState → Bool
resumable paused = true
resumable halted = true
resumable active = false
resumable done = false
resumable aborted = false

resumed_from : ℤ → Channel → Option Rollout → Option Channel
unfolding save resumable
resumed_from now c none = none
resumed_from now c (some r) =
    if resumable r.state
    then some (
        save c (record r {
          state = active;
          wave_entered_unix = now;
          healthy_since = pos 0;
          halt_reason = no_reason;
        }))
    else none

pub resume_rollout : ℤ → Channel → Option Channel
unfolding resumed_from
resume_rollout now c = resumed_from now c c.rollout

aborted_from : Str → Channel → Option Rollout → Option Channel
aborted_from actor c none = none
aborted_from actor c (some r) =
    if terminal r.state
    then none
    else some (record {
      rollout = some (record r { state = aborted; halt_reason = aborted_by actor });
      ring = revert_ring c.ring;
    })

pub abort_rollout : Str → Channel → Option Channel
unfolding aborted_from
abort_rollout actor c = aborted_from actor c c.rollout

-- failWave
fail_wave : Channel → Rollout → RolloutTrigger → List Blocker → Channel
unfolding save
fail_wave c r trigger_auto blockers = record {
  rollout = some (record r { state = aborted; halt_reason = wave_timed_out blockers });
  ring = revert_ring c.ring;
}
fail_wave c r trigger_admin blockers =
    save c (record r { state = halted; halt_reason = wave_timed_out blockers })

pub is_healthy : List Blocker → Bool
is_healthy [] = true
is_healthy (b ∷ bs) = false

-- finalizeRollout
finalize_rollout : Health → Channel → Rollout → Channel
unfolding save is_healthy
finalize_rollout health c r =
    let final = health.at_end r.eligible r.target in
    if not (is_healthy final)
    then save c (record r { healthy_since = pos 0; blockers = final })
    else record {
      rollout = some (record r { state = done; blockers = [] });
      ring = record { stable_version = r.target; canary_version = []; canary_nodes = [] };
    }

-- The wave that has blockers.
blocked_wave : ℤ → Channel → Rollout → List Blocker → Channel
unfolding save fail_wave
blocked_wave now c r blockers =
    let r' : Rollout = record r { healthy_since = pos 0; blockers = blockers } in
    if ltb_ℤ (pos 0) r.wave_timeout_seconds
      && leb_ℤ r.wave_timeout_seconds (now -ℤ r.wave_entered_unix)
    then fail_wave c r' r.trigger blockers
    else save c r'

-- The next wave, whose percentage is read for the audit: no percentage is Go's index out of range.
pub advance_wave : ℤ → Channel → Rollout → Option ℤ → Option Channel
unfolding save
advance_wave now c r none = none
advance_wave now c r (some next) = some (
    save c (record r { wave_idx = suc r.wave_idx; wave_entered_unix = now; healthy_since = pos 0 }))

-- The wave that is healthy at the tick: it starts to soak, soaks, or is over.
healthy_wave : Health → ℤ → Channel → Rollout → ℤ → Option Channel
unfolding save finalize_rollout advance_wave
healthy_wave health now c r pct =
    let r' : Rollout = record r { blockers = [] } in
    if eqb_ℤ r.healthy_since (pos 0)
    then some (save c (record r' { healthy_since = now }))
    else if ltb_ℤ (now -ℤ r.healthy_since) r.soak_seconds
    then some (save c r')
    else if leb_ℤ (pos 100) pct
    then some (finalize_rollout health c r')
    else advance_wave now c r' (get_elem? r.waves (suc r.wave_idx))

-- The canary ring is pinned to the wave at every tick.
pin_ring : Channel → Str → List Str → Channel
pin_ring c target members = record c {
  ring = record {
    stable_version = c.ring.stable_version;
    canary_version = target;
    canary_nodes = members;
  };
}

-- The tick of an active rollout, at its wave; no percentage is an index out of range here too.
tick_wave : Health → ℤ → Channel → Rollout → Option ℤ → Option Channel
unfolding is_healthy pin_ring blocked_wave healthy_wave
tick_wave health now c r none = none
tick_wave health now c r (some pct) =
    let members = wave_members r.eligible pct in
    let c' = pin_ring c r.target members in
    let blockers = health.at_wave members r.target in
    if not (is_healthy blockers)
    then some (blocked_wave now c' r blockers)
    else healthy_wave health now c' r pct

pub ticked : Health → ℤ → Channel → Option Rollout → Option Channel
unfolding tick_wave
ticked health now c none = some c
ticked health now c (some r) =
    if is_active r.state then tick_wave health now c r (get_elem? r.waves r.wave_idx) else some c

-- rolloutTick at the time `now`; none is a panic.
pub rollout_tick : Health → ℤ → Channel → Option Channel
unfolding ticked
rollout_tick health now c = ticked health now c c.rollout
