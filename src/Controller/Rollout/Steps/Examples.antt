-- ===== src/Controller/Rollout/Steps/Examples.antt =====
-- A rollout at its last wave, over a fleet that is healthy.
use geneza.Base.{arith, List, bytes_eq, true, ◌≡◌, refl, ◌≤◌, none, some, [], ◌∷◌, ◌⊎◌, bytes}
use geneza.Base.Int.{ℤ, ◌-ℤ◌, pos}
use geneza.Controller.Rollout.{
  done, is_active, wave_members, normalize_waves, Rollout, active, trigger_admin, no_reason, Ring,
  Channel, StartRequest, start_rollout,
}
use geneza.Controller.Rollout.Steps.{rollout_tick}
use geneza.Controller.Rollout.Steps.Promotion.{Promoted}
use geneza.Controller.Rollout.Steps.Soaking
use geneza.Controller.Rollout.Steps.Soaking.{Tick, Soak, History-Promoted}
use geneza.Controller.Rollout.Steps.Lifecycle.{Reachable, fresh, started_to, Reachable-rollout_tick}
use geneza.Controller.Rollout.Steps.Progress.{rollout_ticks, rollout_ticks-once}
use geneza.Controller.Rollout.Steps.Completion.{all_healthy, Completed, rounds, rounds-completes}

abbrev stable_ring : Ring
stable_ring = record { stable_version = bytes "v1"; canary_version = []; canary_nodes = [] }

abbrev soaked : Rollout
soaked = record {
  target = bytes "v2";
  waves = pos 50 ∷ pos 100 ∷ [];
  wave_idx = 1;
  state = active;
  trigger = trigger_admin;
  eligible = bytes "a" ∷ bytes "b" ∷ [];
  prev_stable = bytes "v1";
  soak_seconds = pos 60;
  wave_timeout_seconds = pos 600;
  wave_entered_unix = pos 100;
  healthy_since = pos 100;
  blockers = [];
  halt_reason = no_reason;
  actor = bytes "ann";
  created_unix = pos 10;
}

abbrev at_last_wave : Channel
at_last_wave = record { rollout = some soaked; ring = stable_ring }

abbrev half_soaked : Rollout
half_soaked = record soaked { wave_idx = 0 }

abbrev at_first_wave : Channel
at_first_wave = record { rollout = some half_soaked; ring = stable_ring }

abbrev promoted : Channel
promoted = record {
  rollout = some (record soaked { state = done });
  ring = record { stable_version = bytes "v2"; canary_version = []; canary_nodes = [] };
}

-- After two ticks at 160: the second wave, whose soak begins.
abbrev at_second_wave : Channel
at_second_wave = record {
  rollout = some (record soaked { wave_entered_unix = pos 160; healthy_since = pos 160 });
  ring = record {
    stable_version = bytes "v1";
    canary_version = bytes "v2";
    canary_nodes = bytes "a" ∷ bytes "b" ∷ [];
  };
}

abbrev request : StartRequest
request = record {
  target = bytes "v2";
  waves = pos 50 ∷ pos 100 ∷ [];
  soak = pos 60;
  wave_timeout = pos 0;
  trigger = trigger_admin;
  actor = bytes "ann";
  published = true;
  eligible = bytes "a" ∷ bytes "b" ∷ [];
}

abbrev just_started : Channel
just_started = record at_first_wave {
  rollout = some (record half_soaked { wave_entered_unix = pos 10; healthy_since = pos 0 });
}

abbrev no_rollout : Channel
no_rollout = record { rollout = none; ring = stable_ring }

just_started-reached : Reachable just_started
unfolding start_rollout normalize_waves bytes_eq
just_started-reached = started_to (pos 10) request no_rollout just_started refl (fresh stable_ring)

-- A rollout of one wave: started at 10, healthy from 20 on, and promoted at 90.
abbrev one_wave : Rollout
one_wave = record half_soaked {
  waves = pos 100 ∷ [];
  wave_entered_unix = pos 10;
  healthy_since = pos 0;
}

abbrev begun : Channel
begun = record { rollout = some one_wave; ring = stable_ring }

abbrev soaking : Channel
soaking = record {
  rollout = some (record one_wave { healthy_since = pos 20 });
  ring = record {
    stable_version = bytes "v1";
    canary_version = bytes "v2";
    canary_nodes = bytes "a" ∷ bytes "b" ∷ [];
  };
}

abbrev released : Channel
released = record {
  rollout = some (record one_wave { healthy_since = pos 20; state = done });
  ring = record { stable_version = bytes "v2"; canary_version = []; canary_nodes = [] };
}

abbrev first_tick : Tick
first_tick = record { now = pos 20; health = all_healthy }

soaking-History : Soaking.History soaking (first_tick ∷ [])
unfolding start_rollout normalize_waves bytes_eq rollout_tick wave_members is_active ◌-ℤ◌
soaking-History = Soaking.ticked_to first_tick begun soaking [] refl (
    Soaking.started_to (pos 10) (record request { waves = pos 100 ∷ [] }) no_rollout begun [] refl
      (Soaking.fresh stable_ring))

History-Promoted_example :
    (released.ring.stable_version ≡ soaking.ring.stable_version)
    ⊎ ((p : Promoted all_healthy (pos 90) soaking released) × Soak
          (wave_members p.rollout.eligible p.pct)
          p.rollout.target
          p.rollout.healthy_since
          (first_tick ∷ []))
unfolding rollout_tick wave_members is_active ◌-ℤ◌
History-Promoted_example =
    History-Promoted soaking released (first_tick ∷ []) all_healthy (pos 90) soaking-History refl

Reachable-rollout_tick_example :
    (d : Channel) × (rollout_tick all_healthy (pos 20) just_started ≡ some d)
Reachable-rollout_tick_example =
    Reachable-rollout_tick just_started just_started-reached all_healthy (pos 20)

rollout_ticks-once_wave : (r' : Rollout) × (at_second_wave.rollout ≡ some r') × (r'.wave_idx ≤ 1)
unfolding rollout_ticks rollout_tick wave_members is_active ◌-ℤ◌
rollout_ticks-once_wave =
    rollout_ticks-once (all_healthy ∷ all_healthy ∷ []) (pos 160) at_first_wave at_second_wave
      half_soaked refl refl refl

abbrev two_rounds : List (ℤ × ℤ)
two_rounds = (pos 100, pos 160) ∷ (pos 200, pos 260) ∷ []

rounds-completes_example :
    (d : Channel) × (rounds two_rounds (some just_started) ≡ some d) × Completed (bytes "v2") d
unfolding geneza.Controller.Rollout.last_is_100 ◌-ℤ◌
rounds-completes_example =
    rounds-completes two_rounds just_started
      (record half_soaked { wave_entered_unix = pos 10; healthy_since = pos 0 }) refl refl
      (omega arith) refl refl ((refl, refl), ((refl, refl), tt)) (omega arith)
