-- ===== src/Controller/Rollout.antt =====
-- internal/controller/rollout.go, with canaryBlockers of adminapi.go: the staged rollout of a version.
-- A `Channel` is what the store holds for one product: the rollout under its settings key, and its
-- ring. Reads and writes of the store succeed. The product, the time of the last save, the audit
-- trail and the log are left out, and a reason keeps the data that the code prints into a text.
pub mod Steps
pub mod Waves
mod Examples
use geneza.Base.{
  ℕ, zero, suc, ◌+◌, ◌*◌, ◌/◌, min, Bool, true, false, not, ◌&&◌, ◌||◌, Option, none, some, List,
  [], ◌∷◌, ltb, ◌==◌, length, get_elem?, get_or, take, if◌then◌else◌, Str, bytes, bytes_eq,
}
use geneza.Base.Int.{ℤ, pos, negsuc, ◌-ℤ◌, ltb_ℤ, leb_ℤ, eqb_ℤ}
use geneza.Base.Dict.{Dict, get}

pub data RolloutState : Type 0 where
  active paused halted done aborted : RolloutState

pub data RolloutTrigger : Type 0 where
  trigger_admin trigger_auto : RolloutTrigger

pub data Blocker : Type 0 where
  offline unhealthy stale : Str → Blocker
  wrong_version : Str → Str → Blocker

pub data HaltReason : Type 0 where
  no_reason : HaltReason
  aborted_by : Str → HaltReason
  wave_timed_out : List Blocker → HaltReason

pub record Rollout : Type 0 where
  pub target : Str
  pub waves : List ℤ
  pub wave_idx : ℕ
  pub state : RolloutState
  pub trigger : RolloutTrigger
  pub eligible : List Str
  pub prev_stable : Str
  pub soak_seconds : ℤ
  pub wave_timeout_seconds : ℤ
  pub wave_entered_unix : ℤ
  pub healthy_since : ℤ
  pub blockers : List Blocker
  pub halt_reason : HaltReason
  pub actor : Str
  pub created_unix : ℤ

pub record Ring : Type 0 where
  pub stable_version : Str
  pub canary_version : Str
  pub canary_nodes : List Str

pub record Channel : Type 0 where
  pub rollout : Option Rollout
  pub ring : Ring

pub record AgentLive : Type 0 where
  pub version : Str
  pub healthy : Bool
  pub last_seen : ℤ

unfoldable pub terminal : RolloutState → Bool
terminal active = false
terminal paused = false
terminal halted = false
terminal done = true
terminal aborted = true

unfoldable pub is_active : RolloutState → Bool
is_active active = true
is_active paused = false
is_active halted = false
is_active done = false
is_active aborted = false

-- What one node reports, at an instant: the case of canaryBlockers that applies, if any.
blocker_of : ℤ → ℤ → Str → Str → Option AgentLive → Option Blocker
blocker_of fresh now version id none = some (offline id)
blocker_of fresh now version id (some info) =
    if not (bytes_eq info.version version)
    then some (wrong_version id info.version)
    else if not info.healthy
    then some (unhealthy id)
    else if leb_ℤ fresh (now -ℤ info.last_seen)
    then some (stale id)
    else none

add_blocker : Option Blocker → List Blocker → List Blocker
add_blocker none bs = bs
add_blocker (some b) bs = b ∷ bs

-- canaryBlockers, with canaryHeartbeatFresh as `fresh`
pub canary_blockers : ℤ → ℤ → Dict AgentLive → List Str → Str → List Blocker
unfolding blocker_of add_blocker
canary_blockers fresh now live [] version = []
canary_blockers fresh now live (id ∷ ids) version =
    add_blocker (blocker_of fresh now version id (get live id))
      (canary_blockers fresh now live ids version)

-- The ceiling of pct/100 of n, capped: Go's division is towards zero, so a negative percentage gives
-- at most 0, which the guard k < 0 leaves at 0.
unfoldable pub wave_size : ℤ → ℕ → ℕ
wave_size (pos pct) n = min ((pct * n + 99) / 100) n
wave_size (negsuc m) n = 0

unfoldable pub wave_members : List Str → ℤ → List Str
unfolding wave_size
wave_members eligible pct = take (wave_size pct (length eligible)) eligible

abbrev pub default_waves : List ℤ
default_waves = pos 10 ∷ pos 50 ∷ pos 100 ∷ []

ascending : ℤ → List ℤ → Bool
ascending prev [] = true
ascending prev (p ∷ ps) =
    let rest = ascending p ps in if leb_ℤ p prev || ltb_ℤ (pos 100) p then false else rest

pub last_is_100 : List ℤ → Bool
last_is_100 [] = false
last_is_100 (p ∷ []) = eqb_ℤ p (pos 100)
last_is_100 (p ∷ q ∷ ps) = last_is_100 (q ∷ ps)

unfoldable pub normalize_waves : List ℤ → Option (List ℤ)
unfolding ascending last_is_100
normalize_waves [] = some default_waves
normalize_waves (p ∷ ps) =
    if not (ascending (pos 0) (p ∷ ps))
    then none
    else if not (last_is_100 (p ∷ ps))
    then none
    else some (p ∷ ps)

pub record StartRequest : Type 0 where
  pub target : Str
  pub waves : List ℤ
  pub soak : ℤ
  pub wave_timeout : ℤ
  pub trigger : RolloutTrigger
  pub actor : Str
  -- what the store answers: the manifest of the target is published, and the fleet in hash order
  pub published : Bool
  pub eligible : List Str

in_progress : Option Rollout → Bool
in_progress none = false
in_progress (some r) = not (terminal r.state)

or_default : ℤ → ℤ → ℤ
or_default x d = if leb_ℤ x (pos 0) then d else x

-- The rollout that startRollout persists.
new_rollout : ℤ → StartRequest → Str → List ℤ → Rollout
unfolding or_default
new_rollout now q stable waves = record {
  target = q.target;
  waves = waves;
  wave_idx = 0;
  state = active;
  trigger = q.trigger;
  eligible = q.eligible;
  prev_stable = stable;
  soak_seconds = or_default q.soak (pos 120);
  wave_timeout_seconds = or_default q.wave_timeout (pos 600);
  wave_entered_unix = now;
  healthy_since = pos 0;
  blockers = [];
  halt_reason = no_reason;
  actor = q.actor;
  created_unix = now;
}

started : ℤ → StartRequest → Channel → Option (List ℤ) → Option Channel
unfolding new_rollout
started now q c none = none
started now q c (some waves) =
    some (record c { rollout = some (new_rollout now q c.ring.stable_version waves) })

is_nil : Str → Bool
is_nil [] = true
is_nil (c ∷ s) = false

-- startRollout; none is an error, which leaves the store as it was.
unfoldable pub start_rollout : ℤ → StartRequest → Channel → Option Channel
unfolding is_nil in_progress started
start_rollout now q c =
    if is_nil q.target
    then none
    else if in_progress c.rollout
    then none
    else if bytes_eq q.target c.ring.stable_version
    then none
    else if not q.published
    then none
    else started now q c (normalize_waves q.waves)

-- revertRing
unfoldable pub revert_ring : Ring → Ring
revert_ring ring = record ring { canary_nodes = []; canary_version = [] }
