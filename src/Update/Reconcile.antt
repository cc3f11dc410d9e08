-- ===== src/Update/Reconcile.antt =====
-- internal/update/state.go, and the loop of cmd/geneza-bootstrap/main.go that brings the worker to the
-- version that the controller desires.
-- A poll carries what the world answers during one round: the controller's response, the root keys,
-- the installer's checks and download, and the health gate. Saving the state succeeds. Draining,
-- pruning and the drain-swap of the session host are left out. The created time of a manifest counts
-- whole seconds, as the floor does.
pub mod Commit
pub mod Failed
mod Examples
use geneza.Base.{
  Bool, true, false, not, ◌&&◌, ◌||◌, Option, none, some, List, [], ◌∷◌, ◌++◌, if◌then◌else◌, Str,
  bytes_eq,
}
use geneza.Base.Int.{ℤ, pos, ltb_ℤ, leb_ℤ}

pub record State : Type 0 where
  pub current : Str
  pub previous : Str
  pub bad : List Str
  pub floor_unix : ℤ
  pub root_keys_version : ℤ

unfoldable pub raise_floor : State → ℤ → State
raise_floor s created_unix =
    if ltb_ℤ s.floor_unix created_unix then record s { floor_unix = created_unix } else s

unfoldable pub raise_root_keys_version : State → ℤ → State
raise_root_keys_version s v =
    if ltb_ℤ s.root_keys_version v then record s { root_keys_version = v } else s

unfoldable pub contains : List Str → Str → Bool
contains [] v = false
contains (x ∷ xs) v = bytes_eq x v || contains xs v

unfoldable pub is_bad : State → Str → Bool
unfolding contains
is_bad s v = contains s.bad v

unfoldable pub mark_bad : State → Str → State
unfolding is_bad
mark_bad s v = if is_bad s v then s else record s { bad = s.bad ++ v ∷ [] }

abbrev is_empty {ℓ} : {A : Type ℓ} → List A → Bool
is_empty [] = true
is_empty (x ∷ xs) = false

unfoldable pub reset_bad_on_change : State → Str → Str → State
reset_bad_on_change s desired last_desired =
    if is_empty last_desired || bytes_eq desired last_desired || is_empty s.bad
    then s
    else record s { bad = [] }

-- A signed manifest: whether its signature, product, platform, names, artifact and hash pass.
pub record Manifest : Type 0 where
  pub version : Str
  pub created_unix : ℤ
  pub installs : Bool

pub record Desired : Type 0 where
  pub version : Str
  pub manifest : Option Manifest

-- What establishTrust makes of the root keys of a response.
pub data RootKeys : Type 0 where
  single_key refused : RootKeys
  accepted : ℤ → RootKeys

pub data Gate : Type 0 where
  healthy unhealthy interrupted : Gate

-- No desired version is a failed poll, or a controller that has none.
pub record Poll : Type 0 where
  pub desired : Option Desired
  pub root_keys : RootKeys
  pub gate : Gate

-- `worker` is the version that was started last.
pub record Bootstrap : Type 0 where
  pub st : State
  pub current : Str
  pub last_desired : Str
  pub worker : Str

-- Install with the floor of floorTime: the checks on the manifest, or the refusal.
pub install : ℤ → Manifest → Bool
install floor m = m.installs && (leb_ℤ floor (pos 0) || not (ltb_ℤ m.created_unix floor))

swap_worker : Bootstrap → Str → ℤ → Gate → Bootstrap
unfolding raise_floor mark_bad
swap_worker b new created healthy = record b {
  current = new;
  worker = new;
  st = raise_floor (record b.st { previous = b.current; current = new; bad = [] }) created;
}
swap_worker b new created interrupted = record b { worker = new }
swap_worker b new created unhealthy = record b { worker = b.current; st = mark_bad b.st new }

-- After the trust is established.
install_and_swap : Bootstrap → Str → Manifest → Gate → Bootstrap
unfolding install swap_worker
install_and_swap b desired m gate =
    if not (install b.st.floor_unix m)
    then b
    else if not (bytes_eq m.version desired)
    then b
    else swap_worker b m.version m.created_unix gate

establish_trust : Bootstrap → Str → Manifest → Gate → RootKeys → Bootstrap
unfolding install_and_swap raise_root_keys_version
establish_trust b desired m gate single_key = install_and_swap b desired m gate
establish_trust b desired m gate refused = b
establish_trust b desired m gate (accepted v) =
    install_and_swap (record b { st = raise_root_keys_version b.st v }) desired m gate

update_to : Bootstrap → Str → Option Manifest → Gate → RootKeys → Bootstrap
unfolding establish_trust
update_to b desired none gate root_keys = b
update_to b desired (some m) gate root_keys = establish_trust b desired m gate root_keys

decide : Bootstrap → Desired → Poll → Bootstrap
unfolding update_to is_bad
decide b d p =
    if bytes_eq d.version b.current
    then b
    else if is_bad b.st d.version
    then b
    else update_to b d.version d.manifest p.gate p.root_keys

-- The bad list is reset, and the desired version is the last one seen.
observe : Bootstrap → Desired → Bootstrap
unfolding reset_bad_on_change
observe b d = record b {
  st = reset_bad_on_change b.st d.version b.last_desired;
  last_desired = d.version;
}

polled : Bootstrap → Poll → Option Desired → Bootstrap
unfolding decide observe
polled b p none = b
polled b p (some d) = decide (observe b d) d p

pub reconcile : Bootstrap → Poll → Bootstrap
unfolding polled
reconcile b p = polled b p p.desired

-- The loop, over the polls that come.
pub reconcile_all : Bootstrap → List Poll → Bootstrap
reconcile_all b [] = b
reconcile_all b (p ∷ ps) = reconcile_all (reconcile b p) ps
