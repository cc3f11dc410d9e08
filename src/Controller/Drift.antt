-- ===== src/Controller/Drift.antt =====
-- internal/controller/continuousauthz.go: the verdict on the binary that a node measures of itself,
-- and quarantine. Texts are ASCII.
pub mod Approval
pub mod Gate
pub mod Verdict
pub mod Moves
pub mod Condemned
pub mod Baseline
pub mod Quarantine
pub mod Reapproval
mod Examples
use geneza.Base.{
  ℕ, ◌+◌, ◌/◌, ◌%◌, Bool, true, false, not, ◌&&◌, ◌||◌, Option, none, some, List, [], ◌∷◌, ◌++◌,
  ◌==◌, leb, ltb, if◌then◌else◌, Str, bytes, bytes_eq, equal_fold,
}
use geneza.Base.Int.{ℤ, pos, ltb_ℤ}
use geneza.Controller.Rows.{Key}
use geneza.Controller.Nodes
use geneza.Controller.Audit.{hex}
use geneza.Policy.Window.{trim_space}
use geneza.Controller.Nodes.{
  NodeRecord, QuarantineRecord, NodeStore, get_node, find_node, set_node_approval,
  record_node_measurement, Measured, repin_baseline, QuarantineLookup, found, not_found, failed,
  get_quarantine, is_empty,
}
use geneza.Controller.Sessions.{
  Facts, Server, Env, emit, audited, networks_repushed, node_approval, node_binary_updated,
  node_rebaselined, node_quarantined,
}
use geneza.Controller.Reauth.Ops.{revoke_by_node_id}

-- Whether each transaction of the operation commits, and each read succeeds.
pub record Commits : Type 0 where
  pub measures : Bool
  pub repins : Bool
  pub quarantines : Bool
  pub approves : Bool
  pub reads_node : Bool
  pub reads_quarantine : Bool
  pub reads_artifacts : Bool

-- A release that the controller published: what its signed manifest says.
pub record Manifest : Type 0 where
  pub product : Str
  pub sha256 : Str
  pub created_unix : ℤ
  pub version : Str

unfoldable pub manifest_match : Str → Str → Manifest → Bool
manifest_match product sha m = bytes_eq m.product product && equal_fold m.sha256 sha

unfoldable pub first_match : Str → Str → List (Option Manifest) → Option Manifest
unfolding manifest_match
first_match product sha [] = none
first_match product sha (none ∷ ms) = first_match product sha ms
first_match product sha (some m ∷ ms) =
    let rest = first_match product sha ms in if manifest_match product sha m then some m else rest

pub data Published : Type 0 where
  release : Manifest → Published
  unpublished lookup_failed : Published

published_by : Option Manifest → Published
published_by none = unpublished
published_by (some m) = release m

-- PublishedManifestForHash, over the artifact bucket's rows as they decode: a row that does not
-- is none.
unfoldable pub published_manifest_for_hash : Bool → List (Option Manifest) → Str → Str → Published
unfolding first_match published_by
published_manifest_for_hash readable artifacts product sha =
    if is_empty sha
    then unpublished
    else if not readable
    then lookup_failed
    else published_by (first_match product sha artifacts)

unfoldable pub with_store : Server → NodeStore → Server
with_store s st = record s { facts = record s.facts { store = st } }

-- The sessions and the networks of a node whose gate has closed.
unfoldable pub cut_node : Env → Str → Str → Str → Str → Server → Server
unfolding revoke_by_node_id emit
cut_node env ws node_id reason by s =
    let cut = revoke_by_node_id env ws node_id (bytes "quarantined: " ++ reason) s in
    emit cut.0 (networks_repushed ws ∷ audited ws (node_quarantined node_id reason by cut.1) ∷ [])

-- quarantineNode; none is the error of the store.
unfoldable pub quarantine_node : Env → Commits → Str → Str → Str → Str → Server → Option Server
unfolding Nodes.quarantine_node with_store cut_node
quarantine_node env c ws node_id reason by s =
    elim (Nodes.quarantine_node c.quarantines s.facts.store (ws, node_id) reason by env.now) [
      | none ↦ none
      | some st ↦ some (cut_node env ws node_id reason by (with_store s st))
    ]

unfoldable pub fresh_approval : ℤ → Option NodeRecord → Bool
fresh_approval measured none = false
fresh_approval measured (some n) = n.approved && ltb_ℤ measured n.approved_at_unix

-- What is left when the quarantine fails: the admission gate is closed all the same.
unfoldable pub deny_anyway : Env → Commits → Key → Server → Option Server → Server
unfolding set_node_approval with_store
deny_anyway env c k s (some s') = s'
deny_anyway env c k s none =
    elim (set_node_approval c.approves s.facts.store k false (bytes "system") env.now) [
      | none ↦ s
      | some st ↦ with_store s st
    ]

-- driftQuarantine
unfoldable pub drift_quarantine : Env → Commits → Str → Str → Str → ℤ → Server → Server
unfolding get_node fresh_approval quarantine_node deny_anyway
drift_quarantine env c ws node_id reason measured s =
    if c.reads_node && fresh_approval measured (get_node s.facts.store (ws, node_id))
    then s
    else deny_anyway env c (ws, node_id) s
        (quarantine_node env c ws node_id reason (bytes "system") s)

abbrev pub agent_product : Str
agent_product = bytes "geneza-agent"

-- The first measurement after an approval: the floor of a published release.
unfoldable pub pin_floor : Commits → Key → Str → Published → Server → Server
unfolding repin_baseline with_store
pin_floor c k hash unpublished s = s
pin_floor c k hash lookup_failed s = s
pin_floor c k hash (release m) s =
    elim (repin_baseline c.repins s.facts.store k hash m.created_unix) [
      | none ↦ s
      | some st ↦ with_store s st
    ]

unfoldable pub accept_release : Commits → Str → Str → Str → Manifest → Server → Server
unfolding repin_baseline with_store emit
accept_release c ws node_id hash m s =
    elim (repin_baseline c.repins s.facts.store (ws, node_id) hash m.created_unix) [
      | none ↦ s
      | some st ↦
          emit (with_store s st)
            (audited ws (node_binary_updated node_id (hex hash) m.version) ∷ [])
    ]

-- The verdict on a changed binary: an update, a downgrade or tamper.
unfoldable pub judge : Env → Commits → Str → Str → Str → NodeRecord → Published → Server → Server
unfolding drift_quarantine accept_release
judge env c ws node_id hash n (release m) s =
    if ltb_ℤ (pos 0) n.approved_binary_created_unix
      && ltb_ℤ m.created_unix n.approved_binary_created_unix
    then drift_quarantine env c ws node_id (bytes "binary_downgrade") env.now s
    else accept_release c ws node_id hash m s
judge env c ws node_id hash n unpublished s =
    drift_quarantine env c ws node_id (bytes "binary_tamper") env.now s
judge env c ws node_id hash n lookup_failed s =
    drift_quarantine env c ws node_id (bytes "binary_tamper") env.now s

unfoldable pub measured_by :
    Env → Commits → List (Option Manifest) → Str → Str → Str → Server → Measured → Server
unfolding published_manifest_for_hash pin_floor judge hex
measured_by env c artifacts ws node_id hash s m =
    let published =
      published_manifest_for_hash c.reads_artifacts artifacts agent_product (hex hash) in
    if m.pinned
    then pin_floor c (ws, node_id) hash published s
    else if not m.drift
    then s
    else judge env c ws node_id hash m.node published s

-- evaluateBinaryDrift
unfoldable pub evaluate_binary_drift :
    Env → Commits → List (Option Manifest) → Str → Str → Str → Server → Server
unfolding record_node_measurement measured_by with_store
evaluate_binary_drift env c artifacts ws node_id hash s =
    if is_empty hash
    then s
    else elim (record_node_measurement c.measures s.facts.store (ws, node_id) hash env.now) [
      | none ↦ s
      | some (st, m) ↦ measured_by env c artifacts ws node_id hash (with_store s st) m
    ]
