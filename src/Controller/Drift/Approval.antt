-- ===== src/Controller/Drift/Approval.antt =====
-- internal/controller/continuousauthz.go: the re-approval of a node and the re-baselining of its binary.
use geneza.Base.{
  Bool, true, not, ◌&&◌, Option, none, some, [], ◌∷◌, ◌++◌, if◌then◌else◌, Str, bytes, equal_fold,
}
use geneza.Base.Int.{pos}
use geneza.Controller.Audit.{hex}
use geneza.Policy.Window.{trim_space}
use geneza.Controller.Nodes.{
  NodeRecord, NodeStore, find_node, set_node_approval, repin_baseline, QuarantineLookup, found,
  not_found, failed, get_quarantine, is_empty,
}
use geneza.Controller.Sessions.{
  Server, Env, emit, audited, networks_repushed, node_approval, node_rebaselined,
}
use geneza.Controller.Drift.{Commits, with_store, quarantine_node}

pub data Admission : Type 0 where
  admitted : Server → Admission
  reason_required admission_failed : Admission

unfoldable pub toggled : Option Server → Admission
toggled none = admission_failed
toggled (some s) = admitted s

cause_of : QuarantineLookup → Option Str
cause_of (found q) = some q.reason
cause_of not_found = none
cause_of failed = none

unfoldable pub in_service : Str → NodeRecord → Str → Str → Option Str → Server → NodeStore → Server
unfolding with_store emit
in_service ws n reason by cleared s st =
    emit (with_store s st)
      (audited n.workspace_id (node_approval n.id by reason cleared) ∷ networks_repushed ws ∷ [])

-- A node is approved, with the cause of the quarantine that this clears.
unfoldable pub approve_cleared :
    Env → Commits → Str → NodeRecord → Str → Str → Option Str → Server → Admission
unfolding set_node_approval in_service
approve_cleared env c ws n reason by cleared s =
    elim (set_node_approval c.approves s.facts.store (ws, n.id) true by env.now) [
      | none ↦ admission_failed
      | some st ↦ admitted (in_service ws n reason by cleared s st)
    ]

-- The approval of a node, by what the lookup of its quarantine finds.
unfoldable pub approve_found :
    Env → Commits → Str → NodeRecord → Str → Str → QuarantineLookup → Server → Admission
unfolding approve_cleared
approve_found env c ws n reason by failed s = admission_failed
approve_found env c ws n reason by not_found s = approve_cleared env c ws n reason by none s
approve_found env c ws n reason by (found q) s =
    if is_empty reason
    then reason_required
    else approve_cleared env c ws n reason by (some q.reason) s

-- approveNodeWithReason
unfoldable pub approve_node_with_reason :
    Env → Commits → Str → NodeRecord → Bool → Str → Str → Server → Admission
unfolding quarantine_node get_quarantine approve_found toggled trim_space
approve_node_with_reason env c ws n approve reason by s =
    let why = trim_space reason in
    if not approve
    then toggled (quarantine_node env c ws n.id (if is_empty why then bytes "manual" else why) by s)
    else approve_found env c ws n why by
        (get_quarantine c.reads_quarantine s.facts.store (ws, n.id)) s

pub data Rebaseline : Type 0 where
  -- the hash that is blessed now
  rebaselined : Str → Server → Rebaseline
  rebaseline_reason node_not_found no_measurement measurement_changed repin_failed : Rebaseline
  -- the baseline has moved all the same
  audit_failed reapproval_failed : Server → Rebaseline

-- A node is returned to service in the same call.
returned_to_service : Env → Commits → Str → NodeRecord → Str → Str → Server → Rebaseline
unfolding approve_node_with_reason hex
returned_to_service env c ws n reason by s =
    if n.approved
    then rebaselined (hex n.last_binary_hash) s
    else elim (approve_node_with_reason env c ws n true (bytes "rebaseline: " ++ reason) by s) [
      | admitted s' ↦ rebaselined (hex n.last_binary_hash) s'
      | _ ↦ reapproval_failed s
    ]

rebaselined_found : Env → Commits → Str → Str → Str → Str → Server → Option NodeRecord → Rebaseline
unfolding hex repin_baseline returned_to_service with_store emit
rebaselined_found env c ws reason expect by s none = node_not_found
rebaselined_found env c ws reason expect by s (some n) =
    if is_empty n.last_binary_hash
    then no_measurement
    else if not (is_empty expect) && not (equal_fold expect (hex n.last_binary_hash))
    then measurement_changed
    else elim (repin_baseline c.repins s.facts.store (ws, n.id) n.last_binary_hash (pos 0)) [
      | none ↦ repin_failed
      | some st ↦
          let s' : Server = with_store s st in
          let told = emit s' (
            audited ws (
              node_rebaselined n.id by (hex n.last_binary_hash) (hex n.approved_binary_hash) reason)
            ∷ []) in
          if not env.audits then audit_failed s' else returned_to_service env c ws n reason by told
    ]

-- rebaselineNode
unfoldable pub rebaseline_node : Env → Commits → Str → Str → Str → Str → Str → Server → Rebaseline
unfolding find_node rebaselined_found trim_space
rebaseline_node env c ws ref reason expect by s =
    let why = trim_space reason in
    if is_empty why
    then rebaseline_reason
    else if not c.reads_node
    then node_not_found
    else rebaselined_found env c ws why (trim_space expect) by s (find_node s.facts.store ws ref)
