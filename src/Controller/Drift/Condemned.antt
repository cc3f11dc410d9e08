-- ===== src/Controller/Drift/Condemned.antt =====
-- A node whose binary changed to one that is not accepted.
use geneza.Base.{
  ◌≡◌, refl, ◌∙◌, ap, true, false, not, ◌&&◌, ◌||◌, Option, some, List, arith, Str, bytes_eq, map,
  Distinct, length, ◌==◌,
}
use geneza.Base.Int.{ℤ, ltb_ℤ}
use geneza.Controller.Audit.{hex}
use geneza.Controller.Nodes.{NodeRecord, get_node, measure, write_node, is_empty}
use geneza.Controller.Nodes.Writes.{closed, get-measured}
use geneza.Controller.Sessions.{session_key, Server, Env}
use geneza.Controller.Drift.{
  release, unpublished, lookup_failed, Commits, Manifest, Published, published_manifest_for_hash,
  agent_product, with_store, drift_quarantine, fresh_approval, judge, measured_by,
  evaluate_binary_drift,
}
use geneza.Controller.Drift.Verdict.{evaluate-measured, condemned, judge-condemned}
use geneza.Controller.Drift.Gate.{deny_anyway-closed}

module _ (env : Env) (c : Commits) (ws node_id : Str) where
  -- A verdict that no fresher approval supersedes closes the gate.
  drift_quarantine-closed :
      (reason : Str) (measured : ℤ) (s : Server) (n : NodeRecord)
      → get_node s.facts.store (ws, node_id) ≡ some n
      → Distinct (map session_key s.sessions)
      → ltb_ℤ measured n.approved_at_unix ≡ false
      → c.quarantines || c.approves ≡ true
      → get_node (drift_quarantine env c ws node_id reason measured s).facts.store (ws, node_id)
        ≡ some (closed n)
  unfolding drift_quarantine fresh_approval
  drift_quarantine-closed reason measured s n there d stale commits =
      rw (drift_quarantine, there, stale_test)
        (deny_anyway-closed env c ws node_id s n there d reason commits)
    where
      stale_test : (c.reads_node && (n.approved && ltb_ℤ measured n.approved_at_unix)) ≡ false
      stale_test = ground (arith, stale)

  judge-closed :
      (hash : Str) (p : Published) (s : Server) (n : NodeRecord)
      → get_node s.facts.store (ws, node_id) ≡ some n
      → Distinct (map session_key s.sessions)
      → ltb_ℤ env.now n.approved_at_unix ≡ false
      → c.quarantines || c.approves ≡ true
      → condemned n p ≡ true
      → get_node (judge env c ws node_id hash n p s).facts.store (ws, node_id) ≡ some (closed n)
  judge-closed hash p s n there d stale commits bad =
      let j = judge-condemned env c ws node_id hash n p s bad in
      rw j.1 (drift_quarantine-closed j.0 env.now s n there d stale commits)

  drifted :
      (artifacts : List (Option Manifest)) (hash : Str) (s : Server) (n : NodeRecord)
      (old : NodeRecord)
      → old.approved ≡ true
      → is_empty old.approved_binary_hash ≡ false
      → bytes_eq old.approved_binary_hash hash ≡ false
      → measured_by env c artifacts ws node_id hash s (record {
        drift =
            old.approved
            && not (is_empty old.approved_binary_hash)
            && not (bytes_eq old.approved_binary_hash hash);
        pinned = old.approved && is_empty old.approved_binary_hash;
        node = n;
      })
        ≡ judge env c ws node_id hash n
            (published_manifest_for_hash c.reads_artifacts artifacts agent_product (hex hash))
            s
  unfolding measured_by
  drifted artifacts hash s n old approved pinned changed =
      rw (measured_by, approved, pinned, changed) refl

  same_condemned :
      (n : NodeRecord) (hash : Str) (at : ℤ) (p : Published)
      → condemned n p ≡ true
      → condemned (record n { last_binary_hash = hash; last_measured_unix = at }) p ≡ true
  unfolding condemned
  same_condemned n hash at (release m) h = h
  same_condemned n hash at unpublished h = h
  same_condemned n hash at lookup_failed h = h

  -- A changed binary of an approved node that is not a release of the controller, that is older than
  -- the release the node was blessed with, or that cannot be looked up, takes the node out of
  -- service, whether the quarantine commits or only the defensive write: the node ends unapproved,
  -- and its blessed binary and its floor are as they were.
  pub evaluate_binary_drift-condemns :
      (artifacts : List (Option Manifest)) (hash : Str) (s : Server) (n : NodeRecord)
      → get_node s.facts.store (ws, node_id) ≡ some n
      → Distinct (map session_key s.sessions)
      → n.approved ≡ true
      → is_empty n.approved_binary_hash ≡ false
      → bytes_eq n.approved_binary_hash hash ≡ false
      → length hash == 32 ≡ true
      → condemned n
          (published_manifest_for_hash c.reads_artifacts artifacts agent_product (hex hash))
        ≡ true
      → ltb_ℤ env.now n.approved_at_unix ≡ false
      → c.measures ≡ true
      → c.quarantines || c.approves ≡ true
      → get_node (evaluate_binary_drift env c artifacts ws node_id hash s).facts.store (ws, node_id)
        ≡ some (closed (record n { last_binary_hash = hash; last_measured_unix = env.now }))
  unfolding with_store write_node
  evaluate_binary_drift-condemns artifacts hash s n there d approved pinned changed size bad stale
        measures commits =
      let before : NodeRecord = record n {
        last_binary_hash = hash;
        last_measured_unix = env.now;
      } in
      let s' = with_store s (write_node s.facts.store (ws, node_id) (measure hash env.now)) in
      let p = published_manifest_for_hash c.reads_artifacts artifacts agent_product (hex hash) in
      let kept : (measure hash env.now n ≡ before) = unfold measure in rw (approved, pinned) refl in
      rw (evaluate-measured env c artifacts ws node_id hash s n there size measures, kept)
        (ap (λ (x : Server). get_node x.facts.store (ws, node_id))
            (drifted artifacts hash s' before n approved pinned changed)
          ∙ judge-closed hash p s' before
              (get-measured s.facts.store (ws, node_id) n there hash env.now
                ∙ ap (λ x. some x) kept)
              d stale commits (same_condemned n hash env.now p bad))
