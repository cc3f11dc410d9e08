-- ===== src/Controller/Drift/Gate.antt =====
-- A verdict against a node, and its gate.
use geneza.Base.{
  ◌≡◌, refl, ◌∙◌, ap, Bool, true, false, not, ◌||◌, Option, none, some, Bool-cases, inl, inr, arith,
  if◌then◌else◌, Str, bytes, map, Distinct, ◌⊎◌,
}
use geneza.Controller.Rows.{Key}
use geneza.Controller.Nodes.{NodeRecord, get_node, quarantined_store, approval}
use geneza.Controller.Nodes.Writes.{
  closed, quarantine_node-found, get-quarantined, set_node_approval-found, get-approved,
}
use geneza.Controller.Sessions.{session_key, Facts, Server, Env, emit}
use geneza.Controller.Reauth.Ops.{on_node, revoke_by_node_id}
use geneza.Controller.Reauth.Suspension.{revoke_where-facts}
use geneza.Controller.Drift
use geneza.Controller.Drift.{
  measured_by, Manifest, evaluate_binary_drift, release, unpublished, lookup_failed,
  drift_quarantine, Published, judge, deny_anyway, with_store, cut_node, Commits,
}

abbrev pub node_of : Server → Key → Option NodeRecord
node_of s k = get_node s.facts.store k

-- A node that is quarantined has its gate closed, and nothing else of the node changes.
module _ (env : Env) (ws node_id : Str) (reason by : Str) (s : Server)
    (d : Distinct (map session_key s.sessions)) where
  pub cut_node-facts : (cut_node env ws node_id reason by s).facts ≡ s.facts
  unfolding cut_node revoke_by_node_id emit
  cut_node-facts = revoke_where-facts env (on_node ws node_id) _ s d

module _ (env : Env) (c : Commits) (ws node_id : Str) (s : Server) (n : NodeRecord)
    (there : get_node s.facts.store (ws, node_id) ≡ some n)
    (d : Distinct (map session_key s.sessions)) where
  abbrev pub k : Key
  k = (ws, node_id)

  pub quarantine_node-cut :
      (reason by : Str)
      → Drift.quarantine_node env c ws node_id reason by s ≡ (
          if not c.quarantines
          then none
          else some (
              cut_node env ws node_id reason by
                (with_store s (quarantined_store s.facts.store k reason by env.now))))
  unfolding Drift.quarantine_node
  quarantine_node-cut reason by =
      rw
        (
          Drift.quarantine_node,
          quarantine_node-found s.facts.store k n there c.quarantines reason by env.now,
        )
        (on_commit c.quarantines)
    where
      on_commit :
          (b : Bool)
          → (elim (if not b
              then none
              else some (quarantined_store s.facts.store k reason by env.now)) [
                | none ↦ none
                | some st ↦ some (cut_node env ws node_id reason by (with_store s st))
              ])
            ≡ (if not b
                then none
                else some (
                    cut_node env ws node_id reason by
                      (with_store s (quarantined_store s.facts.store k reason by env.now))))
      on_commit true = refl
      on_commit false = refl

  quarantine_node-fails :
      (reason by : Str)
      → c.quarantines ≡ false
      → Drift.quarantine_node env c ws node_id reason by s ≡ none
  quarantine_node-fails reason by q = rw (quarantine_node-cut reason by, q) refl

  pub cut-closed :
      (reason by : Str)
      → node_of
          (cut_node env ws node_id reason by
            (with_store s (quarantined_store s.facts.store k reason by env.now)))
          k
        ≡ some (closed n)
  unfolding with_store
  cut-closed reason by =
      ap (λ (f : Facts). get_node f.store k) (cut_node-facts env ws node_id reason by _ d)
      ∙ get-quarantined s.facts.store k n there reason by env.now

  denied : c.approves ≡ true → node_of (deny_anyway env c k s none) k ≡ some (closed n)
  unfolding deny_anyway with_store
  denied h =
      rw
        (
          deny_anyway,
          set_node_approval-found s.facts.store k n there c.approves false (bytes "system") env.now,
          h,
        )
        (unfold closed approval in
          get-approved s.facts.store k n there false (bytes "system") env.now)

  -- Whether or not the quarantine commits, the gate is closed if the defensive write does.
  unanswered : c.approves ≡ false → node_of (deny_anyway env c k s none) k ≡ some n
  unfolding deny_anyway
  unanswered h =
      rw
        (
          deny_anyway,
          set_node_approval-found s.facts.store k n there c.approves false (bytes "system") env.now,
          h,
        )
        there

  pub deny_anyway-closed :
      (reason : Str)
      → c.quarantines || c.approves ≡ true
      → node_of
          (deny_anyway env c k s (Drift.quarantine_node env c ws node_id reason (bytes "system") s))
          k
        ≡ some (closed n)
  deny_anyway-closed reason h =
      rw (quarantine_node-cut reason (bytes "system")) (on_commit c.quarantines h)
    where
      on_commit :
          (b : Bool)
          → b || c.approves ≡ true
          → node_of
              (deny_anyway env c k s (
                if not b
                then none
                else some (
                    cut_node env ws node_id reason (bytes "system") (
                      with_store s
                        (quarantined_store s.facts.store k reason (bytes "system") env.now)))))
              k
            ≡ some (closed n)
      on_commit true h = unfold deny_anyway in cut-closed reason (bytes "system")
      on_commit false h = denied h

  -- Whatever commits, the gate closes or the node is as it was.
  pub deny_anyway-cases :
      (reason : Str)
      → (node_of
            (deny_anyway env c k s
              (Drift.quarantine_node env c ws node_id reason (bytes "system") s))
            k
          ≡ some (closed n))
        ⊎ (node_of
              (deny_anyway env c k s
                (Drift.quarantine_node env c ws node_id reason (bytes "system") s))
              k
            ≡ some n)
  deny_anyway-cases reason = elim (Bool-cases (c.quarantines || c.approves)) [
    | inl h ↦ inl (deny_anyway-closed reason h)
    | inr h ↦ inr (as_it_was (ground (arith, h)) (ground (arith, h)))
  ]
    where
      as_it_was :
          c.quarantines ≡ false
          → c.approves ≡ false
          → node_of
              (deny_anyway env c k s
                (Drift.quarantine_node env c ws node_id reason (bytes "system") s))
              k
            ≡ some n
      as_it_was q a =
          ap (λ o. node_of (deny_anyway env c k s o) k)
            (quarantine_node-fails reason (bytes "system") q)
          ∙ unanswered a
