-- ===== src/Controller/Drift/Baseline.antt =====
-- When the blessed binary of a node moves.
use geneza.Base.{
  ◌≡◌, refl, sym, ◌∙◌, ap, Bool, true, false, ◌&&◌, Option, some, List, Bool-cases, inl, inr, arith,
  Str, map, Distinct, length, ◌==◌,
}
use geneza.Base.Int.{ℤ, pos, ltb_ℤ}
use geneza.Controller.Audit.{hex}
use geneza.Controller.Nodes.{NodeRecord, get_node, measure, write_node, is_empty, bless}
use geneza.Controller.Nodes.Writes.{closed, get-measured}
use geneza.Controller.Sessions.{session_key, Server, Env}
use geneza.Controller.Drift.{
  Commits, Manifest, Published, release, unpublished, lookup_failed, published_manifest_for_hash,
  agent_product, with_store, judge, measured_by, evaluate_binary_drift,
}
use geneza.Controller.Drift.Verdict.{unmeasured, evaluate-measured}
use geneza.Controller.Drift.Moves.{
  Moved, kept, pinned, updated, Left, drift_quarantine-Left, accept_release-Left, pin_floor-Left,
}

measure-first :
    (hash : Str) (at : ℤ) (n : NodeRecord)
    → n.approved && is_empty n.approved_binary_hash ≡ true
    → (n.approved ≡ true)
      × (is_empty n.approved_binary_hash ≡ true)
      × ((measure hash at n).approved_binary_hash ≡ hash)
unfolding measure
measure-first hash at n h = (ground (arith, h), ground (arith, h), rw h refl)

measure-later :
    (hash : Str) (at : ℤ) (n : NodeRecord)
    → n.approved && is_empty n.approved_binary_hash ≡ false
    → (measure hash at n).approved_binary_hash ≡ n.approved_binary_hash
unfolding measure
measure-later hash at n h = rw h refl

measure-floor :
    (hash : Str) (at : ℤ) (n : NodeRecord)
    → (measure hash at n).approved_binary_created_unix ≡ n.approved_binary_created_unix
unfolding measure
measure-floor hash at n = elim (Bool-cases (n.approved && is_empty n.approved_binary_hash)) [
  | inl h ↦ rw h refl
  | inr h ↦ rw h refl
]

module _ (env : Env) (c : Commits) (ws node_id : Str) where
  judge-Left :
      (hash : Str) (q : Published) (s : Server) (n old : NodeRecord)
      → get_node s.facts.store (ws, node_id) ≡ some n
      → Distinct (map session_key s.sessions)
      → old.approved ≡ true
      → n.approved_binary_hash ≡ old.approved_binary_hash
      → n.approved_binary_created_unix ≡ old.approved_binary_created_unix
      → Left (judge env c ws node_id hash n q s) (ws, node_id) old hash q
  unfolding judge closed
  judge-Left hash unpublished s n old there d approved same floor =
      drift_quarantine-Left env c ws node_id _ env.now s n old hash unpublished there d
        (kept same floor) (kept same floor)
  judge-Left hash lookup_failed s n old there d approved same floor =
      drift_quarantine-Left env c ws node_id _ env.now s n old hash lookup_failed there d
        (kept same floor) (kept same floor)
  judge-Left hash (release m) s n old there d approved same floor =
      elim (Bool-cases (
        ltb_ℤ (pos 0) n.approved_binary_created_unix
        && ltb_ℤ m.created_unix n.approved_binary_created_unix)) [
          | inl h ↦ rw h (
              drift_quarantine-Left env c ws node_id _ env.now s n old hash (release m) there d
                (kept same floor) (kept same floor))
          | inr h ↦ rw h (
              accept_release-Left env c ws node_id hash m s n old (release m) there
                (kept same floor)
                (unfold bless in updated m refl approved (sym (rw floor refl) ∙ h) refl refl))
        ]

  measured_by-Left :
      (artifacts : List (Option Manifest)) (hash : Str) (s : Server) (n old : NodeRecord)
      (first changed : Bool)
      → get_node s.facts.store (ws, node_id) ≡ some n
      → Distinct (map session_key s.sessions)
      → (first ≡ true
          → (old.approved ≡ true)
            × (is_empty old.approved_binary_hash ≡ true)
            × (n.approved_binary_hash ≡ hash))
      → (first ≡ false → n.approved_binary_hash ≡ old.approved_binary_hash)
      → n.approved_binary_created_unix ≡ old.approved_binary_created_unix
      → (changed ≡ true → old.approved ≡ true)
      → Left
          (measured_by env c artifacts ws node_id hash s
            (record { drift = changed; pinned = first; node = n }))
          (ws, node_id)
          old
          hash
          (published_manifest_for_hash c.reads_artifacts artifacts agent_product (hex hash))
  unfolding measured_by
  measured_by-Left artifacts hash s n old true changed there d new same floor admitted =
      let first = new refl in
      pin_floor-Left env c ws node_id hash _ s n old _ there
        (pinned first.0 first.1 first.2 (inl floor))
        (λ m e. unfold bless in pinned first.0 first.1 refl (inr (m, e, refl)))
  measured_by-Left artifacts hash s n old false false there d new same floor admitted =
      (n, there, kept (same refl) floor)
  measured_by-Left artifacts hash s n old false true there d new same floor admitted =
      judge-Left hash _ s n old there d (admitted refl) (same refl) floor

  -- After a measurement, whatever commits, the blessed binary of the node and its anti-rollback
  -- floor are as they were, or the measurement was the first one of an approved node, which leaves
  -- the floor or sets it to the time of the release that the binary is, or the new binary is a
  -- release of the controller that is not older than the floor, and its time is the new floor.
  pub evaluate_binary_drift-Moved :
      (artifacts : List (Option Manifest)) (hash : Str) (s : Server) (n : NodeRecord)
      → get_node s.facts.store (ws, node_id) ≡ some n
      → Distinct (map session_key s.sessions)
      → (n' : NodeRecord) × (get_node
            (evaluate_binary_drift env c artifacts ws node_id hash s).facts.store
            (ws, node_id)
          ≡ some n')
        × Moved n n' hash
            (published_manifest_for_hash c.reads_artifacts artifacts agent_product (hex hash))
  evaluate_binary_drift-Moved artifacts hash s n there d =
      elim (Bool-cases (length hash == 32 && c.measures)) [
        | inr h ↦ (
          n,
          ap (λ (x : Server). get_node x.facts.store (ws, node_id))
                (unmeasured env c artifacts ws node_id hash s n there h)
              ∙ there,
          kept refl refl,
        )
        | inl h ↦
            rw
              (evaluate-measured env c artifacts ws node_id hash s n there (ground (arith, h))
                (ground (arith, h)))
              (measured_by-Left artifacts hash _ (measure hash env.now n) n
                (n.approved && is_empty n.approved_binary_hash) _
                (unfold with_store write_node get_node in
                  get-measured s.facts.store (ws, node_id) n there hash env.now)
                (unfold with_store in d) (measure-first hash env.now n)
                (measure-later hash env.now n) (measure-floor hash env.now n)
                (λ e. ground (arith, e)))
      ]
