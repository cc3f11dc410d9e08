-- ===== src/Controller/Drift/Verdict.antt =====
-- What the verdict on a measurement leaves of the node.
use geneza.Base.{
  [], ◌∷◌, ◌≡◌, refl, sym, Bool, true, false, not, ◌&&◌, Option, some, List, Bool-cases, inl, inr,
  Str, bytes, bytes_eq, length, ◌==◌,
}
use geneza.Base.Int.{pos, ltb_ℤ}
use geneza.Controller.Nodes.{NodeRecord, get_node, measure, write_node, is_empty}
use geneza.Controller.Nodes.Writes.{record_node_measurement-fails, record_node_measurement-found}
use geneza.Controller.Sessions.{Server, Env}
use geneza.Controller.Drift.{
  measured_by, Manifest, evaluate_binary_drift, release, unpublished, lookup_failed,
  drift_quarantine, Published, judge, with_store, Commits,
}

-- A changed binary that is not accepted: a release older than the floor, or one that is no release,
-- or that cannot be looked up.
unfoldable pub condemned : NodeRecord → Published → Bool
condemned n (release m) =
    ltb_ℤ (pos 0) n.approved_binary_created_unix
    && ltb_ℤ m.created_unix n.approved_binary_created_unix
condemned n unpublished = true
condemned n lookup_failed = true

pub judge-condemned :
    (env : Env) (c : Commits) (ws node_id hash : Str) (n : NodeRecord) (p : Published) (s : Server)
    → condemned n p ≡ true
    → (reason : Str) × (judge env c ws node_id hash n p s
        ≡ drift_quarantine env c ws node_id reason env.now s)
unfolding judge condemned
judge-condemned env c ws node_id hash n (release m) s h = (bytes "binary_downgrade", rw h refl)
judge-condemned env c ws node_id hash n unpublished s h = (_, refl)
judge-condemned env c ws node_id hash n lookup_failed s h = (_, refl)

size_full : (hash : Str) → length hash == 32 ≡ true → is_empty hash ≡ false
size_full [] h = sym h
size_full (b ∷ hash) h = refl

-- The measurement of a node that is there commits, and the verdict is on what it shows.
pub evaluate-measured :
    (env : Env) (c : Commits) (artifacts : List (Option Manifest)) (ws node_id hash : Str)
    (s : Server) (n : NodeRecord)
    → get_node s.facts.store (ws, node_id) ≡ some n
    → length hash == 32 ≡ true
    → c.measures ≡ true
    → evaluate_binary_drift env c artifacts ws node_id hash s
      ≡ measured_by env c artifacts ws node_id hash
          (with_store s (write_node s.facts.store (ws, node_id) (measure hash env.now)))
          (record {
            drift =
                n.approved
                && not (is_empty n.approved_binary_hash)
                && not (bytes_eq n.approved_binary_hash hash);
            pinned = n.approved && is_empty n.approved_binary_hash;
            node = measure hash env.now n;
          })
unfolding evaluate_binary_drift
evaluate-measured env c artifacts ws node_id hash s n there size measures =
    rw
      (
        evaluate_binary_drift,
        size_full hash size,
        record_node_measurement-found s.facts.store (ws, node_id) n there c.measures hash env.now
            size measures,
      )
      refl

-- A measurement that is not taken changes nothing.
pub unmeasured :
    (env : Env) (c : Commits) (artifacts : List (Option Manifest)) (ws node_id hash : Str)
    (s : Server) (n : NodeRecord)
    → get_node s.facts.store (ws, node_id) ≡ some n
    → length hash == 32 && c.measures ≡ false
    → evaluate_binary_drift env c artifacts ws node_id hash s ≡ s
unfolding evaluate_binary_drift
unmeasured env c artifacts ws node_id hash s n there h = elim (Bool-cases (is_empty hash)) [
  | inl e ↦ rw (evaluate_binary_drift, e) refl
  | inr e ↦
      rw
        (
          evaluate_binary_drift,
          e,
          record_node_measurement-fails s.facts.store (ws, node_id) n there c.measures hash env.now
              h,
        )
        refl
]
