-- ===== src/Controller/Drift/Reapproval.antt =====
-- A node that is approved again, and its next measurement.
use geneza.Base.{
  ◌≡◌, refl, sym, ◌∙◌, ap, subst, Bool, true, false, not, ◌||◌, Option, none, some, List,
  Bool-cases, inl, inr, if◌then◌else◌, Str, bytes_eq, map, Distinct, length, ◌==◌,
}
use mathlib.Core.Option.{some-injective, none-ne-some}
use geneza.Base.Int.{ℤ, ltb_ℤ}
use geneza.Controller.Audit.{hex}
use geneza.Policy.Window.{trim_space}
use geneza.Controller.Nodes.{
  NodeRecord, get_node, approval, is_empty, approved_store, QuarantineLookup, found, not_found,
  failed, set_node_approval,
}
use geneza.Controller.Nodes.Writes.{closed, set_node_approval-found, get-approved}
use geneza.Controller.Sessions.{session_key, Server, Env, emit}
use geneza.Controller.Drift.{
  release, unpublished, lookup_failed, Commits, Manifest, Published, published_manifest_for_hash,
  agent_product, evaluate_binary_drift, with_store,
}
use geneza.Controller.Drift.Verdict.{condemned}
use geneza.Controller.Drift.Condemned.{evaluate_binary_drift-condemns}
use geneza.Controller.Drift.Approval.{
  Admission, admitted, reason_required, admission_failed, approve_cleared, approve_found,
  approve_node_with_reason, in_service,
}

abbrev server_of : Admission → Option Server
server_of (admitted s) = some s
server_of reason_required = none
server_of admission_failed = none

with_reason :
    (b : Bool) (x : Admission) (s' : Server)
    → (if b then reason_required else x) ≡ admitted s'
    → x ≡ admitted s'
with_reason true x s' e = absurd (none-ne-some s' (ap server_of e))
with_reason false x s' e = e

still_condemned :
    (n : NodeRecord) (by : Str) (now : ℤ) (p : Published)
    → condemned n p ≡ true
    → condemned (record n { approved = true; approved_by = by; approved_at_unix = now }) p ≡ true
unfolding condemned
still_condemned n by now (release m) h = h
still_condemned n by now unpublished h = h
still_condemned n by now lookup_failed h = h

module _ (env : Env) (c : Commits) (ws : Str) (n : NodeRecord) (by : Str) (s : Server)
    (there : get_node s.facts.store (ws, n.id) ≡ some n) where
  commit : set_node_approval c.approves s.facts.store (ws, n.id) true by env.now ≡ (
      if not c.approves
      then none
      else some (approved_store s.facts.store (ws, n.id) true by env.now))
  commit = set_node_approval-found s.facts.store (ws, n.id) n there c.approves true by env.now

  module _ (reason : Str) (cleared : Option Str) where
    cleared_fails :
        c.approves ≡ false → approve_cleared env c ws n reason by cleared s ≡ admission_failed
    unfolding approve_cleared
    cleared_fails h = rw (approve_cleared, commit, h) refl

    cleared_commits :
        c.approves ≡ true
        → approve_cleared env c ws n reason by cleared s
          ≡ admitted (
              in_service ws n reason by cleared s
                (approved_store s.facts.store (ws, n.id) true by env.now))
    unfolding approve_cleared
    cleared_commits h = rw (approve_cleared, commit, h) refl

    -- An approval that succeeds leaves the node approved, now, with the baseline that it had.
    approve_cleared-inv :
        (s' : Server)
        → approve_cleared env c ws n reason by cleared s ≡ admitted s'
        → (get_node s'.facts.store (ws, n.id) ≡ some (approval true by env.now n))
          × (s'.sessions ≡ s.sessions)
    unfolding in_service with_store emit
    approve_cleared-inv s' e = elim (Bool-cases c.approves) [
      | inr h ↦ absurd (none-ne-some s' (ap server_of (sym (cleared_fails h) ∙ e)))
      | inl h ↦
          let same = some-injective _ s' (ap server_of (sym (cleared_commits h) ∙ e)) in
          (
            ap (λ (x : Server). get_node x.facts.store (ws, n.id)) (sym same)
                ∙ get-approved s.facts.store (ws, n.id) n there true by env.now,
            ap (λ (x : Server). x.sessions) (sym same),
          )
    ]

  approve_found-inv :
      (reason : Str) (q : QuarantineLookup) (s' : Server)
      → approve_found env c ws n reason by q s ≡ admitted s'
      → (get_node s'.facts.store (ws, n.id) ≡ some (approval true by env.now n))
        × (s'.sessions ≡ s.sessions)
  unfolding approve_found
  approve_found-inv reason failed s' e = absurd (none-ne-some s' (ap server_of e))
  approve_found-inv reason not_found s' e = approve_cleared-inv reason none s' e
  approve_found-inv reason (found q) s' e =
      approve_cleared-inv reason (some q.reason) s' (with_reason (is_empty reason) _ s' e)

  -- A node that is quarantined for drift and approved again while it runs the same binary is out of
  -- service after its next measurement: approval keeps the baseline, so no approval, whoever gives it
  -- and for whatever reason, makes a binary that is not accepted pass.
  pub reapproval-condemns :
      (env' : Env) (c' : Commits) (artifacts : List (Option Manifest)) (reason hash : Str)
      (s' : Server)
      → Distinct (map session_key s.sessions)
      → approve_node_with_reason env c ws n true reason by s ≡ admitted s'
      → is_empty n.approved_binary_hash ≡ false
      → bytes_eq n.approved_binary_hash hash ≡ false
      → length hash == 32 ≡ true
      → condemned n
          (published_manifest_for_hash c'.reads_artifacts artifacts agent_product (hex hash))
        ≡ true
      → ltb_ℤ env'.now env.now ≡ false
      → c'.measures ≡ true
      → c'.quarantines || c'.approves ≡ true
      → get_node (evaluate_binary_drift env' c' artifacts ws n.id hash s').facts.store (ws, n.id)
        ≡ some (closed (record n { last_binary_hash = hash; last_measured_unix = env'.now }))
  unfolding approve_node_with_reason approval closed
  reapproval-condemns env' c' artifacts reason hash s' d e pinned changed size bad later measures
        commits =
      let inv = approve_found-inv (trim_space reason) _ s' e in
      evaluate_binary_drift-condemns env' c' ws n.id artifacts hash s' (approval true by env.now n)
        inv.0 (subst (λ rows. Distinct (map session_key rows)) (sym inv.1) d) refl pinned changed
        size (still_condemned n by env.now _ bad) later measures commits
