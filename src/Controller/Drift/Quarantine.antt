-- ===== src/Controller/Drift/Quarantine.antt =====
-- What a quarantine does to the sessions of the node.
use geneza.Base.{
  ◌≡◌, refl, sym, ◌∙◌, ap, Bool, true, false, not, none, some, Bool-cases, inl, inr, arith,
  if◌then◌else◌, Str, bytes, bytes_eq_iff, map, Distinct, ◌++◌,
}
use mathlib.Core.Option.{some-injective, none-ne-some}
use geneza.Controller.Rows.{Key}
use geneza.Controller.Nodes.{NodeRecord, get_node, quarantined_store}
use geneza.Controller.Nodes.Writes.{closed}
use geneza.Controller.Sessions.{
  SessionRecord, session_key, because, Facts, Server, Env, get_session, is_live, emit,
}
use geneza.Controller.Reauth.{
  node_of, reauthorize, refuse, unapproved, presence_stale, is_suspended,
}
use geneza.Controller.Reauth.Ops.{on_node, revoke_by_node_id}
use geneza.Controller.Reauth.Suspension.{revoke_where-cuts}
use geneza.Controller.Drift
use geneza.Controller.Drift.{Commits, cut_node, with_store}
use geneza.Controller.Drift.Gate.{quarantine_node-cut, cut-closed}

-- The session of a node whose gate is closed is refused, whatever else holds.
unapproved-reauthorize :
    (env : Env) (f : Facts) (r : SessionRecord) (n : NodeRecord)
    → env.reads_node (r.workspace_id, r.node_id) ≡ true
    → get_node f.store (r.workspace_id, r.node_id) ≡ some n
    → n.approved ≡ false
    → (reauthorize env f r).allow ≡ false
unfolding reauthorize refuse unapproved node_of
unapproved-reauthorize env f r n reads there shut =
    elim (Bool-cases (is_suspended env f r.workspace_id r.provider r.subject)) [
      | inl a ↦ rw (reauthorize, a) refl
      | inr a ↦ elim (Bool-cases (presence_stale env r)) [
        | inl b ↦ rw (reauthorize, a, b) refl
        | inr b ↦ rw (reauthorize, a, b, reads, there, shut) refl
      ]
    ]

cut_node-cuts :
    (env : Env) (ws node_id reason by : Str) (s : Server) (k : Key) (r' : SessionRecord)
    → env.lists ≡ true
    → Distinct (map session_key s.sessions)
    → get_session (cut_node env ws node_id reason by s) k ≡ some r'
    → on_node ws node_id r' ≡ true
    → is_live r'.state ≡ false
unfolding cut_node revoke_by_node_id emit get_session
cut_node-cuts env ws node_id reason by s k r' lists d found mine =
    revoke_where-cuts env (on_node ws node_id) (because (bytes "quarantined: " ++ reason)) s k r'
      lists d found mine

on_node-key :
    (ws node_id : Str) (r : SessionRecord)
    → on_node ws node_id r ≡ true
    → Path Key (r.workspace_id, r.node_id) (ws, node_id)
unfolding on_node
on_node-key ws node_id r h =
    let w = (bytes_eq_iff r.workspace_id ws).0 (ground arith) in
    let n = (bytes_eq_iff r.node_id node_id).0 (ground arith) in (λ i. (w i, n i))

-- A quarantine that succeeds, by an administrator or by a verdict, with the sessions listed and the
-- writes of their rows committed, leaves no session of the node active or detached; and every later
-- decision denies them as long as the record of the node stays as the quarantine left it and can be
-- read, whatever becomes of the policies and the suspensions.
pub quarantine_node-cuts :
    (env env' : Env) (c : Commits) (ws node_id reason by : Str) (s s' : Server) (n : NodeRecord)
    (f : Facts) (k : Key) (r' : SessionRecord)
    → env.lists ≡ true
    → Distinct (map session_key s.sessions)
    → get_node s.facts.store (ws, node_id) ≡ some n
    → Drift.quarantine_node env c ws node_id reason by s ≡ some s'
    → get_session s' k ≡ some r'
    → on_node ws node_id r' ≡ true
    → env'.reads_node (ws, node_id) ≡ true
    → get_node f.store (ws, node_id) ≡ get_node s'.facts.store (ws, node_id)
    → (is_live r'.state ≡ false) × ((reauthorize env' f r').allow ≡ false)
unfolding with_store
quarantine_node-cuts env env' c ws node_id reason by s s' n f k r' lists d there e found mine reads
      stands =
    by_commit c.quarantines (sym (quarantine_node-cut env c ws node_id s n there d reason by) ∙ e)
  where
    by_commit :
        (b : Bool)
        → (if not b
            then none
            else some (
                cut_node env ws node_id reason by
                  (with_store s (quarantined_store s.facts.store (ws, node_id) reason by env.now))))
          ≡ some s'
        → (is_live r'.state ≡ false) × ((reauthorize env' f r').allow ≡ false)
    by_commit false h = absurd (none-ne-some s' h)
    by_commit true h =
        let same = some-injective _ s' h in
        let closed_here =
          ap (λ (x : Server). get_node x.facts.store (ws, node_id)) (sym same)
          ∙ cut-closed env c ws node_id s n there d reason by in
        let key = on_node-key ws node_id r' mine in
        (
          cut_node-cuts env ws node_id reason by _ k r' lists d
              (ap (λ (x : Server). get_session x k) same ∙ found) mine,
          unapproved-reauthorize env' f r' (closed n) (ap (λ j. env'.reads_node j) key ∙ reads)
              (ap (λ j. get_node f.store j) key ∙ stands ∙ closed_here) (unfold closed in refl),
        )
