-- ===== src/Controller/Reauth/Ops.antt =====
-- internal/controller/continuousauthz.go and nodecontrol.go: the operations over all sessions, and
-- the events of a node. A loop takes its list of sessions once, before its first step.
use geneza.Base.{
  Bool, false, not, ◌&&◌, ◌||◌, Option, none, some, List, [], ◌∷◌, ◌++◌, ℕ, suc, if◌then◌else◌, Str,
  bytes, bytes_eq,
}
use geneza.Base.Dict.{put, remove}
use geneza.Controller.DenyCache.{suspended, invalidate}
use geneza.Controller.Rows.{Key}
use geneza.Controller.Sessions.{
  RevokeReason, because, SessionRecord, suspended_principal, unsuspended_principal, audited,
  browser_sessions_dropped, user_browser_sessions_dropped, Server, Env, emit, get_session, online,
  is_live, is_revoked,
}
use geneza.Controller.Reauth.{
  norm_provider, principal_key, is_empty, drive_live_session, revoke_session, re_push_revoke,
}

-- A loop over sessions whose step counts itself or not.
unfoldable pub for_each :
    (Server → SessionRecord → Server × Bool) → List SessionRecord → Server → Server × ℕ
for_each act [] s = (s, 0)
for_each act (r ∷ rs) s =
    let a = act s r in
    let rest = for_each act rs a.0 in (rest.0, if a.1 then suc rest.1 else rest.1)

-- ListAllSessions, and the loop over what it lists.
unfoldable pub over_sessions : Env → (Server → SessionRecord → Server × Bool) → Server → Server × ℕ
unfolding for_each
over_sessions env act s = if env.lists then for_each act s.sessions s else (s, 0)

-- An owed teardown, pushed once more.
unfoldable pub re_push_owed : Env → Server → SessionRecord → Server
unfolding re_push_revoke
re_push_owed env s r = if not r.revoke_delivered then re_push_revoke env s r else s

unfoldable pub sweep_one : Env → Server → SessionRecord → Server × Bool
unfolding drive_live_session re_push_revoke online
sweep_one env s r =
    if is_live r.state
    then (drive_live_session env s r, false)
    else if is_revoked r.state && not r.revoke_delivered && online s.facts r.node_id
    then (re_push_revoke env s r, false)
    else (s, false)

-- reauthSweep, without the collection of what has expired
unfoldable pub reauth_sweep : Env → Server → Server
unfolding over_sessions sweep_one
reauth_sweep env s = (over_sessions env (sweep_one env) s).0

unfoldable pub redeliver_one : Env → Str → Server → SessionRecord → Server × Bool
unfolding re_push_owed drive_live_session
redeliver_one env node_id s r =
    if not (bytes_eq r.node_id node_id)
    then (s, false)
    else if is_revoked r.state
    then (re_push_owed env s r, false)
    else if is_live r.state
    then (drive_live_session env s r, false)
    else (s, false)

-- redeliverPendingRevokes, when the agent of a node reconnects
unfoldable pub redeliver_pending_revokes : Env → Str → Server → Server
unfolding over_sessions redeliver_one
redeliver_pending_revokes env node_id s = (over_sessions env (redeliver_one env node_id) s).0

unfoldable pub revoke_if :
    Env → (SessionRecord → Bool) → RevokeReason → Server → SessionRecord → Server × Bool
unfolding revoke_session
revoke_if env chosen reason s r =
    if not (chosen r)
    then (s, false)
    else if not (is_live r.state)
    then (s, false)
    else revoke_session env s r reason

-- The loop of the revokes of many sessions, with how many it revoked.
unfoldable pub revoke_where : Env → (SessionRecord → Bool) → RevokeReason → Server → Server × ℕ
unfolding over_sessions revoke_if
revoke_where env chosen reason s = over_sessions env (revoke_if env chosen reason) s

unfoldable pub of_principal : Str → Str → Str → SessionRecord → Bool
unfolding norm_provider
of_principal ws provider subject r = not (
    not (bytes_eq r.workspace_id ws)
    || not (bytes_eq (norm_provider r.provider) (norm_provider provider))
    || not (bytes_eq r.subject subject))

-- revokeBySubject
unfoldable pub revoke_by_subject : Env → Str → Str → Str → Str → Server → Server × ℕ
unfolding revoke_where of_principal
revoke_by_subject env ws provider subject reason s =
    if is_empty subject
    then (s, 0)
    else revoke_where env (of_principal ws provider subject) (because reason) s

unfoldable pub on_node : Str → Str → SessionRecord → Bool
on_node ws node_id r = not (not (bytes_eq r.workspace_id ws) || not (bytes_eq r.node_id node_id))

-- revokeByNodeID
unfoldable pub revoke_by_node_id : Env → Str → Str → Str → Server → Server × ℕ
unfolding revoke_where on_node
revoke_by_node_id env ws node_id reason s = revoke_where env (on_node ws node_id) (because reason) s

-- revokeUser; none is the error of a list that fails.
unfoldable pub revoke_user : Env → Str → Str → Server → Option (Server × ℕ)
unfolding revoke_where
revoke_user env user reason s =
    let done = revoke_where env (λ r. bytes_eq r.user user) (because reason) s in
    if not env.lists
    then none
    else some (emit done.0 (user_browser_sessions_dropped user ∷ []), done.1)

-- revokeUserInWorkspace
unfoldable pub revoke_user_in_workspace : Env → Str → Str → Str → Server → Option (Server × ℕ)
unfolding revoke_where
revoke_user_in_workspace env ws user reason s =
    if not env.lists
    then none
    else some (
        revoke_where env (λ r. bytes_eq r.workspace_id ws && bytes_eq r.user user) (because reason)
          s)

-- revokeByID; none is an unknown session.
unfoldable pub revoke_by_id : Env → Key → Str → Server → Option (Server × Bool)
unfolding get_session revoke_session
revoke_by_id env k reason s = elim (get_session s k) [
  | none ↦ none
  | some r ↦ some (revoke_session env s r (because reason))
]

-- The durable row of a suspension, and the cached allow that is dropped with it.
unfoldable pub hold_principal : Env → Str → Str → Str → Str → Str → Str → Server → Server
unfolding principal_key invalidate
hold_principal env ws provider subject username by reason s = record s {
  facts = record s.facts {
    suspensions = put s.facts.suspensions (principal_key ws provider subject) (record {
      username = username;
      reason = reason;
      suspended_by = by;
      suspended_unix = env.now;
    });
  };
  deny = invalidate s.deny suspended (principal_key ws provider subject);
}

-- suspendPrincipal; `writes` is whether the durable row is written, and none is its error.
unfoldable pub suspend_principal :
    Env → Bool → Str → Str → Str → Str → Str → Str → Server → Option Server
unfolding hold_principal revoke_by_subject emit norm_provider
suspend_principal env writes ws provider subject username by reason s =
    let cut =
      revoke_by_subject env ws provider subject (bytes "suspended: " ++ reason)
        (hold_principal env ws provider subject username by reason s) in
    if is_empty subject || not writes
    then none
    else some (
        emit cut.0 (
          browser_sessions_dropped provider subject
          ∷ audited ws
              (suspended_principal username (norm_provider provider) subject by reason cut.1)
          ∷ []))

-- liftSuspension
unfoldable pub lift_suspension : Bool → Str → Str → Str → Str → Server → Option Server
unfolding emit principal_key norm_provider invalidate
lift_suspension writes ws provider subject by s =
    if not writes
    then none
    else some (
        emit
          (record s {
            facts = record s.facts {
              suspensions = remove s.facts.suspensions (principal_key ws provider subject);
            };
            deny = invalidate s.deny suspended (principal_key ws provider subject);
          })
          (audited ws (unsuspended_principal (norm_provider provider) subject by) ∷ []))

unfoldable pub fanout_one : Env → Str → Str → Str → Server → SessionRecord → Server × Bool
unfolding of_principal online revoke_session re_push_owed norm_provider
fanout_one env ws provider subject s r =
    if not (of_principal ws provider subject r)
    then (s, false)
    else if not (online s.facts r.node_id)
    then (s, false)
    else if is_live r.state
    then revoke_session env s r (because (bytes "suspended: " ++ norm_provider provider))
    else if is_revoked r.state
    then (re_push_owed env s r, false)
    else (s, false)

-- onSuspendFanout
unfoldable pub on_suspend_fanout : Env → Str → Str → Str → Server → Server
unfolding over_sessions fanout_one principal_key invalidate
on_suspend_fanout env ws provider subject s =
    let fresh : Server = record s {
      deny = invalidate s.deny suspended (principal_key ws provider subject);
    } in
    if is_empty subject then s else (over_sessions env (fanout_one env ws provider subject) fresh).0
