-- ===== src/Controller/Reauth/Operation.antt =====
-- The operations on the running sessions, as steps, and that each keeps the sessions.
use geneza.Base.{◌≡◌, Bool, some, Str, map, Distinct}
use geneza.Controller.Rows.{Key}
use geneza.Controller.Sessions.{SessionRecord, session_key, RevokeReason, Facts, Server, Env}
use geneza.Controller.Reauth.Ops.{
  reauth_sweep, redeliver_pending_revokes, revoke_by_id, revoke_where, suspend_principal,
  lift_suspension, on_suspend_fanout, sweep_one, redeliver_one,
}
use geneza.Controller.Reauth.Events.{SessionEvent, handle_session_event}
use geneza.Controller.Reauth.Sweep.{swept, sweep_one-Moves}
use geneza.Controller.Reauth.Acts.{
  swept-Evolves, redelivered, redeliver_one-Moves, redelivered-Evolves,
}
use geneza.Controller.Reauth.Preserves.{Preserves, Preserves-refl, loop-Preserves}
use geneza.Controller.Reauth.OpsPreserve.{
  revoke_where-Preserves, handle_session_event-Preserves, revoke_by_id-Preserves, suspend-Preserves,
  lift-Preserves, fanout-Preserves,
}

-- One operation on the running sessions. The facts change at any time: a node is admitted or quarantined,
-- a policy is loaded, a stream opens or closes, another controller writes a suspension.
pub data Act : Server → Server → Type 0 where
  facts_change : (s : Server) (f : Facts) → Act s (record s { facts = f })
  sweeps : (env : Env) (s : Server) → Act s (reauth_sweep env s)
  redelivers :
      (env : Env) (node_id : Str) (s : Server) → Act s (redeliver_pending_revokes env node_id s)
  revokes_one :
      (env : Env) (k : Key) (reason : Str) (s : Server) (q : Server × Bool)
      → revoke_by_id env k reason s ≡ some q
      → Act s q.0
  -- by the principal, the node or the user
  revokes_many :
      (env : Env) (chosen : SessionRecord → Bool) (reason : RevokeReason) (s : Server)
      → Act s (revoke_where env chosen reason s).0
  suspends :
      (env : Env) (writes : Bool) (ws provider subject username by reason : Str) (s s' : Server)
      → suspend_principal env writes ws provider subject username by reason s ≡ some s'
      → Act s s'
  lifts :
      (writes : Bool) (ws provider subject by : Str) (s s' : Server)
      → lift_suspension writes ws provider subject by s ≡ some s'
      → Act s s'
  fans_out :
      (env : Env) (ws provider subject : Str) (s : Server)
      → Act s (on_suspend_fanout env ws provider subject s)
  reports :
      (env : Env) (ws node_id : Str) (ev : SessionEvent) (s : Server)
      → Act s (handle_session_event env ws node_id ev s)

pub Act-Preserves :
    (s s' : Server)
    → Act s s'
    → Distinct (map session_key s.sessions)
    → Preserves s.sessions s'.sessions
Act-Preserves s s' (facts_change _ f) d = Preserves-refl s.sessions
Act-Preserves s s' (sweeps env _) d =
    unfold reauth_sweep in
    loop-Preserves env s (sweep_one env) (swept env) (sweep_one-Moves env)
      (swept-Evolves env s.facts) d
Act-Preserves s s' (redelivers env node_id _) d =
    unfold redeliver_pending_revokes in
    loop-Preserves env s (redeliver_one env node_id) (λ f. redelivered env f node_id)
      (redeliver_one-Moves env node_id) (redelivered-Evolves env s.facts node_id) d
Act-Preserves s s' (revokes_one env k reason _ q e) d = revoke_by_id-Preserves env k reason s q e
Act-Preserves s s' (revokes_many env chosen reason _) d =
    revoke_where-Preserves env chosen reason s d
Act-Preserves s s' (suspends env writes ws provider subject username by reason _ _ e) d =
    suspend-Preserves env writes ws provider subject username by reason s s' e d
Act-Preserves s s' (lifts writes ws provider subject by _ _ e) d =
    lift-Preserves writes ws provider subject by s s' e
Act-Preserves s s' (fans_out env ws provider subject _) d =
    fanout-Preserves env ws provider subject s d
Act-Preserves s s' (reports env ws node_id ev _) d =
    handle_session_event-Preserves env ws node_id ev s
