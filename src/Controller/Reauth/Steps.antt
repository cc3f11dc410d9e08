-- ===== src/Controller/Reauth/Steps.antt =====
-- What a step on one session makes of its record.
use geneza.Base.{
  ℕ, ◌≤◌, ◌^◌, suc, ◌≡◌, refl, true, not, none, some, Bool-cases, inl, inr, arith, if◌then◌else◌,
  Str,
}
use geneza.Base.Int.{pos, wrap64-pos, pos-add_one}
use geneza.Controller.Rows.{Key}
use geneza.Controller.Sessions.{
  pending, active, detached, ended, revoked, SessionRecord, RevokeReason, continuous_authz,
  session_key, Facts, Server, Env, get_session, bump_epoch, send_revoke, next_epoch, update_session,
  send_agent, emit, is_live,
}
use geneza.Controller.Sessions.Touches.{
  Touches, Touches-none, Touches-then, KeepsKey, Moves, Moves-Touches,
}
use geneza.Controller.Reauth.{
  SessionState, tell_client, mark_revoked, revoke_session, re_push_revoke, push_read_only_delta,
  refresh_lease, drive_live_session, reauthorize, revocable,
}

bump_epoch-KeepsKey : KeepsKey bump_epoch
unfolding bump_epoch
bump_epoch-KeepsKey r = refl

-- A session that is revoked: its teardown is owed, under a new epoch.
unfoldable pub cut : Env → RevokeReason → SessionRecord → SessionRecord
unfolding mark_revoked
cut env reason r = mark_revoked env reason (bump_epoch r)

pub cut-KeepsKey : (env : Env) (reason : RevokeReason) → KeepsKey (cut env reason)
unfolding cut bump_epoch mark_revoked
cut-KeepsKey env reason r = refl

send_agent-Touches :
    (env : Env) (s s' : Server) (k : Key) (f : SessionRecord → SessionRecord) (node_id : Str)
    (m : _)
    → Touches s s' k f
    → Touches s (send_agent env s' node_id m) k f
unfolding send_agent emit
send_agent-Touches env s s' k f node_id m t = record {
  facts = ground (arith, t.facts);
  rows = ground (arith, t.rows);
}

next_epoch-Touches : (s : Server) (k : Key) → Touches s (next_epoch s k).0 k bump_epoch
unfolding next_epoch update_session
next_epoch-Touches s k = record { facts = refl; rows = refl }

pub send_revoke-Touches :
    (env : Env) (s : Server) (r : SessionRecord) (reason : RevokeReason)
    → Touches s (send_revoke env s r reason).server (session_key r) bump_epoch
unfolding send_revoke
send_revoke-Touches env s r reason = elim (Bool-cases env.signs) [
  | inl h ↦
      rw h (send_agent-Touches env s _ _ bump_epoch _ _ (next_epoch-Touches s (session_key r)))
  | inr h ↦ rw h (next_epoch-Touches s (session_key r))
]

tell_client-Touches :
    (s s' : Server) (k : Key) (f : SessionRecord → SessionRecord) (id : Str) (m : _)
    → Touches s s' k f
    → Touches s (tell_client s' id m) k f
unfolding tell_client emit
tell_client-Touches s s' k f id none t = t
tell_client-Touches s s' k f id (some rev) t = record { facts = t.facts; rows = t.rows }

pub revoke_session-Touches :
    (env : Env) (s : Server) (r : SessionRecord) (reason : RevokeReason)
    → revocable r.state ≡ true
    → Touches s (revoke_session env s r reason).0 (session_key r) (cut env reason)
unfolding revoke_session cut update_session emit
revoke_session-Touches env s r reason h = rw h (
    Touches-then bump_epoch (mark_revoked env reason) bump_epoch-KeepsKey
      (tell_client-Touches s _ _ bump_epoch r.id (send_revoke env s r reason).revoke
        (send_revoke-Touches env s r reason))
      (record { facts = refl; rows = refl }))

pub push_read_only_delta-Touches :
    (env : Env) (s : Server) (r : SessionRecord)
    → Touches s (push_read_only_delta env s r) (session_key r) bump_epoch
unfolding push_read_only_delta emit
push_read_only_delta-Touches env s r =
    let t = next_epoch-Touches s (session_key r) in
    elim (Bool-cases env.signs) [
      | inl h ↦
          let u = send_agent-Touches env s _ _ bump_epoch r.node_id _ t in
          rw h (record { facts = u.facts; rows = u.rows })
      | inr h ↦ rw h t
    ]

pub refresh_lease-Touches :
    (env : Env) (s : Server) (r : SessionRecord)
    → Touches s (refresh_lease env s r) (session_key r) bump_epoch
unfolding refresh_lease emit
refresh_lease-Touches env s r =
    let t = next_epoch-Touches s (session_key r) in
    elim (Bool-cases env.signs) [
      | inl h ↦
          let u = send_agent-Touches env s _ _ bump_epoch r.node_id _ t in
          rw h (record { facts = u.facts; rows = u.rows })
      | inr h ↦ rw h t
    ]

-- What the current decision makes of a live session.
unfoldable pub driven : Env → Facts → SessionRecord → SessionRecord
unfolding cut bump_epoch reauthorize
driven env f r =
    let d = reauthorize env f r in
    if not d.allow then cut env (continuous_authz d.reason) r else bump_epoch r

pub live-revocable : (st : SessionState) → is_live st ≡ true → revocable st ≡ true
live-revocable pending h = refl
live-revocable active h = refl
live-revocable detached h = refl
live-revocable ended h = h
live-revocable revoked h = h

pub revoke_session-Moves :
    (env : Env) (s : Server) (r : SessionRecord) (reason : RevokeReason)
    → is_live r.state ≡ true
    → get_session s (session_key r) ≡ some r
    → Moves s (revoke_session env s r reason).0 r (cut env reason r)
revoke_session-Moves env s r reason live here =
    Moves-Touches (cut env reason) (cut-KeepsKey env reason) here
      (revoke_session-Touches env s r reason (live-revocable r.state live))

pub re_push_revoke-Moves :
    (env : Env) (s : Server) (r : SessionRecord)
    → get_session s (session_key r) ≡ some r
    → Moves s (re_push_revoke env s r) r (bump_epoch r)
unfolding re_push_revoke
re_push_revoke-Moves env s r here =
    Moves-Touches bump_epoch bump_epoch-KeepsKey here (send_revoke-Touches env s r r.revoke_reason)

pub drive_live_session-Moves :
    (env : Env) (s : Server) (r : SessionRecord)
    → is_live r.state ≡ true
    → get_session s (session_key r) ≡ some r
    → Moves s (drive_live_session env s r) r (driven env s.facts r)
unfolding drive_live_session driven
drive_live_session-Moves env s r live here =
    let d = reauthorize env s.facts r in
    elim (Bool-cases d.allow) [
      | inl h ↦ rw h (elim (Bool-cases d.read_only) [
        | inl e ↦ rw e (
            Moves-Touches bump_epoch bump_epoch-KeepsKey here
              (push_read_only_delta-Touches env s r))
        | inr e ↦
            rw e (Moves-Touches bump_epoch bump_epoch-KeepsKey here (refresh_lease-Touches env s r))
      ])
      | inr h ↦ rw h (revoke_session-Moves env s r (continuous_authz d.reason) live here)
    ]

pub Moves-none :
    (s : Server) (r : SessionRecord) → get_session s (session_key r) ≡ some r → Moves s s r r
Moves-none s r here = Moves-Touches (λ q. q) (λ q. refl) here (Touches-none s (session_key r))

pub bump_epoch-pos :
    (r : SessionRecord) (n : ℕ)
    → r.enforcement_epoch ≡ pos n
    → suc (suc n) ≤ 2 ^ 63
    → (bump_epoch r).enforcement_epoch ≡ pos (suc n)
unfolding bump_epoch
bump_epoch-pos r n e room = rw (e, pos-add_one n) (wrap64-pos (suc n) room)
