-- ===== src/Controller/Reauth/Growth.antt =====
-- What the operations on one session send is kept by those after it.
use geneza.Base.{
  ◌++◌, ◌≡◌, refl, true, not, ◌&&◌, Option, none, some, Bool-cases, inl, inr, Str, List, In,
  In-append, ◌∷◌, [],
}
use geneza.Controller.Sessions.{
  SessionRecord, session_key, RevokeReason, continuous_authz, Enforcement, session_revoke, Effect,
  to_agent, Server, Env, get_session, bump_epoch, is_live, is_revoked, online, sends, emit,
  send_agent, send_revoke, next_epoch, update_session,
}
use geneza.Controller.Reauth.{
  reauthorize, tell_client, revoke_session, re_push_revoke, push_read_only_delta, refresh_lease,
  drive_live_session, revocable,
}
use geneza.Controller.Reauth.Ops.{sweep_one}

-- Nothing that was sent is taken back.
abbrev pub Grows : Server → Server → Type 0
Grows s s' = (e : Effect) → In e s.out → In e s'.out

pub still-In : (xs es : List Effect) (e : Effect) → In e xs → In e (xs ++ es)
still-In xs es e h = (In-append e xs es).1 (inl h)

pub send_agent-Grows :
    (env : Env) (s : Server) (node_id : Str) (m : Enforcement)
    → Grows s (send_agent env s node_id m)
unfolding send_agent emit
send_agent-Grows env s node_id m e h = elim (Bool-cases (sends env s.facts node_id)) [
  | inl q ↦ rw q (still-In _ _ e h)
  | inr q ↦ rw q h
]

pub tell_client-Grows :
    (s : Server) (id : Str) (m : Option Enforcement) → Grows s (tell_client s id m)
unfolding tell_client emit
tell_client-Grows s id none e h = h
tell_client-Grows s id (some m) e h = still-In _ _ e h

pub send_revoke-Grows :
    (env : Env) (s : Server) (r : SessionRecord) (reason : RevokeReason)
    → Grows s (send_revoke env s r reason).server
unfolding send_revoke next_epoch update_session
send_revoke-Grows env s r reason e h = elim (Bool-cases env.signs) [
  | inl q ↦ rw q (send_agent-Grows env _ r.node_id _ e h)
  | inr q ↦ rw q h
]

pub revoke_session-Grows :
    (env : Env) (s : Server) (r : SessionRecord) (reason : RevokeReason)
    → Grows s (revoke_session env s r reason).0
unfolding revoke_session update_session emit
revoke_session-Grows env s r reason e h = elim (Bool-cases (revocable r.state)) [
  | inl q ↦ rw q (
      still-In _ _ e (
        tell_client-Grows _ r.id (send_revoke env s r reason).revoke e
          (send_revoke-Grows env s r reason e h)))
  | inr q ↦ rw q h
]

pub drive_live_session-Grows :
    (env : Env) (s : Server) (r : SessionRecord) → Grows s (drive_live_session env s r)
unfolding drive_live_session push_read_only_delta refresh_lease next_epoch update_session emit
drive_live_session-Grows env s r e h =
    let d = reauthorize env s.facts r in
    elim (Bool-cases d.allow) [
      | inr q ↦ rw q (revoke_session-Grows env s r (continuous_authz d.reason) e h)
      | inl q ↦ elim (Bool-cases env.signs) [
        | inr n ↦ elim (Bool-cases d.read_only) [ inl b ↦ rw (q, b, n) h | inr b ↦ rw (q, b, n) h ]
        | inl y ↦ elim (Bool-cases d.read_only) [
          | inl b ↦ rw (q, b, y) (still-In _ _ e (send_agent-Grows env _ r.node_id _ e h))
          | inr b ↦ rw (q, b, y) (still-In _ _ e (send_agent-Grows env _ r.node_id _ e h))
        ]
      ]
    ]

pub sweep_one-Grows : (env : Env) (s : Server) (r : SessionRecord) → Grows s (sweep_one env s r).0
unfolding sweep_one re_push_revoke
sweep_one-Grows env s r e h = elim (Bool-cases (is_live r.state)) [
  | inl q ↦ rw q (drive_live_session-Grows env s r e h)
  | inr q ↦
      rw q
        (elim (Bool-cases
          (is_revoked r.state && not r.revoke_delivered && online s.facts r.node_id)) [
            | inl b ↦ rw b (send_revoke-Grows env s r r.revoke_reason e h)
            | inr b ↦ rw b h
          ])
]

-- The revoke of a session that is there, under the epoch after the stored one.
abbrev pub revoke_of : SessionRecord → RevokeReason → Enforcement
revoke_of r reason = session_revoke r.id (bump_epoch r).enforcement_epoch reason r.client_noise_pub

pub send_agent-sends :
    (env : Env) (s : Server) (node_id : Str) (m : Enforcement)
    → sends env s.facts node_id ≡ true
    → In (to_agent node_id m) (send_agent env s node_id m).out
unfolding send_agent emit
send_agent-sends env s node_id m h =
    rw h ((In-append (to_agent node_id m) s.out (to_agent node_id m ∷ [])).1 (inr (inl refl)))

pub send_revoke-sends :
    (env : Env) (s : Server) (r : SessionRecord) (reason : RevokeReason)
    → env.signs ≡ true
    → sends env s.facts r.node_id ≡ true
    → get_session s (session_key r) ≡ some r
    → In (to_agent r.node_id (revoke_of r reason)) (send_revoke env s r reason).server.out
unfolding send_revoke next_epoch update_session
send_revoke-sends env s r reason signs reach here =
    rw (signs, here) (send_agent-sends env _ r.node_id _ reach)

pub revoke_session-sends :
    (env : Env) (s : Server) (r : SessionRecord) (reason : RevokeReason)
    → revocable r.state ≡ true
    → env.signs ≡ true
    → sends env s.facts r.node_id ≡ true
    → get_session s (session_key r) ≡ some r
    → In (to_agent r.node_id (revoke_of r reason)) (revoke_session env s r reason).0.out
unfolding revoke_session update_session emit
revoke_session-sends env s r reason h signs reach here = rw h (
    still-In _ _ _ (
      tell_client-Grows _ r.id (send_revoke env s r reason).revoke _
        (send_revoke-sends env s r reason signs reach here)))
