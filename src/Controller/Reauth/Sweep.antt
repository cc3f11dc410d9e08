-- ===== src/Controller/Reauth/Sweep.antt =====
-- What one sweep leaves of the sessions.
use geneza.Base.{
  ◌≡◌, refl, sym, ◌∙◌, ap, true, false, not, ◌&&◌, Option, none, some, Bool-cases, inl, inr, arith,
  if◌then◌else◌, map, Distinct,
}
use mathlib.Core.Option.{some-injective, none-ne-some}
use geneza.Base.Dict.{get}
use geneza.Policy.Engine.{Doc, Labels}
use geneza.Controller.Rows.{Key, map_option}
use geneza.Controller.Sessions.{
  SessionRecord, session_key, Facts, Server, Env, get_session, bump_epoch, is_live, is_revoked,
  online,
}
use geneza.Controller.Sessions.Touches.{Moves}
use geneza.Controller.Reauth.{
  continuous_authz, mark_revoked, reauthorize, evaluate_for, input_of, presence_stale,
}
use geneza.Controller.Reauth.Ops.{sweep_one, reauth_sweep}
use geneza.Controller.Reauth.Loops.{over_sessions-frame, over_sessions-get}
use geneza.Controller.Reauth.Steps.{
  driven, cut, drive_live_session-Moves, re_push_revoke-Moves, Moves-none,
}

-- What a sweep makes of one session, by the decision and the connected nodes of the moment.
unfoldable pub swept : Env → Facts → SessionRecord → SessionRecord
unfolding driven bump_epoch online
swept env f r =
    if is_live r.state
    then driven env f r
    else if is_revoked r.state && not r.revoke_delivered && online f r.node_id
    then bump_epoch r
    else r

pub sweep_one-Moves :
    (env : Env) (s : Server) (r : SessionRecord)
    → get_session s (session_key r) ≡ some r
    → Moves s (sweep_one env s r).0 r (swept env s.facts r)
unfolding sweep_one swept
sweep_one-Moves env s r here = elim (Bool-cases (is_live r.state)) [
  | inl h ↦ rw h (drive_live_session-Moves env s r h here)
  | inr h ↦
      rw h
        (elim (Bool-cases
          (is_revoked r.state && not r.revoke_delivered && online s.facts r.node_id)) [
            | inl e ↦ rw e (re_push_revoke-Moves env s r here)
            | inr e ↦ rw e (Moves-none s r here)
          ])
]

-- A sweep that can list the sessions, which have distinct keys, one by one and each against the store as the earlier
-- ones left it, is the change of each session on its own, whatever their order.
pub reauth_sweep-each :
    (env : Env) (s : Server)
    → env.lists ≡ true
    → Distinct (map session_key s.sessions)
    → (k : Key)
    → get_session (reauth_sweep env s) k ≡ map_option (swept env s.facts) (get_session s k)
unfolding reauth_sweep
reauth_sweep-each env s lists d k =
    over_sessions-get s.facts (sweep_one env) (swept env s.facts)
      (λ q r f here. rw (sym f) (sweep_one-Moves env q r here)) env s lists refl d k

evaluate_for-bump :
    (env : Env) (engine : Option Doc) (r : SessionRecord) (labels : Labels)
    → evaluate_for env engine (bump_epoch r) labels ≡ evaluate_for env engine r labels
unfolding evaluate_for input_of bump_epoch
evaluate_for-bump env none r labels = refl
evaluate_for-bump env (some doc) r labels = refl

-- A new epoch is no part of the decision.
pub reauthorize-bump :
    (env : Env) (f : Facts) (r : SessionRecord)
    → reauthorize env f (bump_epoch r) ≡ reauthorize env f r
unfolding reauthorize bump_epoch presence_stale
reauthorize-bump env f r = rw (evaluate_for-bump env (get f.policy_engines r.workspace_id) r _) refl

pub driven_denied :
    (env : Env) (f : Facts) (r : SessionRecord)
    → (reauthorize env f r).allow ≡ false
    → driven env f r ≡ cut env (continuous_authz (reauthorize env f r).reason) r
unfolding driven
driven_denied env f r h = rw h refl

pub driven_allowed :
    (env : Env) (f : Facts) (r : SessionRecord)
    → (reauthorize env f r).allow ≡ true
    → driven env f r ≡ bump_epoch r
unfolding driven
driven_allowed env f r h = rw h refl

driven-allow :
    (env : Env) (f : Facts) (r : SessionRecord)
    → is_live (driven env f r).state ≡ true
    → (reauthorize env f (driven env f r)).allow ≡ true
unfolding cut mark_revoked
driven-allow env f r live = elim (Bool-cases (reauthorize env f r).allow) [
  | inl h ↦ rw (driven_allowed env f r h, reauthorize-bump env f r) h
  | inr h ↦
      absurd (cc (live, ap (λ (x : SessionRecord). is_live x.state) (driven_denied env f r h)))
]

pub swept_live :
    (env : Env) (f : Facts) (r : SessionRecord)
    → is_live r.state ≡ true
    → swept env f r ≡ driven env f r
unfolding swept
swept_live env f r h = rw h refl

swept-allow :
    (env : Env) (f : Facts) (r : SessionRecord)
    → is_live (swept env f r).state ≡ true
    → (reauthorize env f (swept env f r)).allow ≡ true
unfolding swept
swept-allow env f r live = elim (Bool-cases (is_live r.state)) [
  | inl h ↦ rw (swept_live env f r h) (
      driven-allow env f r
        (ap (λ (x : SessionRecord). is_live x.state) (sym (swept_live env f r h)) ∙ live))
  | inr h ↦ absurd (ground arith)
]

sweep_facts :
    (env : Env) (s : Server)
    → Distinct (map session_key s.sessions)
    → (reauth_sweep env s).facts ≡ s.facts
unfolding reauth_sweep
sweep_facts env s d =
    (over_sessions-frame s.facts (sweep_one env) (swept env s.facts)
      (λ q r f here. rw (sym f) (sweep_one-Moves env q r here)) env s refl d).0

-- After a sweep that can list the sessions, and whose writes of their rows commit, every active or
-- detached session is one that the current decision allows: a session of a suspended principal, of a
-- node that is not approved, as far as the suspension and the node can be read, with a stale heartbeat
-- or outside its policy is live no more, whether or not a revoke could be signed or pushed.
pub reauth_sweep-enforces :
    (env : Env) (s : Server) (k : Key) (r' : SessionRecord)
    → env.lists ≡ true
    → Distinct (map session_key s.sessions)
    → get_session (reauth_sweep env s) k ≡ some r'
    → is_live r'.state ≡ true
    → (reauthorize env (reauth_sweep env s).facts r').allow ≡ true
reauth_sweep-enforces env s k r' lists d found live =
    rw (sweep_facts env s d)
      (of_map (get_session s k) (sym (reauth_sweep-each env s lists d k) ∙ found))
  where
    of_map :
        (o : Option SessionRecord)
        → map_option (swept env s.facts) o ≡ some r'
        → (reauthorize env s.facts r').allow ≡ true
    of_map none e = absurd (none-ne-some r' e)
    of_map (some r) e =
        let same = some-injective (swept env s.facts r) r' e in
        rw (sym same)
          (swept-allow env s.facts r (ap (λ (x : SessionRecord). is_live x.state) same ∙ live))
