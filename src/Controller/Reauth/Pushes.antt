-- ===== src/Controller/Reauth/Pushes.antt =====
-- What a sweep pushes to the agents.
use mathlib.Core.Option.{some-injective, none-ne-some}
use geneza.Controller.Reauth.Sweep.{swept, sweep_one-Moves, reauth_sweep-each}
use geneza.Controller.Reauth.Loops.{over_sessions-emits}
use geneza.Controller.Reauth.Steps.{driven, cut, live-revocable}
use geneza.Base.{
  ◌≡◌, refl, sym, ◌∙◌, ap, Bool, true, false, not, ◌&&◌, Option, none, some, Bool-cases, inl, inr,
  arith, if◌then◌else◌, map, Distinct, In,
}
use geneza.Controller.Rows.{map_option}
use geneza.Controller.Sessions.{
  SessionRecord, session_key, RevokeReason, continuous_authz, to_agent, Facts, Server, Env,
  get_session, bump_epoch, is_live, is_revoked, online, sends,
}
use geneza.Controller.Reauth.{mark_revoked, ℤ, reauthorize, re_push_revoke, drive_live_session}
use geneza.Controller.Reauth.Ops.{sweep_one, reauth_sweep}
use geneza.Controller.Reauth.Growth.{
  revoke_of, sweep_one-Grows, send_revoke-sends, revoke_session-sends,
}

-- The teardown that a sweep is to push: of a live session that is denied now, and of a revoked one
-- whose agent has not confirmed it.
unfoldable pub owed : Env → Facts → SessionRecord → Option RevokeReason
unfolding reauthorize
owed env f r =
    let d = reauthorize env f r in
    if is_live r.state
    then (if not d.allow then some (continuous_authz d.reason) else none)
    else if is_revoked r.state && not r.revoke_delivered
    then some r.revoke_reason
    else none

owed_parts :
    (env : Env) (f : Facts) (r : SessionRecord)
    → is_revoked r.state && not r.revoke_delivered ≡ true
    → sends env f r.node_id ≡ true
    → (is_revoked r.state && not r.revoke_delivered && online f r.node_id ≡ true)
      × (is_revoked r.state ≡ true)
      × (r.revoke_delivered ≡ false)
unfolding sends
owed_parts env f r y reach = ground arith

sweep_one-sends :
    (env : Env) (s : Server) (r : SessionRecord) (reason : RevokeReason)
    → owed env s.facts r ≡ some reason
    → env.signs ≡ true
    → sends env s.facts r.node_id ≡ true
    → get_session s (session_key r) ≡ some r
    → In (to_agent r.node_id (revoke_of r reason)) (sweep_one env s r).0.out
unfolding sweep_one owed drive_live_session re_push_revoke sends
sweep_one-sends env s r reason due signs reach here =
    let d = reauthorize env s.facts r in
    elim (Bool-cases (is_live r.state)) [
      | inl h ↦ elim (Bool-cases d.allow) [
        | inl y ↦ absurd (none-ne-some reason (sym (rw (h, y) refl) ∙ due))
        | inr n ↦
            let why = some-injective _ reason (sym (rw (h, n) refl) ∙ due) in
            rw (h, n, sym why)
              (revoke_session-sends env s r (continuous_authz d.reason) (live-revocable r.state h)
                signs reach here)
      ]
      | inr h ↦ elim (Bool-cases (is_revoked r.state && not r.revoke_delivered)) [
        | inr n ↦ absurd (none-ne-some reason (sym (rw (h, n) refl) ∙ due))
        | inl y ↦
            let why = some-injective r.revoke_reason reason (sym (rw (h, y) refl) ∙ due) in
            rw (h, (owed_parts env s.facts r y reach).0, sym why)
              (send_revoke-sends env s r r.revoke_reason signs reach here)
      ]
    ]

-- How a teardown stands on a record.
pub record Teardown : Type 0 where
  pub torn : Bool
  pub cause : RevokeReason
  pub delivered : Bool
  pub epoch : ℤ

unfoldable pub teardown : SessionRecord → Teardown
teardown r = record {
  torn = is_revoked r.state;
  cause = r.revoke_reason;
  delivered = r.revoke_delivered;
  epoch = r.enforcement_epoch;
}

teardown-swept :
    (env : Env) (f : Facts) (r : SessionRecord) (reason : RevokeReason)
    → owed env f r ≡ some reason
    → sends env f r.node_id ≡ true
    → teardown (swept env f r) ≡ record {
      torn = true;
      cause = reason;
      delivered = false;
      epoch = (bump_epoch r).enforcement_epoch;
    }
unfolding owed swept cut mark_revoked bump_epoch teardown driven sends
teardown-swept env f r reason due reach =
    let d = reauthorize env f r in
    elim (Bool-cases (is_live r.state)) [
      | inl h ↦ elim (Bool-cases d.allow) [
        | inl y ↦ absurd (none-ne-some reason (sym (rw (h, y) refl) ∙ due))
        | inr n ↦
            let why = some-injective _ reason (sym (rw (h, n) refl) ∙ due) in
            rw (h, n, sym why) refl
      ]
      | inr h ↦ elim (Bool-cases (is_revoked r.state && not r.revoke_delivered)) [
        | inr n ↦ absurd (none-ne-some reason (sym (rw (h, n) refl) ∙ due))
        | inl y ↦
            let why = some-injective r.revoke_reason reason (sym (rw (h, y) refl) ∙ due) in
            let parts = owed_parts env f r y reach in rw (h, parts.0, parts.1, parts.2, why) refl
      ]
    ]

-- A sweep pushes each teardown that is owed to an agent it can reach: of a live session that the
-- decision denies now, and of a revoked one that the agent has not confirmed. The revoke carries
-- the epoch after the stored one, which the record keeps.
pub reauth_sweep-pushes :
    (env : Env) (s : Server) (r : SessionRecord) (reason : RevokeReason)
    → env.lists ≡ true
    → env.signs ≡ true
    → Distinct (map session_key s.sessions)
    → get_session s (session_key r) ≡ some r
    → owed env s.facts r ≡ some reason
    → sends env s.facts r.node_id ≡ true
    → In (to_agent r.node_id (revoke_of r reason)) (reauth_sweep env s).out
      × (map_option teardown (get_session (reauth_sweep env s) (session_key r))
          ≡ some (record {
            torn = true;
            cause = reason;
            delivered = false;
            epoch = (bump_epoch r).enforcement_epoch;
          }))
unfolding reauth_sweep
reauth_sweep-pushes env s r reason lists signs d here due reach = (
  over_sessions-emits s.facts (sweep_one env) (swept env s.facts)
      (λ q x f there. rw (sym f) (sweep_one-Moves env q x there)) (sweep_one-Grows env) env s r _
      (λ t f there. sweep_one-sends env t r reason (rw f due) signs (rw f reach) there) lists refl d
      here,
  rw (reauth_sweep-each env s lists d (session_key r), here)
      (ap (λ t. some t) (teardown-swept env s.facts r reason due reach)),
)
