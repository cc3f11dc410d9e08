-- ===== src/Controller/Reauth/Evolution.antt =====
-- How a session's record evolves under every operation.
use geneza.Base.{
  bytes_eq, ◌≡◌, refl, ◌∙◌, ap, true, false, not, ◌&&◌, Bool-cases, inl, inr, arith, if◌then◌else◌,
  Str, ℕ, suc, ◌≤◌, ◌^◌,
}
use geneza.Base.Int.{ℤ, pos}
use geneza.Controller.Reauth.Steps.{bump_epoch-pos}
use geneza.Controller.Sessions.{
  SessionState, pending, active, detached, ended, revoked, RevokeReason, SessionRecord, session_key,
  Env, bump_epoch, is_revoked, is_terminal,
}
use geneza.Controller.Reauth.{mark_revoked, is_empty}
use geneza.Controller.Reauth.Steps.{cut}
use geneza.Controller.Reauth.Events.{
  EventKind, established, attached, detached_event, ended_event, rejected, revoked_event, offered,
  unknown, SessionEvent, event_update, event_change, confirm,
}

-- The session keeps who it is of and where it runs; a final state stays, with the cause of
-- a revoke; a teardown is confirmed only on a revoked record, once and for all; and the epoch does
-- not go back, unless it is at the end of an int64.
pub record Evolves (r r' : SessionRecord) : Type 0 where
  pub same_key : session_key r' ≡ session_key r
  pub same_node : r'.node_id ≡ r.node_id
  pub final : is_terminal r.state ≡ true → r'.state ≡ r.state
  pub same_cause : is_terminal r.state ≡ true → r'.revoke_reason ≡ r.revoke_reason
  pub settled : is_terminal r.state ≡ true → r.revoke_delivered ≡ true → r'.revoke_delivered ≡ true
  pub confirmed :
      (r.revoke_delivered ≡ true → is_revoked r.state ≡ true)
      → r'.revoke_delivered ≡ true
      → is_revoked r'.state ≡ true
  pub epochs :
      (n : ℕ)
      → r.enforcement_epoch ≡ pos n
      → suc (suc n) ≤ 2 ^ 63
      → (m : ℕ) × (r'.enforcement_epoch ≡ pos m) × (n ≤ m)

pub Evolves-refl : (r : SessionRecord) → Evolves r r
Evolves-refl r = record {
  same_key = refl;
  same_node = refl;
  final = λ h. refl;
  same_cause = λ h. refl;
  settled = λ h d. d;
  confirmed = λ p d. p d;
  epochs = λ n e room. (n, e, omega arith);
}

pub bump_epoch-Evolves : (r : SessionRecord) → Evolves r (bump_epoch r)
bump_epoch-Evolves r = record {
  same_key = unfold bump_epoch in refl;
  same_node = unfold bump_epoch in refl;
  final = λ h. unfold bump_epoch in refl;
  same_cause = λ h. unfold bump_epoch in refl;
  settled = λ h d. unfold bump_epoch in d;
  confirmed = λ p. unfold bump_epoch in p;
  epochs = λ n e room. (suc n, bump_epoch-pos r n e room, omega arith);
}

pub revoked-terminal : (st : SessionState) → is_revoked st ≡ true → is_terminal st ≡ true
revoked-terminal revoked t = refl
revoked-terminal ended t = refl
revoked-terminal pending t = t
revoked-terminal active t = t
revoked-terminal detached t = t

pub cut-Evolves :
    (env : Env) (reason : RevokeReason) (r : SessionRecord)
    → is_terminal r.state ≡ false
    → Evolves r (cut env reason r)
cut-Evolves env reason r h = record {
  same_key = unfold cut mark_revoked bump_epoch in refl;
  same_node = unfold cut mark_revoked bump_epoch in refl;
  final = λ t. absurd (cc (t, h));
  same_cause = λ t. absurd (cc (t, h));
  settled = λ t d. absurd (cc (t, h));
  confirmed = λ p d. unfold cut mark_revoked in refl;
  epochs = λ n e room. (suc n, unfold cut mark_revoked in bump_epoch-pos r n e room, omega arith);
}

pub confirm-Evolves : (r : SessionRecord) → Evolves r (confirm r)
unfolding confirm
confirm-Evolves r = elim (Bool-cases (is_revoked r.state && not r.revoke_delivered)) [
  | inr h ↦ rw h (Evolves-refl r)
  | inl h ↦ rw h (record {
    same_key = refl;
    same_node = refl;
    final = λ t. refl;
    same_cause = λ t. refl;
    settled = λ t d. refl;
    confirmed = λ p d. ground (arith, h);
    epochs = λ n e room. (n, e, omega arith);
  })
]

-- A change of the state and of the times that leaves a final state.
state-Evolves :
    (r : SessionRecord) (st : SessionState) (host : Str) (ended_at code : ℤ)
    → (is_terminal r.state ≡ true → st ≡ r.state)
    → Evolves r
        (record r { state = st; host_session_id = host; ended_unix = ended_at; exit_code = code })
state-Evolves r st host ended_at code final = record {
  same_key = refl;
  same_node = refl;
  final = final;
  same_cause = λ h. refl;
  settled = λ h d. d;
  confirmed = λ p d. ap (λ x. is_revoked x) (final (revoked-terminal r.state (p d))) ∙ p d;
  epochs = λ n e room. (n, e, omega arith);
}

ended_stays :
    (st : SessionState) → is_terminal st ≡ true → (if not (is_revoked st) then ended else st) ≡ st
ended_stays revoked h = refl
ended_stays ended h = refl
ended_stays pending h = cc
ended_stays active h = cc
ended_stays detached h = cc

moved-Evolves :
    (r : SessionRecord) (st : SessionState) (host : Str)
    → Evolves r (
        if not (is_terminal r.state)
        then record r { state = st; host_session_id = host }
        else record r { host_session_id = host })
moved-Evolves r st host = elim (Bool-cases (is_terminal r.state)) [
  | inl h ↦ rw h (state-Evolves r r.state host r.ended_unix r.exit_code (λ t. refl))
  | inr h ↦ rw h (state-Evolves r st host r.ended_unix r.exit_code (λ t. absurd (cc (t, h))))
]

event_change-Evolves :
    (env : Env) (id : Str) (kind : EventKind) (name host own : Str) (code : ℤ) (r : SessionRecord)
    → Evolves r (
        event_change env
          (record {
            session_id = id;
            event = kind;
            name = name;
            host_session_id = host;
            exit_code = code;
          })
          (record r { host_session_id = own }))
unfolding event_change
event_change-Evolves env id established name host own code r = moved-Evolves r active own
event_change-Evolves env id attached name host own code r = moved-Evolves r active own
event_change-Evolves env id detached_event name host own code r = moved-Evolves r detached own
event_change-Evolves env id ended_event name host own code r =
    state-Evolves r _ own env.now code (ended_stays r.state)
event_change-Evolves env id rejected name host own code r =
    state-Evolves r _ own env.now r.exit_code (ended_stays r.state)
event_change-Evolves env id revoked_event name host own code r =
    state-Evolves r r.state own r.ended_unix r.exit_code (λ t. refl)
event_change-Evolves env id offered name host own code r =
    state-Evolves r r.state own r.ended_unix r.exit_code (λ t. refl)
event_change-Evolves env id unknown name host own code r =
    state-Evolves r r.state own r.ended_unix r.exit_code (λ t. refl)

pub event_update-Evolves :
    (env : Env) (node_id : Str) (ev : SessionEvent) (r : SessionRecord)
    → Evolves r (event_update env node_id ev r)
unfolding event_update
event_update-Evolves env node_id ev r = elim (Bool-cases (bytes_eq r.node_id node_id)) [
  | inr h ↦ rw h (Evolves-refl r)
  | inl h ↦ elim (Bool-cases (is_empty ev.host_session_id)) [
    | inl e ↦
        rw (h, e)
          (event_change-Evolves env ev.session_id ev.event ev.name ev.host_session_id
            r.host_session_id ev.exit_code r)
    | inr e ↦
        rw (h, e)
          (event_change-Evolves env ev.session_id ev.event ev.name ev.host_session_id
            ev.host_session_id ev.exit_code r)
  ]
]
