-- ===== src/Controller/Reauth/OpsPreserve.antt =====
-- The operations on many sessions and the events of a node, of which each lets every session evolve.
use geneza.Base.{
  ◌++◌, bytes, ◌||◌, ◌≡◌, refl, sym, ◌∙◌, ap, subst, Bool, true, false, not, Option, none, some,
  List, Bool-cases, inl, inr, if◌then◌else◌, Str, map, Distinct,
}
use mathlib.Core.Option.{some-injective, none-ne-some}
use geneza.Controller.Rows.{Key, get-key, key_eq, key_eq_iff, get_row, get-update, update-keys}
use geneza.Controller.Sessions.{
  SessionRecord, session_key, RevokeReason, because, Server, Env, get_session, emit, update_session,
}
use geneza.Controller.Reauth.{revocable, revoke_session, is_empty}
use geneza.Controller.Reauth.Ops.{
  hold_principal, revoke_by_id, revoke_where, revoke_by_subject, suspend_principal, lift_suspension,
  on_suspend_fanout, revoke_if, fanout_one,
}
use geneza.Controller.Reauth.Events.{
  owes, touches, is_confirmation, SessionEvent, handle_session_event, confirm_revoke_delivered,
  confirm, event_update,
}
use geneza.Controller.Reauth.Steps.{cut, cut-KeepsKey, revoke_session-Touches}
use geneza.Controller.Reauth.Evolution.{
  Evolves-refl, cut-Evolves, confirm-Evolves, event_update-Evolves,
}
use geneza.Controller.Reauth.Acts.{
  revocable-unfinished, cut_if, revoke_if-Moves, cut_if-Evolves, fanned, fanout_one-Moves,
  fanned-Evolves,
}
use geneza.Controller.Reauth.Preserves.{Preserves, Preserves-refl, update-Preserves, loop-Preserves}

pub revoke_where-Preserves :
    (env : Env) (chosen : SessionRecord → Bool) (reason : RevokeReason) (s : Server)
    → Distinct (map session_key s.sessions)
    → Preserves s.sessions (revoke_where env chosen reason s).0.sessions
unfolding revoke_where
revoke_where-Preserves env chosen reason s d =
    loop-Preserves env s (revoke_if env chosen reason) (λ f. cut_if env chosen reason)
      (revoke_if-Moves env chosen reason) (cut_if-Evolves env chosen reason) d

pub revoke_by_subject-Preserves :
    (env : Env) (ws provider subject reason : Str) (s : Server)
    → Distinct (map session_key s.sessions)
    → Preserves s.sessions (revoke_by_subject env ws provider subject reason s).0.sessions
unfolding revoke_by_subject
revoke_by_subject-Preserves env ws provider subject reason s d =
    elim (Bool-cases (is_empty subject)) [
      | inl h ↦ rw h (Preserves-refl s.sessions)
      | inr h ↦ rw h (revoke_where-Preserves env _ _ s d)
    ]

pub revoke_session-Preserves :
    (env : Env) (s : Server) (r : SessionRecord) (reason : RevokeReason)
    → get_session s (session_key r) ≡ some r
    → Preserves s.sessions (revoke_session env s r reason).0.sessions
unfolding revoke_session get_session
revoke_session-Preserves env s r reason here = elim (Bool-cases (revocable r.state)) [
  | inr h ↦ rw h (Preserves-refl s.sessions)
  | inl h ↦
      subst (λ rows. Preserves s.sessions rows) (sym (revoke_session-Touches env s r reason h).rows)
        (record {
          keys = update-keys session_key s.sessions _ (cut env reason) (cut-KeepsKey env reason);
          each = λ j q found. elim (Bool-cases (key_eq (session_key r) j)) [
            | inl e ↦
                let same = some-injective q r (
                  sym found
                  ∙ ap (λ k. get_row session_key s.sessions k) (sym ((key_eq_iff _ j).0 e))
                  ∙ here) in
                (
                  cut env reason q,
                  rw
                      (
                        get-update session_key s.sessions (session_key r) (cut env reason)
                            (cut-KeepsKey env reason) j,
                        e,
                        found,
                      )
                      refl,
                  rw same (cut-Evolves env reason r (revocable-unfinished r.state h)),
                )
            | inr e ↦ (
              q,
              rw
                  (
                    get-update session_key s.sessions (session_key r) (cut env reason)
                        (cut-KeepsKey env reason) j,
                    e,
                    found,
                  )
                  refl,
              Evolves-refl q,
            )
          ];
        })
]

pub confirm-Preserves :
    (ws id node_id : Str) (s : Server)
    → Preserves s.sessions (confirm_revoke_delivered ws id node_id s).sessions
unfolding confirm_revoke_delivered update_session emit
confirm-Preserves ws id node_id s =
    let p = update-Preserves s.sessions (ws, id) confirm confirm-Evolves in
    elim (Bool-cases (owes (get_session s (ws, id)))) [ inl h ↦ rw h p | inr h ↦ rw h p ]

pub handle_session_event-Preserves :
    (env : Env) (ws node_id : Str) (ev : SessionEvent) (s : Server)
    → Preserves s.sessions (handle_session_event env ws node_id ev s).sessions
unfolding handle_session_event update_session emit
handle_session_event-Preserves env ws node_id ev s = elim (Bool-cases (is_confirmation ev.event)) [
  | inl h ↦ rw h (confirm-Preserves ws ev.session_id node_id s)
  | inr h ↦ elim (Bool-cases (touches ev.event)) [
    | inl e ↦
        rw (h, e)
          (update-Preserves s.sessions (ws, ev.session_id) (event_update env node_id ev)
            (event_update-Evolves env node_id ev))
    | inr e ↦ rw (h, e) (Preserves-refl s.sessions)
  ]
]

pub revoke_by_id-Preserves :
    (env : Env) (k : Key) (reason : Str) (s : Server) (q : Server × Bool)
    → revoke_by_id env k reason s ≡ some q
    → Preserves s.sessions q.0.sessions
unfolding revoke_by_id
revoke_by_id-Preserves env k reason s q e = by_found (get_session s k) refl e
  where
    by_found :
        (o : Option SessionRecord)
        → get_session s k ≡ o
        → (elim o [ none ↦ none | some r ↦ some (revoke_session env s r (because reason)) ])
          ≡ some q
        → Preserves s.sessions q.0.sessions
    by_found none found h = absurd (none-ne-some q h)
    by_found (some r) found h =
        subst (λ (x : Server × Bool). Preserves s.sessions x.0.sessions)
          (some-injective (revoke_session env s r (because reason)) q h)
          (revoke_session-Preserves env s r (because reason) (
            ap (λ j. get_session s j)
              (get-key session_key s.sessions k r (unfold get_session in found))
            ∙ found))

-- What an operation that may fail leaves, when it does not.
pub unless_fails :
    (rows : List SessionRecord) (t : Bool) (x s' : Server)
    → Preserves rows x.sessions
    → (if t then none else some x) ≡ some s'
    → Preserves rows s'.sessions
unless_fails rows true x s' p e = absurd (none-ne-some s' e)
unless_fails rows false x s' p e = subst (λ q. Preserves rows q.sessions) (some-injective x s' e) p

pub suspend-Preserves :
    (env : Env) (writes : Bool) (ws provider subject username by reason : Str) (s s' : Server)
    → suspend_principal env writes ws provider subject username by reason s ≡ some s'
    → Distinct (map session_key s.sessions)
    → Preserves s.sessions s'.sessions
unfolding suspend_principal emit hold_principal
suspend-Preserves env writes ws provider subject username by reason s s' e d =
    unless_fails s.sessions (is_empty subject || not writes) _ s'
      (revoke_by_subject-Preserves env ws provider subject (bytes "suspended: " ++ reason) _ d) e

pub lift-Preserves :
    (writes : Bool) (ws provider subject by : Str) (s s' : Server)
    → lift_suspension writes ws provider subject by s ≡ some s'
    → Preserves s.sessions s'.sessions
unfolding lift_suspension emit
lift-Preserves writes ws provider subject by s s' e =
    unless_fails s.sessions (not writes) _ s' (Preserves-refl s.sessions) e

pub fanout-Preserves :
    (env : Env) (ws provider subject : Str) (s : Server)
    → Distinct (map session_key s.sessions)
    → Preserves s.sessions (on_suspend_fanout env ws provider subject s).sessions
unfolding on_suspend_fanout
fanout-Preserves env ws provider subject s d = elim (Bool-cases (is_empty subject)) [
  | inl h ↦ rw h (Preserves-refl s.sessions)
  | inr h ↦ rw h (
      loop-Preserves env _ (fanout_one env ws provider subject)
        (λ f. fanned env f ws provider subject) (fanout_one-Moves env ws provider subject)
        (fanned-Evolves env s.facts ws provider subject) d)
]
