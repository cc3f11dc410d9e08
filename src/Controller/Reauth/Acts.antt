-- ===== src/Controller/Reauth/Acts.antt =====
-- What the loops other than the sweep make of one session, and that every change of a loop is one
-- that a record may undergo.
use geneza.Base.{
  ◌≡◌, refl, Bool, true, false, not, ◌&&◌, some, Bool-cases, inl, inr, if◌then◌else◌, Str, bytes,
  bytes_eq, ◌++◌,
}
use geneza.Controller.Sessions.{
  pending, active, detached, ended, revoked, SessionState, SessionRecord, session_key, RevokeReason,
  because, Facts, Server, Env, get_session, bump_epoch, is_live, is_revoked, is_terminal, online,
}
use geneza.Controller.Sessions.Touches.{Moves}
use geneza.Controller.Reauth.{reauthorize, norm_provider, revocable}
use geneza.Controller.Reauth.Ops.{redeliver_one, revoke_if, fanout_one, of_principal, re_push_owed}
use geneza.Controller.Reauth.Steps.{
  cut, driven, drive_live_session-Moves, re_push_revoke-Moves, revoke_session-Moves, Moves-none,
}
use geneza.Controller.Reauth.Sweep.{swept}
use geneza.Controller.Reauth.Evolution.{Evolves, Evolves-refl, bump_epoch-Evolves, cut-Evolves}

-- The branches of a test.
Evolves-if :
    {r a b : SessionRecord} (t : Bool)
    → (t ≡ true → Evolves r a)
    → (t ≡ false → Evolves r b)
    → Evolves r (if t then a else b)
Evolves-if true one other = one refl
Evolves-if false one other = other refl

Moves-if :
    {s : Server} {r a b : SessionRecord} (p q : Server × Bool) (t : Bool)
    → (t ≡ true → Moves s p.0 r a)
    → (t ≡ false → Moves s q.0 r b)
    → Moves s (if t then p else q).0 r (if t then a else b)
Moves-if p q true one other = one refl
Moves-if p q false one other = other refl

Moves-if_server :
    {s p q : Server} {r a b : SessionRecord} (t : Bool)
    → (t ≡ true → Moves s p r a)
    → (t ≡ false → Moves s q r b)
    → Moves s (if t then p else q) r (if t then a else b)
Moves-if_server true one other = one refl
Moves-if_server false one other = other refl

live-unfinished : (st : SessionState) → is_live st ≡ true → is_terminal st ≡ false
live-unfinished pending h = refl
live-unfinished active h = refl
live-unfinished detached h = refl
live-unfinished ended h = cc
live-unfinished revoked h = cc

pub revocable-unfinished : (st : SessionState) → revocable st ≡ true → is_terminal st ≡ false
revocable-unfinished pending h = refl
revocable-unfinished active h = refl
revocable-unfinished detached h = refl
revocable-unfinished ended h = cc
revocable-unfinished revoked h = cc

pub cut_live-Evolves :
    (env : Env) (reason : RevokeReason) (r : SessionRecord)
    → is_live r.state ≡ true
    → Evolves r (cut env reason r)
cut_live-Evolves env reason r h = cut-Evolves env reason r (live-unfinished r.state h)

driven-Evolves :
    (env : Env) (f : Facts) (r : SessionRecord)
    → is_live r.state ≡ true
    → Evolves r (driven env f r)
unfolding driven
driven-Evolves env f r live = elim (Bool-cases (reauthorize env f r).allow) [
  | inl h ↦ rw h (bump_epoch-Evolves r)
  | inr h ↦ rw h (cut_live-Evolves env _ r live)
]

pub swept-Evolves : (env : Env) (f : Facts) (r : SessionRecord) → Evolves r (swept env f r)
unfolding swept
swept-Evolves env f r =
    Evolves-if (is_live r.state) (λ h. driven-Evolves env f r h)
      (λ h.
        Evolves-if (is_revoked r.state && not r.revoke_delivered && online f r.node_id)
          (λ e. bump_epoch-Evolves r) (λ e. Evolves-refl r))

-- A teardown that is pushed once more if it is owed.
unfoldable pub re_pushed : SessionRecord → SessionRecord
unfolding bump_epoch
re_pushed r = if not r.revoke_delivered then bump_epoch r else r

re_pushed-Evolves : (r : SessionRecord) → Evolves r (re_pushed r)
unfolding re_pushed
re_pushed-Evolves r =
    Evolves-if (not r.revoke_delivered) (λ h. bump_epoch-Evolves r) (λ h. Evolves-refl r)

re_push_owed-Moves :
    (env : Env) (s : Server) (r : SessionRecord)
    → get_session s (session_key r) ≡ some r
    → Moves s (re_push_owed env s r) r (re_pushed r)
unfolding re_pushed re_push_owed
re_push_owed-Moves env s r here =
    Moves-if_server (not r.revoke_delivered) (λ h. re_push_revoke-Moves env s r here)
      (λ h. Moves-none s r here)

unfoldable pub redelivered : Env → Facts → Str → SessionRecord → SessionRecord
unfolding re_pushed driven
redelivered env f node_id r =
    if not (bytes_eq r.node_id node_id)
    then r
    else if is_revoked r.state
    then re_pushed r
    else if is_live r.state
    then driven env f r
    else r

pub redeliver_one-Moves :
    (env : Env) (node_id : Str) (s : Server) (r : SessionRecord)
    → get_session s (session_key r) ≡ some r
    → Moves s (redeliver_one env node_id s r).0 r (redelivered env s.facts node_id r)
unfolding redelivered redeliver_one
redeliver_one-Moves env node_id s r here =
    Moves-if _ _ (not (bytes_eq r.node_id node_id)) (λ h. Moves-none s r here)
      (λ h.
        Moves-if _ _ (is_revoked r.state) (λ e. re_push_owed-Moves env s r here)
          (λ e.
            Moves-if _ _ (is_live r.state) (λ l. drive_live_session-Moves env s r l here)
              (λ l. Moves-none s r here)))

pub redelivered-Evolves :
    (env : Env) (f : Facts) (node_id : Str) (r : SessionRecord)
    → Evolves r (redelivered env f node_id r)
unfolding redelivered
redelivered-Evolves env f node_id r =
    Evolves-if (not (bytes_eq r.node_id node_id)) (λ h. Evolves-refl r)
      (λ h.
        Evolves-if (is_revoked r.state) (λ e. re_pushed-Evolves r)
          (λ e. Evolves-if (is_live r.state) (λ l. driven-Evolves env f r l) (λ l. Evolves-refl r)))

unfoldable pub cut_if : Env → (SessionRecord → Bool) → RevokeReason → SessionRecord → SessionRecord
unfolding cut
cut_if env chosen reason r = if chosen r && is_live r.state then cut env reason r else r

pub revoke_if-Moves :
    (env : Env) (chosen : SessionRecord → Bool) (reason : RevokeReason) (s : Server)
    (r : SessionRecord)
    → get_session s (session_key r) ≡ some r
    → Moves s (revoke_if env chosen reason s r).0 r (cut_if env chosen reason r)
unfolding cut_if revoke_if
revoke_if-Moves env chosen reason s r here = elim (Bool-cases (chosen r)) [
  | inr h ↦ rw h (Moves-none s r here)
  | inl h ↦ elim (Bool-cases (is_live r.state)) [
    | inl l ↦ rw (h, l) (revoke_session-Moves env s r reason l here)
    | inr l ↦ rw (h, l) (Moves-none s r here)
  ]
]

pub cut_if-Evolves :
    (env : Env) (chosen : SessionRecord → Bool) (reason : RevokeReason) (r : SessionRecord)
    → Evolves r (cut_if env chosen reason r)
unfolding cut_if
cut_if-Evolves env chosen reason r = elim (Bool-cases (chosen r)) [
  | inr h ↦ rw h (Evolves-refl r)
  | inl h ↦ elim (Bool-cases (is_live r.state)) [
    | inl l ↦ rw (h, l) (cut_live-Evolves env reason r l)
    | inr l ↦ rw (h, l) (Evolves-refl r)
  ]
]

unfoldable pub fanned : Env → Facts → Str → Str → Str → SessionRecord → SessionRecord
unfolding re_pushed cut norm_provider of_principal online
fanned env f ws provider subject r =
    if not (of_principal ws provider subject r)
    then r
    else if not (online f r.node_id)
    then r
    else if is_live r.state
    then cut env (because (bytes "suspended: " ++ norm_provider provider)) r
    else if is_revoked r.state
    then re_pushed r
    else r

pub fanout_one-Moves :
    (env : Env) (ws provider subject : Str) (s : Server) (r : SessionRecord)
    → get_session s (session_key r) ≡ some r
    → Moves s
        (fanout_one env ws provider subject s r).0
        r
        (fanned env s.facts ws provider subject r)
unfolding fanned fanout_one
fanout_one-Moves env ws provider subject s r here =
    Moves-if _ _ (not (of_principal ws provider subject r)) (λ h. Moves-none s r here)
      (λ h.
        Moves-if _ _ (not (online s.facts r.node_id)) (λ o. Moves-none s r here)
          (λ o.
            Moves-if _ _ (is_live r.state) (λ l. revoke_session-Moves env s r _ l here)
              (λ l.
                Moves-if _ _ (is_revoked r.state) (λ e. re_push_owed-Moves env s r here)
                  (λ e. Moves-none s r here))))

pub fanned-Evolves :
    (env : Env) (f : Facts) (ws provider subject : Str) (r : SessionRecord)
    → Evolves r (fanned env f ws provider subject r)
unfolding fanned
fanned-Evolves env f ws provider subject r =
    Evolves-if (not (of_principal ws provider subject r)) (λ h. Evolves-refl r)
      (λ h.
        Evolves-if (not (online f r.node_id)) (λ o. Evolves-refl r)
          (λ o.
            Evolves-if (is_live r.state) (λ l. cut_live-Evolves env _ r l)
              (λ l.
                Evolves-if (is_revoked r.state) (λ e. re_pushed-Evolves r) (λ e. Evolves-refl r))))
