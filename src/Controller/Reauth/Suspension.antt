-- ===== src/Controller/Reauth/Suspension.antt =====
-- The revokes of many sessions at once, and the suspension of a principal.
use geneza.Base.{
  ◌≡◌, refl, sym, ◌∙◌, ap, subst, Bool, true, false, not, ◌&&◌, ◌||◌, Option, none, some,
  Bool-cases, inl, inr, arith, if◌then◌else◌, Str, map, Distinct, ◌++◌, bytes, bytes_eq_iff,
}
use mathlib.Core.Option.{some-injective, none-ne-some}
use geneza.Base.Dict.{get, get-put_self}
use geneza.Controller.Rows.{Key, map_option, get_row}
use geneza.Controller.Sessions.{
  SuspensionRecord, SessionRecord, session_key, RevokeReason, because, Facts, Server, Env,
  get_session, is_live, emit,
}
use geneza.Controller.Reauth.{
  reauthorize, is_suspended, principal_key, norm_provider, is_empty, mark_revoked, refuse,
}
use geneza.Controller.Reauth.Ops.{
  revoke_where, revoke_if, revoke_by_subject, of_principal, suspend_principal, hold_principal,
}
use geneza.Controller.Reauth.Loops.{over_sessions-get, over_sessions-frame}
use geneza.Controller.Reauth.Steps.{cut}
use geneza.Controller.Reauth.Acts.{cut_if, revoke_if-Moves}

pub revoke_where-facts :
    (env : Env) (chosen : SessionRecord → Bool) (reason : RevokeReason) (s : Server)
    → Distinct (map session_key s.sessions)
    → (revoke_where env chosen reason s).0.facts ≡ s.facts
unfolding revoke_where
revoke_where-facts env chosen reason s d =
    (over_sessions-frame s.facts (revoke_if env chosen reason) (cut_if env chosen reason)
      (λ q r f here. revoke_if-Moves env chosen reason q r here) env s refl d).0

cut_if-live :
    (env : Env) (chosen : SessionRecord → Bool) (reason : RevokeReason) (r : SessionRecord)
    → chosen (cut_if env chosen reason r) ≡ true
    → is_live (cut_if env chosen reason r).state ≡ false
unfolding cut_if cut mark_revoked
cut_if-live env chosen reason r h = elim (Bool-cases (is_live r.state)) [
  | inr l ↦ elim (Bool-cases (chosen r)) [ inl c ↦ rw (c, l) l | inr c ↦ rw c l ]
  | inl l ↦ elim (Bool-cases (chosen r)) [
    | inl c ↦ rw (c, l) refl
    | inr c ↦
        absurd (cc (c, subst (λ b. chosen (if b then cut env reason r else r) ≡ true) (passed c) h))
  ]
]
  where
    passed : chosen r ≡ false → (chosen r && is_live r.state) ≡ false
    passed c = rw c refl

-- No session that was chosen, and still would be, is live when the revokes are done.
pub revoke_where-cuts :
    (env : Env) (chosen : SessionRecord → Bool) (reason : RevokeReason) (s : Server) (k : Key)
    (r' : SessionRecord)
    → env.lists ≡ true
    → Distinct (map session_key s.sessions)
    → get_session (revoke_where env chosen reason s).0 k ≡ some r'
    → chosen r' ≡ true
    → is_live r'.state ≡ false
unfolding revoke_where
revoke_where-cuts env chosen reason s k r' lists d found still = of_map (get_session s k) (
    sym (
      over_sessions-get s.facts (revoke_if env chosen reason) (cut_if env chosen reason)
        (λ q r f here. revoke_if-Moves env chosen reason q r here) env s lists refl d k)
    ∙ found)
  where
    of_map :
        (o : Option SessionRecord)
        → map_option (cut_if env chosen reason) o ≡ some r'
        → is_live r'.state ≡ false
    of_map none e = absurd (none-ne-some r' e)
    of_map (some r) e =
        let same = some-injective (cut_if env chosen reason r) r' e in
        subst (λ (x : SessionRecord). is_live x.state ≡ false) same
          (cut_if-live env chosen reason r (ap (λ x. chosen x) same ∙ still))

of_principal-key :
    (ws provider subject : Str) (r : SessionRecord)
    → of_principal ws provider subject r ≡ true
    → (principal_key r.workspace_id r.provider r.subject ≡ principal_key ws provider subject)
      × (r.subject ≡ subject)
unfolding of_principal principal_key
of_principal-key ws provider subject r h =
    let w = (bytes_eq_iff r.workspace_id ws).0 (ground arith) in
    let p = (bytes_eq_iff (norm_provider r.provider) (norm_provider provider)).0 (ground arith) in
    let u = (bytes_eq_iff r.subject subject).0 (ground arith) in
    ((λ i. w i ++ bytes "|" ++ p i ++ bytes "|" ++ u i), u)

suspended-row :
    (env : Env) (f : Facts) (ws provider subject : Str) (row : SuspensionRecord)
    → is_empty subject ≡ false
    → env.reads_suspension (principal_key ws provider subject) ≡ true
    → get f.suspensions (principal_key ws provider subject) ≡ some row
    → is_suspended env f ws provider subject ≡ true
unfolding is_suspended
suspended-row env f ws provider subject row full reads stands = rw (full, reads, stands) refl

suspended-reauthorize :
    (env : Env) (f : Facts) (r : SessionRecord)
    → is_suspended env f r.workspace_id r.provider r.subject ≡ true
    → (reauthorize env f r).allow ≡ false
unfolding reauthorize refuse
suspended-reauthorize env f r h = rw h refl

revoke_by_subject-facts :
    (env : Env) (ws provider subject reason : Str) (s : Server)
    → Distinct (map session_key s.sessions)
    → (revoke_by_subject env ws provider subject reason s).0.facts ≡ s.facts
unfolding revoke_by_subject
revoke_by_subject-facts env ws provider subject reason s d = elim (Bool-cases (is_empty subject)) [
  | inl h ↦ rw h refl
  | inr h ↦ rw h (revoke_where-facts env (of_principal ws provider subject) (because reason) s d)
]

revoke_by_subject-cuts :
    (env : Env) (ws provider subject reason : Str) (s : Server) (k : Key) (r' : SessionRecord)
    → env.lists ≡ true
    → Distinct (map session_key s.sessions)
    → is_empty subject ≡ false
    → get_session (revoke_by_subject env ws provider subject reason s).0 k ≡ some r'
    → of_principal ws provider subject r' ≡ true
    → is_live r'.state ≡ false
unfolding revoke_by_subject
revoke_by_subject-cuts env ws provider subject reason s k r' lists d full found mine =
    revoke_where-cuts env (of_principal ws provider subject) (because reason) s k r' lists d
      (sym (rw full refl) ∙ found) mine

succeeds :
    (t : Bool) (x s' : Server) → (if t then none else some x) ≡ some s' → (t ≡ false) × (x ≡ s')
succeeds true x s' e = absurd (none-ne-some s' e)
succeeds false x s' e = (refl, some-injective x s' e)

module _ (env : Env) (ws provider subject username by reason : Str) (s : Server) where
  after : Server
  unfolding revoke_by_subject hold_principal
  after =
      (revoke_by_subject env ws provider subject (bytes "suspended: " ++ reason)
        (hold_principal env ws provider subject username by reason s)).0

  -- A suspension that succeeds has a subject, and does these steps.
  suspend_principal-inv :
      (writes : Bool) (s' : Server)
      → suspend_principal env writes ws provider subject username by reason s ≡ some s'
      → (is_empty subject ≡ false) × (s'.sessions ≡ after.sessions) × (s'.facts ≡ after.facts)
  unfolding suspend_principal after emit
  suspend_principal-inv writes s' e =
      let r = succeeds (is_empty subject || not writes) _ s' e in
      (
        ground (arith, r.0),
        ap (λ (x : Server). x.sessions) (sym r.1),
        ap (λ (x : Server). x.facts) (sym r.1),
      )

  after-row :
      Distinct (map session_key s.sessions)
      → get after.facts.suspensions (principal_key ws provider subject)
        ≡ some (record {
          username = username;
          reason = reason;
          suspended_by = by;
          suspended_unix = env.now;
        })
  unfolding after hold_principal
  after-row d =
      rw
        (revoke_by_subject-facts env ws provider subject (bytes "suspended: " ++ reason)
          (hold_principal env ws provider subject username by reason s) d)
        (get-put_self s.facts.suspensions (principal_key ws provider subject) _)

  after-suspended :
      (env' : Env) (f : Facts) (r : SessionRecord)
      → Distinct (map session_key s.sessions)
      → is_empty subject ≡ false
      → of_principal ws provider subject r ≡ true
      → env'.reads_suspension (principal_key ws provider subject) ≡ true
      → get f.suspensions (principal_key ws provider subject)
        ≡ get after.facts.suspensions (principal_key ws provider subject)
      → is_suspended env' f r.workspace_id r.provider r.subject ≡ true
  after-suspended env' f r d full mine reads stands =
      let same = of_principal-key ws provider subject r mine in
      suspended-row env' f r.workspace_id r.provider r.subject _
        (ap (λ (x : Str). is_empty x) same.1 ∙ full)
        (ap (λ k. env'.reads_suspension k) same.0 ∙ reads)
        (ap (λ k. get f.suspensions k) same.0 ∙ stands ∙ after-row d)

-- A suspension that succeeds, with the sessions listed and the writes of their rows committed, leaves
-- no session of the principal active or detached, under whichever form of the provider it was opened;
-- and every later decision denies them as long as the row of the suspension stands and can be read,
-- whatever becomes of the nodes and the policies, so that a pending session that starts is cut by the
-- next sweep.
pub suspend_principal-cuts :
    (env env' : Env) (writes : Bool) (ws provider subject username by reason : Str) (s s' : Server)
    (f : Facts) (k : Key) (r' : SessionRecord)
    → env.lists ≡ true
    → Distinct (map session_key s.sessions)
    → suspend_principal env writes ws provider subject username by reason s ≡ some s'
    → get_session s' k ≡ some r'
    → of_principal ws provider subject r' ≡ true
    → env'.reads_suspension (principal_key ws provider subject) ≡ true
    → get f.suspensions (principal_key ws provider subject)
      ≡ get s'.facts.suspensions (principal_key ws provider subject)
    → (is_live r'.state ≡ false) × ((reauthorize env' f r').allow ≡ false)
unfolding after hold_principal get_session
suspend_principal-cuts env env' writes ws provider subject username by reason s s' f k r' lists d e
      found mine reads stands =
    let inv = suspend_principal-inv env ws provider subject username by reason s writes s' e in
    (
      revoke_by_subject-cuts env ws provider subject (bytes "suspended: " ++ reason)
          (hold_principal env ws provider subject username by reason s) k r' lists d inv.0
          (ap (λ rows. get_row session_key rows k) (sym inv.1) ∙ found) mine,
      suspended-reauthorize env' f r' (
          after-suspended env ws provider subject username by reason s env' f r' d inv.0 mine reads
            (stands
              ∙ ap (λ (x : Facts). get x.suspensions (principal_key ws provider subject)) inv.2)),
    )
