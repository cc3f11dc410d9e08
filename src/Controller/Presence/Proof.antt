-- ===== src/Controller/Presence/Proof.antt =====
-- What a stamped heartbeat proves.
use geneza.Base.{
  ◌<◌, ◌≡◌, refl, sym, ap, ◌∙◌, Bool, true, false, not, ◌&&◌, ◌||◌, Option, none, some, List, ◌⊎◌,
  inl, inr, Bool-cases, arith, leb, if◌then◌else◌, Str, bytes, bytes_eq, bytes_eq_iff, any,
}
use geneza.Base.Int.{ℤ, pos, ◌-ℤ◌, ltb_ℤ, leb_ℤ}
use geneza.Controller.Presence.{
  Attestation, EnrolledCredential, SessionRecord, PresenceConfig, Factor, software, webauthn,
  is_empty, is_hardware, by_kind, get_factor, factor_verify, beat_challenge, verified_by,
  verify_beat, rejected, not_required, stamped, stamp, after_beat, verify_presence_session,
}

-- The stub factor is allowed and no hardware is enrolled, and the beat is of this session, is newer
-- than the last one, and answers the challenge that is out, or, within an interval, the one before.
pub record Proves (cfg : PresenceConfig) (now : ℤ) (suspended : Bool) (att : Attestation)
    (enrolled : List EnrolledCredential) (s : SessionRecord) : Type 0 where
  pub not_suspended : suspended ≡ false
  pub required : s.require_presence ≡ true
  pub kind : att.kind ≡ bytes "software"
  pub allowed : cfg.allow_software ≡ true
  pub no_hardware : any is_hardware enrolled ≡ false
  pub this_session : att.session_id ≡ s.id
  pub newer : s.last_presence_counter < att.counter
  pub answers :
      (att.client_data ≡ s.presence_challenge)
      ⊎ ((att.client_data ≡ s.prev_presence_challenge)
          × (ltb_ℤ (now -ℤ s.prev_challenge_unix) cfg.heartbeat_interval ≡ true))

factor_verify-echoes :
    (f : Factor) (att : Attestation) (challenge id : Str)
    → factor_verify f att challenge id ≡ true
    → (f ≡ software) × (att.session_id ≡ id) × (att.client_data ≡ challenge)
unfolding factor_verify
factor_verify-echoes webauthn att challenge id h = cc
factor_verify-echoes software att challenge id h =
    let session = bytes_eq_iff att.session_id id in
    let echo = bytes_eq_iff att.client_data challenge in
    (refl, session.0 (ground arith), echo.0 (ground arith))

factor_lem :
    (stub allow hardware web : Bool)
    → (if stub && (not allow || hardware)
        then none
        else if stub
        then some software
        else if web
        then some webauthn
        else none)
      ≡ some software
    → (stub ≡ true) × (allow ≡ true) × (hardware ≡ false)
factor_lem true true false web h = (refl, refl, refl)
factor_lem true true true web h = cc
factor_lem true false hardware web h = cc
factor_lem false allow hardware true h = cc
factor_lem false allow hardware false h = cc

get_factor-software :
    (cfg : PresenceConfig) (kind : Str) (enrolled : List EnrolledCredential)
    → get_factor cfg kind enrolled ≡ some software
    → (kind ≡ bytes "software") × (cfg.allow_software ≡ true) × (any is_hardware enrolled ≡ false)
unfolding get_factor by_kind
get_factor-software cfg kind enrolled h =
    let r =
      factor_lem (bytes_eq kind (bytes "software")) cfg.allow_software (any is_hardware enrolled)
        (bytes_eq kind (bytes "webauthn")) h in
    ((bytes_eq_iff kind (bytes "software")).0 r.0, r.1, r.2)

beat_challenge-answers :
    (cfg : PresenceConfig) (now : ℤ) (att : Attestation) (s : SessionRecord)
    → att.client_data ≡ beat_challenge cfg now att s
    → (att.client_data ≡ s.presence_challenge)
      ⊎ ((att.client_data ≡ s.prev_presence_challenge)
          × (ltb_ℤ (now -ℤ s.prev_challenge_unix) cfg.heartbeat_interval ≡ true))
unfolding beat_challenge
beat_challenge-answers cfg now att s h =
    let grace =
      not (is_empty s.prev_presence_challenge)
      && bytes_eq att.client_data s.prev_presence_challenge
      && ltb_ℤ (now -ℤ s.prev_challenge_unix) cfg.heartbeat_interval in
    elim (Bool-cases grace) [
      | inl g ↦
          inr (
            (bytes_eq_iff att.client_data s.prev_presence_challenge).0 (ground arith),
            ground arith,
          )
      | inr g ↦ inl (h ∙ ap (λ b. if b then s.prev_presence_challenge else s.presence_challenge) g)
    ]

verified_by-proof :
    (o : Option Factor) (att : Attestation) (challenge id : Str)
    → verified_by o att challenge id ≡ true
    → (o ≡ some software) × (att.session_id ≡ id) × (att.client_data ≡ challenge)
unfolding verified_by
verified_by-proof none att challenge id h = cc
verified_by-proof (some f) att challenge id h =
    let e = factor_verify-echoes f att challenge id h in (ap some e.0, e.1, e.2)

beat_lem :
    (suspended off old ok : Bool) (t s' : SessionRecord)
    → (if suspended
        then rejected
        else if off
        then not_required
        else if old
        then rejected
        else if not ok
        then rejected
        else stamped t)
      ≡ stamped s'
    → (suspended ≡ false) × (off ≡ false) × (old ≡ false) × (ok ≡ true) × (t ≡ s')
unfolding after_beat
beat_lem true off old ok t s' h = cc
beat_lem false true old ok t s' h = cc
beat_lem false false true ok t s' h = cc
beat_lem false false false false t s' h = cc
beat_lem false false false true t s' h = (refl, refl, refl, refl, ap (after_beat t) h)

-- A heartbeat stamps a session only if the principal is not suspended, presence is required, the stub
-- factor is allowed and stands in for no enrolled hardware, and the beat is of this session, has a
-- larger counter than the last one, and echoes the challenge that is out, or the one before it within
-- a heartbeat interval, all in the session as the beat read it; the stamp records the time and the
-- counter, in the session as it is by then.
pub verify_presence_session-Proves :
    (cfg : PresenceConfig) (now : ℤ) (suspended : Bool) (next : Str) (att : Attestation)
    (enrolled : List EnrolledCredential) (s row s' : SessionRecord)
    → verify_presence_session cfg now suspended next att enrolled s row ≡ stamped s'
    → Proves cfg now suspended att enrolled s
      × (s'.last_presence_unix ≡ now)
      × (s'.last_presence_counter ≡ att.counter)
unfolding verify_presence_session verify_beat stamp
verify_presence_session-Proves cfg now suspended next att enrolled s row s' h =
    let (off, due, fresh, ok, same) =
      beat_lem suspended (not s.require_presence || leb_ℤ cfg.ttl (pos 0))
        (leb att.counter s.last_presence_counter) (verify_beat cfg now att s enrolled)
        (stamp now next att row) s' h in
    let (factor, session, echo) =
      verified_by-proof (get_factor cfg att.kind enrolled) att (beat_challenge cfg now att s) s.id
        ok in
    let (kind, allowed, no_hardware) = get_factor-software cfg att.kind enrolled factor in
    (
      record {
        not_suspended = off;
        required = ground arith;
        kind = kind;
        allowed = allowed;
        no_hardware = no_hardware;
        this_session = session;
        newer = ground arith;
        answers = beat_challenge-answers cfg now att s echo;
      },
      ap (λ x. x.last_presence_unix) (sym same),
      ap (λ x. x.last_presence_counter) (sym same),
    )

-- A heartbeat that stamps one row stamps any other, since only the session that it read is checked.
pub verify_presence_session_row :
    (cfg : PresenceConfig) (now : ℤ) (suspended : Bool) (next : Str) (att : Attestation)
    (enrolled : List EnrolledCredential) (s row s' other : SessionRecord)
    → verify_presence_session cfg now suspended next att enrolled s row ≡ stamped s'
    → verify_presence_session cfg now suspended next att enrolled s other
      ≡ stamped (stamp now next att other)
unfolding verify_presence_session
verify_presence_session_row cfg now suspended next att enrolled s row s' other h =
    let (off, due, fresh, ok, same) =
      beat_lem suspended (not s.require_presence || leb_ℤ cfg.ttl (pos 0))
        (leb att.counter s.last_presence_counter) (verify_beat cfg now att s enrolled)
        (stamp now next att row) s' h in
    rw (off, due, fresh, ok) refl
