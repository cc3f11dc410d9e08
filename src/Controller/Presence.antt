-- ===== src/Controller/Presence.antt =====
-- internal/controller/presence.go: the heartbeats that keep a session present.
-- One beat reads the clock once, and reads the session and stamps it in two transactions. The store finds the session and takes the stamp; the challenge that
-- a beat rotates in, and whether the principal is suspended, are arguments.
pub mod Proof
pub mod Replay
mod Examples
use geneza.Base.{
  ℕ, Bool, true, false, not, ◌&&◌, ◌||◌, Option, none, some, List, [], ◌∷◌, ltb, leb, ◌==◌,
  if◌then◌else◌, Str, bytes, bytes_eq, any,
}
use geneza.Base.Int.{ℤ, pos, ◌-ℤ◌, ltb_ℤ, leb_ℤ}

pub record Attestation : Type 0 where
  pub kind : Str
  pub session_id : Str
  pub counter : ℕ
  pub client_data : Str

-- The kind of an enrolled credential.
pub record EnrolledCredential : Type 0 where
  pub kind : Str

pub record SessionRecord : Type 0 where
  pub id : Str
  pub require_presence : Bool
  pub presence_challenge : Str
  pub prev_presence_challenge : Str
  pub prev_challenge_unix : ℤ
  pub last_presence_unix : ℤ
  pub last_presence_counter : ℕ

-- Durations in seconds.
pub record PresenceConfig : Type 0 where
  pub allow_software : Bool
  pub heartbeat_interval : ℤ
  pub ttl : ℤ

pub data Factor : Type 0 where
  software webauthn : Factor

abbrev is_empty {ℓ} : {A : Type ℓ} → List A → Bool
is_empty [] = true
is_empty (x ∷ xs) = false

-- A credential of hardware: of a kind that is named and is not the stub's.
pub is_hardware : EnrolledCredential → Bool
is_hardware c = not (is_empty c.kind) && not (bytes_eq c.kind (bytes "software"))

by_kind : Str → Option Factor
by_kind kind =
    if bytes_eq kind (bytes "software")
    then some software
    else if bytes_eq kind (bytes "webauthn")
    then some webauthn
    else none

-- presenceRegistry.Get
pub get_factor : PresenceConfig → Str → List EnrolledCredential → Option Factor
unfolding is_hardware by_kind
get_factor cfg kind enrolled =
    if bytes_eq kind (bytes "software") && (not cfg.allow_software || any is_hardware enrolled)
    then none
    else by_kind kind

-- Verify of a factor; the hardware one refuses until it is implemented.
pub factor_verify : Factor → Attestation → Str → Str → Bool
factor_verify webauthn att challenge session_id = false
factor_verify software att challenge session_id =
    not (is_empty challenge || not (bytes_eq att.client_data challenge))
    && bytes_eq att.session_id session_id
    && not (att.counter == 0)

-- The challenge to verify against: the previous one within the grace of a heartbeat interval.
pub beat_challenge : PresenceConfig → ℤ → Attestation → SessionRecord → Str
beat_challenge cfg now att s =
    if not (is_empty s.prev_presence_challenge)
      && bytes_eq att.client_data s.prev_presence_challenge
      && ltb_ℤ (now -ℤ s.prev_challenge_unix) cfg.heartbeat_interval
    then s.prev_presence_challenge
    else s.presence_challenge

verified_by : Option Factor → Attestation → Str → Str → Bool
unfolding factor_verify
verified_by none att challenge session_id = false
verified_by (some f) att challenge session_id = factor_verify f att challenge session_id

-- verifyBeat: whether there is no error.
pub verify_beat : PresenceConfig → ℤ → Attestation → SessionRecord → List EnrolledCredential → Bool
unfolding verified_by get_factor beat_challenge
verify_beat cfg now att s enrolled =
    verified_by (get_factor cfg att.kind enrolled) att (beat_challenge cfg now att s) s.id

pub data Beat : Type 0 where
  rejected not_required : Beat
  -- the session with its stamp
  stamped : SessionRecord → Beat

unfoldable pub stamp : ℤ → Str → Attestation → SessionRecord → SessionRecord
stamp now next att s = record s {
  prev_presence_challenge = s.presence_challenge;
  prev_challenge_unix = now;
  presence_challenge = next;
  last_presence_unix = now;
  last_presence_counter = att.counter;
}

-- verifyPresenceSession: the checks are on the session `s` that GetSession read, and the stamp is on
-- the row that UpdateSession finds later, without a check of its own. The write commits.
pub verify_presence_session :
    PresenceConfig
    → ℤ
    → Bool
    → Str
    → Attestation
    → List EnrolledCredential
    → SessionRecord
    → SessionRecord
    → Beat
unfolding verify_beat stamp
verify_presence_session cfg now suspended next att enrolled s row =
    if suspended
    then rejected
    else if not s.require_presence || leb_ℤ cfg.ttl (pos 0)
    then not_required
    else if leb att.counter s.last_presence_counter
    then rejected
    else if not (verify_beat cfg now att s enrolled)
    then rejected
    else stamped (stamp now next att row)

-- What a beat leaves of the session.
unfoldable pub after_beat : SessionRecord → Beat → SessionRecord
after_beat s rejected = s
after_beat s not_required = s
after_beat s (stamped s') = s'
