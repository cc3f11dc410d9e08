-- ===== src/Agent/Lease.antt =====
-- internal/agentd/lease.go: the agent's enforcement on a direct session, over the live sessions of
-- Agent/Live.antt. The time is an argument; that the lease timer fires is the call
-- `on_lease_expired`.
pub mod Change
pub mod Epochs
pub mod Scope
pub mod Replay
pub mod Starvation
pub mod Teardown
pub mod Newer
mod Examples
use geneza.Base.{
  Bool, true, false, not, ◌&&◌, ◌||◌, Option, none, some, List, [], ◌∷◌, ◌++◌, if◌then◌else◌, Str,
  bytes, bytes_eq,
}
use geneza.Base.Int.{ℤ, pos, ltb_ℤ, leb_ℤ}
use geneza.Base.Dict.{Dict, get, put, remove}
use geneza.Trust.Signed.{Signed, Keys, Verifier, Result, ok, err, verify}
use geneza.Trust.Grant.{SessionGrant, Caps, verify_downgrade}
use geneza.Agent.Live.{
  LiveSession, Worker, Effect, cancel_conduit, kill_host, set_host_caps, revoked, rearm,
  revoke_live, tear_forwards, tear_writes,
}

pub record LeasePayload : Type 0 where
  pub session_id : Str
  pub epoch : ℤ
  pub expiry_unix_ms : ℤ
  pub client_noise_pub : Str

pub record DeltaPayload : Type 0 where
  pub session_id : Str
  pub epoch : ℤ
  pub lease_expiry_unix_ms : ℤ
  pub client_noise_pub : Str

pub record RevokePayload : Type 0 where
  pub session_id : Str
  pub epoch : ℤ
  pub reason : Str
  pub client_noise_pub : Str

-- The messages on the wire: an id, and the signed envelope's bytes.
pub record SessionLease : Type 0 where
  pub session_id : Str
  pub sig : Str

pub record SessionPolicyDelta : Type 0 where
  pub session_id : Str
  pub caps : Option Caps
  pub sig : Str

pub record SessionRevoke : Type 0 where
  pub session_id : Str
  pub sig : Str

-- What reaches the enforcement of a worker: a message of the control stream, or the timer of a
-- session that fires at a time.
pub data Message : Type 0 where
  session_lease : SessionLease → Message
  session_policy_delta : SessionPolicyDelta → Message
  session_revoke : SessionRevoke → Message
  lease_timer : ℤ → Str → Message

abbrev pub context_session_policy : Str
context_session_policy = bytes "session-policy"

expire : Worker → ℤ → Str → Option LiveSession → Worker × List Effect
expire w now id none = (w, [])
expire w now id (some ls) =
    if ltb_ℤ now ls.lease_deadline
    then (w, [])
    else (record { live = remove w.live id }, cancel_conduit id ∷ [])

-- onLeaseExpired, at the time `now`
pub on_lease_expired : Worker → ℤ → Str → Worker × List Effect
unfolding expire
on_lease_expired w now id = expire w now id (get w.live id)

is_none {ℓ} : {A : Type ℓ} → Option A → Bool
is_none none = true
is_none (some a) = false

-- The lease of a live session, once its payload is verified.
lease_live : Worker → Str → LeasePayload → Option LiveSession → Worker
lease_live w id p none = w
lease_live w id p (some ls) =
    if not (bytes_eq p.session_id id) || not (bytes_eq p.client_noise_pub ls.client_noise_pub)
    then w
    else if leb_ℤ p.epoch ls.epoch
    then w
    else record { live = put w.live id (rearm (record ls { epoch = p.epoch }) p.expiry_unix_ms) }

-- What a delta that commits leaves of the session.
commit_caps : LiveSession → DeltaPayload → Option Caps → LiveSession
unfolding rearm
commit_caps ls p caps =
    let ls' : LiveSession = record ls { epoch = p.epoch; caps = caps } in
    if ltb_ℤ (pos 0) p.lease_expiry_unix_ms then rearm ls' p.lease_expiry_unix_ms else ls'

pub targets_of : Option Caps → List Str
targets_of none = []
targets_of (some c) = c.forward_targets

allows_write : Option Caps → Bool
allows_write none = false
allows_write (some c) = c.allow_sftp_write

is_cut : Option Caps → Bool
is_cut none = false
is_cut (some c) = not c.allow

-- The commit of applyDelta under the session's lock, with its re-check of the epoch.
pub delta_commit : Worker → Str → DeltaPayload → Option Caps → LiveSession → Worker × List Effect
unfolding commit_caps tear_forwards targets_of tear_writes allows_write
delta_commit w id p caps ls =
    if leb_ℤ p.epoch ls.epoch
    then (w, [])
    else let w' : Worker = record { live = put w.live id (commit_caps ls p caps) } in
      (
        w',
        set_host_caps id caps ∷ tear_forwards w' id (targets_of caps)
            ++ (if not (allows_write caps) then tear_writes w' id else []),
      )

-- applyDelta after the payload is verified: the session as it was found.
delta_live : Worker → Str → DeltaPayload → Option Caps → Option LiveSession → Worker × List Effect
unfolding delta_commit is_cut
delta_live w id p caps none = (w, [])
delta_live w id p caps (some ls) =
    if not (bytes_eq p.session_id id) || not (bytes_eq p.client_noise_pub ls.client_noise_pub)
    then (w, [])
    else if leb_ℤ p.epoch ls.epoch
    then (w, [])
    else if not (is_none (verify_downgrade ls.grant caps))
    then (w, [])
    else if is_cut caps
    then revoke_live w id (bytes "policy delta: cut")
    else delta_commit w id p caps ls

-- The revoke of a session that is live here must carry its key and a new epoch.
revoke_checked : Worker → Str → RevokePayload → Option LiveSession → Worker × List Effect
revoke_checked w id p none = revoke_live w id p.reason
revoke_checked w id p (some ls) =
    if not (bytes_eq p.client_noise_pub ls.client_noise_pub)
    then (w, [])
    else if leb_ℤ p.epoch ls.epoch
    then (w, [])
    else revoke_live w id p.reason

-- The handlers, from the payload that the envelope gave, if it verified.
lease_verified : Worker → SessionLease → Option LeasePayload → Worker
unfolding lease_live
lease_verified w l none = w
lease_verified w l (some p) = lease_live w l.session_id p (get w.live l.session_id)

delta_verified : Worker → SessionPolicyDelta → Option DeltaPayload → Worker × List Effect
unfolding delta_live
delta_verified w d none = (w, [])
delta_verified w d (some p) = delta_live w d.session_id p d.caps (get w.live d.session_id)

revoke_verified : Worker → SessionRevoke → Option RevokePayload → Worker × List Effect
unfolding revoke_checked revoke_live
revoke_verified w r none = (w, [])
revoke_verified w r (some p) =
    if not (bytes_eq p.session_id r.session_id)
    then (w, [])
    else revoke_checked w r.session_id p (get w.live r.session_id)

-- The three decoders of a payload.
pub record Decoders : Type 0 where
  pub lease : Str → Option LeasePayload
  pub delta : Str → Option DeltaPayload
  pub revoke : Str → Option RevokePayload

module _ (ed_verify : Verifier) (decode_signed : Str → Option Signed) (trusted : Keys) where
  -- verifyEnforcement, with the decoder of the payload
  unfoldable pub verify_enforcement : {A : Type 0} → (Str → Option A) → Str → Option A
  verify_enforcement {A} decode sig = elim (decode_signed sig) [
    | none ↦ none
    | some env ↦ elim (verify ed_verify decode trusted context_session_policy (some env)) [
      | ok (_, a) ↦ some a
      | err _ ↦ none
    ]
  ]

  pub apply_lease : (Str → Option LeasePayload) → Worker → SessionLease → Worker
  unfolding lease_verified
  apply_lease decode w l = lease_verified w l (verify_enforcement decode l.sig)

  pub apply_delta : (Str → Option DeltaPayload) → Worker → SessionPolicyDelta → Worker × List Effect
  unfolding delta_verified
  apply_delta decode w d = delta_verified w d (verify_enforcement decode d.sig)

  pub apply_revoke : (Str → Option RevokePayload) → Worker → SessionRevoke → Worker × List Effect
  unfolding revoke_verified
  apply_revoke decode w r = revoke_verified w r (verify_enforcement decode r.sig)

  -- The dispatch of the control stream, for the messages of the enforcement.
  pub handle : Decoders → Worker → Message → Worker × List Effect
  unfolding apply_lease apply_delta apply_revoke
  handle decoders w (session_lease l) = (apply_lease decoders.lease w l, [])
  handle decoders w (session_policy_delta d) = apply_delta decoders.delta w d
  handle decoders w (session_revoke r) = apply_revoke decoders.revoke w r
  handle decoders w (lease_timer now id) = on_lease_expired w now id

  pub handle_all : Decoders → Worker → List Message → Worker
  handle_all decoders w [] = w
  handle_all decoders w (m ∷ ms) = handle_all decoders (handle decoders w m).0 ms
