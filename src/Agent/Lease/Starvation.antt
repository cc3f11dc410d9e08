-- ===== src/Agent/Lease/Starvation.antt =====
-- What ends a direct session: its lease runs out, or the controller revokes it.
use geneza.Base.{
  All, subst, ◌≡◌, refl, sym, ap, ◌∙◌, true, Option, none, some, inl, inr, Bool-cases, arith, Str,
  bytes_eq, bytes_eq_iff, ◌↔◌, In,
}
use mathlib.Core.Option.{some-injective, none-ne-some}
use geneza.Base.Int.{ℤ, ltb_ℤ, leb_ℤ}
use geneza.Base.Dict.{get, get-remove_self}
use geneza.Trust.Signed.{Keys, Verifier, Signed}
use geneza.Agent.Live.{revoke_effects, LiveSession, Worker, Effect, kill_host, revoke_live}
use geneza.Agent.Lease.{
  expire, on_lease_expired, RevokePayload, SessionRevoke, revoke_checked, revoke_verified,
  verify_enforcement, apply_revoke,
}

expire_lem :
    (w : Worker) (now : ℤ) (id : Str) (o : Option LiveSession) (ls : LiveSession)
    → get w.live id ≡ o
    → (get (expire w now id o).0.live id ≡ some ls)
      ↔ ((o ≡ some ls) × (ltb_ℤ now ls.lease_deadline ≡ true))
unfolding expire
expire_lem w now id none ls e = rw e (ground arith)
expire_lem w now id (some a) ls e = elim (Bool-cases (ltb_ℤ now a.lease_deadline)) [
  | inl b ↦
      rw (b, e)
        (
          λ q. (q, subst (λ x. ltb_ℤ now x.lease_deadline ≡ true) (some-injective a ls q) b),
          λ q. q.0,
        )
  | inr b ↦
      rw (b, get-remove_self w.live id)
        (λ q. cc, λ q. cc (b, q.1, ap (λ x. ltb_ℤ now x.lease_deadline) (some-injective a ls q.0)))
]

-- An effect that leaves the session host's PTY alone.
pub SparesHost : Effect → Type 0
SparesHost (kill_host j) = ⊥
SparesHost e = Unit

expire-SparesHost :
    (w : Worker) (now : ℤ) (id : Str) (o : Option LiveSession)
    → All SparesHost (expire w now id o).1
unfolding expire SparesHost
expire-SparesHost w now id none = tt
expire-SparesHost w now id (some a) = elim (Bool-cases (ltb_ℤ now a.lease_deadline)) [
  | inl b ↦ rw b tt
  | inr b ↦ rw b (tt, tt)
]

-- When the lease timer of a session fires, the session stays live exactly if its deadline is still
-- ahead, so a lease that moved the deadline outlives a timer that was queued before it.
pub on_lease_expired_iff :
    (w : Worker) (now : ℤ) (id : Str) (ls : LiveSession)
    → (get (on_lease_expired w now id).0.live id ≡ some ls)
      ↔ ((get w.live id ≡ some ls) × (ltb_ℤ now ls.lease_deadline ≡ true))
unfolding on_lease_expired
on_lease_expired_iff w now id ls = expire_lem w now id (get w.live id) ls refl

-- A session whose lease starves loses its conduit at most: the timer never kills the PTY that the
-- session host keeps for a reattach.
pub on_lease_expired-SparesHost :
    (w : Worker) (now : ℤ) (id : Str) → All SparesHost (on_lease_expired w now id).1
unfolding on_lease_expired
on_lease_expired-SparesHost w now id = expire-SparesHost w now id (get w.live id)

-- What a verified revoke of a session still needs: nothing if it is not live here, its key and a new
-- epoch if it is.
abbrev pub Revokes : RevokePayload → Option LiveSession → Type 0
Revokes p none = Unit
Revokes p (some ls) = (p.client_noise_pub ≡ ls.client_noise_pub) × (ltb_ℤ ls.epoch p.epoch ≡ true)

revoke_effects-kills :
    (id reason : Str) (o : Option LiveSession) → In (kill_host id) (revoke_effects id reason o)
unfolding revoke_effects
revoke_effects-kills id reason none = inl refl
revoke_effects-kills id reason (some ls) = inr (inl refl)

revoke_checked-kills :
    (w : Worker) (id : Str) (p : RevokePayload) (o : Option LiveSession)
    → get w.live id ≡ o
    → In (kill_host id) (revoke_checked w id p o).1 ↔ Revokes p o
unfolding revoke_checked revoke_live
revoke_checked-kills w id p none e =
    (λ _. tt, λ _. revoke_effects-kills id p.reason (get w.live id))
revoke_checked-kills w id p (some ls) e =
    let key = bytes_eq_iff p.client_noise_pub ls.client_noise_pub in
    elim (Bool-cases (bytes_eq p.client_noise_pub ls.client_noise_pub)) [
      | inr b ↦ rw b (λ m. absurd m, λ h. cc (b, key.1 h.0))
      | inl b ↦ rw b (elim (Bool-cases (leb_ℤ p.epoch ls.epoch)) [
        | inl s ↦ rw s (λ m. absurd m, λ h. ground arith)
        | inr s ↦
            rw s
              (λ _. (key.0 b, ground arith), λ _. revoke_effects-kills id p.reason (get w.live id))
      ])
    ]

revoke_verified-kills :
    (w : Worker) (r : SessionRevoke) (o : Option RevokePayload)
    → In (kill_host r.session_id) (revoke_verified w r o).1
      ↔ (p : RevokePayload) × (o ≡ some p)
        × (p.session_id ≡ r.session_id)
        × Revokes p (get w.live r.session_id)
unfolding revoke_verified
revoke_verified-kills w r none = (λ m. absurd m, λ h. absurd (none-ne-some h.0 h.1))
revoke_verified-kills w r (some p) =
    let names = bytes_eq_iff p.session_id r.session_id in
    let body = revoke_checked-kills w r.session_id p (get w.live r.session_id) refl in
    elim (Bool-cases (bytes_eq p.session_id r.session_id)) [
      | inr b ↦ rw b (
        λ m. absurd m,
        λ h. cc (b, names.1 (ap (λ q. q.session_id) (some-injective p h.0 h.1) ∙ h.2)),
      )
      | inl b ↦ rw b (
        λ m. (p, refl, names.0 b, body.0 m),
        λ h.
            body.1 (
              subst (λ q. Revokes q (get w.live r.session_id)) (sym (some-injective p h.0 h.1))
                h.3),
      )
    ]

module _ (ed_verify : Verifier) (decode_signed : Str → Option Signed) (trusted : Keys) where
  -- A revoke kills the session's PTY at the session host exactly when its envelope verifies to a
  -- payload for the session that it names, and the session is not live here, or the payload carries
  -- its client key and an epoch that is strictly larger.
  pub apply_revoke-kills_iff :
      (decode : Str → Option RevokePayload) (w : Worker) (r : SessionRevoke)
      → In (kill_host r.session_id) (apply_revoke ed_verify decode_signed trusted decode w r).1
        ↔ (p : RevokePayload) × (verify_enforcement ed_verify decode_signed trusted decode r.sig
            ≡ some p)
          × (p.session_id ≡ r.session_id)
          × Revokes p (get w.live r.session_id)
  unfolding apply_revoke
  apply_revoke-kills_iff decode w r = revoke_verified-kills w r _
