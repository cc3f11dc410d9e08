-- ===== src/Agent/Lease/Replay.antt =====
-- The delivery of one message twice.
use geneza.Base.{
  ◌≡◌, refl, true, not, ◌||◌, Option, none, some, inl, inr, Bool-cases, arith, Str, bytes_eq,
}
use geneza.Base.Int.{ℤ, ltb_ℤ, leb_ℤ}
use geneza.Base.Dict.{get, get-put_self, get-remove_self, remove-remove}
use geneza.Trust.Signed.{Keys, Verifier, Signed}
use geneza.Agent.Live.{LiveSession, Worker, revoke_live, rearm}
use geneza.Agent.Lease.{
  pos, is_cut, verify_downgrade, is_none, Caps, LeasePayload, DeltaPayload, RevokePayload,
  SessionLease, SessionPolicyDelta, SessionRevoke, Message, session_lease, session_policy_delta,
  session_revoke, lease_timer, Decoders, expire, on_lease_expired, lease_live, lease_verified,
  delta_live, delta_verified, revoke_checked, revoke_verified, commit_caps, apply_lease,
  apply_delta, apply_revoke, handle,
}

leb_ℤ_refl : (a : ℤ) → leb_ℤ a a ≡ true
leb_ℤ_refl a = ground arith

expire-again :
    (w : Worker) (now : ℤ) (id : Str) (o : Option LiveSession)
    → get w.live id ≡ o
    → (on_lease_expired (expire w now id o).0 now id).0 ≡ (expire w now id o).0
unfolding expire on_lease_expired
expire-again w now id none e = rw e refl
expire-again w now id (some ls) e = elim (Bool-cases (ltb_ℤ now ls.lease_deadline)) [
  | inl b ↦ rw (b, e, b) refl
  | inr b ↦ rw (b, get-remove_self w.live id) refl
]

lease_live-again :
    (w : Worker) (id : Str) (p : LeasePayload) (o : Option LiveSession)
    → get w.live id ≡ o
    → lease_live (lease_live w id p o) id p (get (lease_live w id p o).live id)
      ≡ lease_live w id p o
unfolding lease_live rearm
lease_live-again w id p none e = rw e refl
lease_live-again w id p (some ls) e =
    elim (Bool-cases
      (not (bytes_eq p.session_id id) || not (bytes_eq p.client_noise_pub ls.client_noise_pub))) [
        | inl b ↦ rw (b, e, b) refl
        | inr b ↦ rw b (elim (Bool-cases (leb_ℤ p.epoch ls.epoch)) [
          | inl s ↦ rw (s, e, b, s) refl
          | inr s ↦ rw (s, get-put_self w.live id _, b, leb_ℤ_refl p.epoch) refl
        ])
      ]

delta_live-again :
    (w : Worker) (id : Str) (p : DeltaPayload) (caps : Option Caps) (o : Option LiveSession)
    → get w.live id ≡ o
    → (delta_live
        (delta_live w id p caps o).0
        id
        p
        caps
        (get (delta_live w id p caps o).0.live id)).0
      ≡ (delta_live w id p caps o).0
unfolding delta_live revoke_live commit_caps rearm
delta_live-again w id p caps none e = rw e refl
delta_live-again w id p caps (some ls) e =
    elim (Bool-cases
      (not (bytes_eq p.session_id id) || not (bytes_eq p.client_noise_pub ls.client_noise_pub))) [
        | inl b ↦ rw (b, e, b) refl
        | inr b ↦ rw b (elim (Bool-cases (leb_ℤ p.epoch ls.epoch)) [
          | inl s ↦ rw (s, e, b, s) refl
          | inr s ↦ rw s (elim (Bool-cases (is_none (verify_downgrade ls.grant caps))) [
            | inr n ↦ rw (n, e, b, s, n) refl
            | inl n ↦ rw n (elim (Bool-cases (is_cut caps)) [
              | inl c ↦ rw (c, get-remove_self w.live id) refl
              | inr c ↦
                  rw (c, get-put_self w.live id _)
                    (elim (Bool-cases (ltb_ℤ (pos 0) p.lease_expiry_unix_ms)) [
                      | inl d ↦ rw (d, b, leb_ℤ_refl p.epoch) refl
                      | inr d ↦ rw (d, b, leb_ℤ_refl p.epoch) refl
                    ])
            ])
          ])
        ])
      ]

revoke_checked-again :
    (w : Worker) (id : Str) (p : RevokePayload) (o : Option LiveSession)
    → get w.live id ≡ o
    → (revoke_checked (revoke_checked w id p o).0 id p (get (revoke_checked w id p o).0.live id)).0
      ≡ (revoke_checked w id p o).0
unfolding revoke_checked revoke_live
revoke_checked-again w id p none e = rw (get-remove_self w.live id, remove-remove w.live id) refl
revoke_checked-again w id p (some ls) e =
    elim (Bool-cases (bytes_eq p.client_noise_pub ls.client_noise_pub)) [
      | inr b ↦ rw (b, e, b) refl
      | inl b ↦ rw b (elim (Bool-cases (leb_ℤ p.epoch ls.epoch)) [
        | inl s ↦ rw (s, e, b, s) refl
        | inr s ↦ rw (s, get-remove_self w.live id, remove-remove w.live id) refl
      ])
    ]

lease_verified-again :
    (w : Worker) (l : SessionLease) (o : Option LeasePayload)
    → lease_verified (lease_verified w l o) l o ≡ lease_verified w l o
unfolding lease_verified
lease_verified-again w l none = refl
lease_verified-again w l (some p) = lease_live-again w l.session_id p _ refl

delta_verified-again :
    (w : Worker) (d : SessionPolicyDelta) (o : Option DeltaPayload)
    → (delta_verified (delta_verified w d o).0 d o).0 ≡ (delta_verified w d o).0
unfolding delta_verified
delta_verified-again w d none = refl
delta_verified-again w d (some p) = delta_live-again w d.session_id p d.caps _ refl

revoke_verified-again :
    (w : Worker) (r : SessionRevoke) (o : Option RevokePayload)
    → (revoke_verified (revoke_verified w r o).0 r o).0 ≡ (revoke_verified w r o).0
unfolding revoke_verified
revoke_verified-again w r none = refl
revoke_verified-again w r (some p) = elim (Bool-cases (bytes_eq p.session_id r.session_id)) [
  | inr b ↦ rw b refl
  | inl b ↦ rw b (revoke_checked-again w r.session_id p _ refl)
]

module _ (ed_verify : Verifier) (decode_signed : Str → Option Signed) (trusted : Keys)
    (decoders : Decoders) where
  -- A lease, a delta, a revoke or a timer that is handled a second time at once changes nothing more
  -- of the worker's state, whether it was accepted or refused the first time.
  pub handle-again :
      (w : Worker) (m : Message)
      → let once = (handle ed_verify decode_signed trusted decoders w m).0 in
        (handle ed_verify decode_signed trusted decoders once m).0 ≡ once
  unfolding handle apply_lease apply_delta apply_revoke on_lease_expired
  handle-again w (session_lease l) = lease_verified-again w l _
  handle-again w (session_policy_delta d) = delta_verified-again w d _
  handle-again w (session_revoke r) = revoke_verified-again w r _
  handle-again w (lease_timer now id) = expire-again w now id _ refl
