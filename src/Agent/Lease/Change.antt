-- ===== src/Agent/Lease/Change.antt =====
-- What one message may do to the live sessions of a worker.
use geneza.Base.{
  ◌≡◌, refl, true, false, not, ◌||◌, Option, none, some, inl, inr, Bool-cases, arith, Str, bytes_eq,
}
use geneza.Base.Int.{ℤ, pos, ltb_ℤ, leb_ℤ}
use geneza.Base.Dict.{get, put, remove}
use geneza.Trust.Signed.{Keys, Verifier, Signed}
use geneza.Trust.Grant.{SessionGrant, Caps, implied_caps, verify_downgrade}
use geneza.Trust.Grant.Checks.{Below, verify_downgrade_iff}
use geneza.Agent.Live.{LiveSession, Worker, revoke_live, rearm}
use geneza.Agent.Lease.{
  lease_verified, revoke_verified, delta_verified, LeasePayload, DeltaPayload, RevokePayload,
  SessionLease, SessionPolicyDelta, SessionRevoke, Message, session_lease, session_policy_delta,
  session_revoke, lease_timer, Decoders, expire, on_lease_expired, is_none, is_cut, lease_live,
  commit_caps, delta_live, revoke_checked, apply_lease, apply_delta, apply_revoke, handle,
}

-- The caps are the grant's own, or a downgrade of what it implies.
pub data InScope (grant : SessionGrant) : Option Caps → Type 0 where
  grant_max : InScope grant none
  downgraded : (c : Caps) → Below c (implied_caps grant) → InScope grant (some c)

-- One session before and after an accepted message of a larger epoch.
pub record Advances (a b : LiveSession) : Type 0 where
  pub newer : ltb_ℤ a.epoch b.epoch ≡ true
  pub same_grant : b.grant ≡ a.grant
  pub same_key : b.client_noise_pub ≡ a.client_noise_pub
  pub in_scope : InScope a.grant a.caps → InScope b.grant b.caps

pub data Change (w : Worker) (id : Str) (w' : Worker) : Type 0 where
  unchanged : w' ≡ w → Change w id w'
  removed : w'.live ≡ remove w.live id → Change w id w'
  advanced :
      (a b : LiveSession)
      → get w.live id ≡ some a
      → w'.live ≡ put w.live id b
      → Advances a b
      → Change w id w'

newer-leb : (a b : ℤ) → leb_ℤ b a ≡ false → ltb_ℤ a b ≡ true
newer-leb a b h = ground arith

lease_live-Change :
    (w : Worker) (id : Str) (p : LeasePayload) (o : Option LiveSession)
    → get w.live id ≡ o
    → Change w id (lease_live w id p o)
unfolding lease_live rearm
lease_live-Change w id p none e = unchanged refl
lease_live-Change w id p (some ls) e =
    elim (Bool-cases
      (not (bytes_eq p.session_id id) || not (bytes_eq p.client_noise_pub ls.client_noise_pub))) [
        | inl b ↦ rw b (unchanged refl)
        | inr b ↦ rw b (elim (Bool-cases (leb_ℤ p.epoch ls.epoch)) [
          | inl s ↦ rw s (unchanged refl)
          | inr s ↦ rw s (
              advanced ls _ e refl (record {
                newer = newer-leb ls.epoch p.epoch s;
                same_grant = refl;
                same_key = refl;
                in_scope = λ h. h;
              }))
        ])
      ]

expire-Change :
    (w : Worker) (now : ℤ) (id : Str) (o : Option LiveSession) → Change w id (expire w now id o).0
unfolding expire
expire-Change w now id none = unchanged refl
expire-Change w now id (some ls) = elim (Bool-cases (ltb_ℤ now ls.lease_deadline)) [
  | inl b ↦ rw b (unchanged refl)
  | inr b ↦ rw b (removed refl)
]

is_none-elim {ℓ} : {A : Type ℓ} (o : Option A) → is_none o ≡ true → o ≡ none
unfolding is_none
is_none-elim none h = refl
is_none-elim (some a) h = cc

-- The caps of a delta that is not a cut.
accepted-InScope :
    (grant : SessionGrant) (caps : Option Caps)
    → is_none (verify_downgrade grant caps) ≡ true
    → is_cut caps ≡ false
    → InScope grant caps
unfolding is_cut
accepted-InScope grant none h k = grant_max
accepted-InScope grant (some c) h k =
    elim ((verify_downgrade_iff grant c).0 (is_none-elim (verify_downgrade grant (some c)) h)) [
      | inl cut ↦ cc
      | inr b ↦ downgraded c b
    ]

commit_caps-Advances :
    (ls : LiveSession) (p : DeltaPayload) (caps : Option Caps)
    → leb_ℤ p.epoch ls.epoch ≡ false
    → InScope ls.grant caps
    → Advances ls (commit_caps ls p caps)
unfolding commit_caps rearm
commit_caps-Advances ls p caps s h = elim (Bool-cases (ltb_ℤ (pos 0) p.lease_expiry_unix_ms)) [
  | inl b ↦ rw b (record {
    newer = newer-leb ls.epoch p.epoch s;
    same_grant = refl;
    same_key = refl;
    in_scope = λ _. h;
  })
  | inr b ↦ rw b (record {
    newer = newer-leb ls.epoch p.epoch s;
    same_grant = refl;
    same_key = refl;
    in_scope = λ _. h;
  })
]

delta_live-Change :
    (w : Worker) (id : Str) (p : DeltaPayload) (caps : Option Caps) (o : Option LiveSession)
    → get w.live id ≡ o
    → Change w id (delta_live w id p caps o).0
unfolding delta_live revoke_live
delta_live-Change w id p caps none e = unchanged refl
delta_live-Change w id p caps (some ls) e =
    elim (Bool-cases
      (not (bytes_eq p.session_id id) || not (bytes_eq p.client_noise_pub ls.client_noise_pub))) [
        | inl b ↦ rw b (unchanged refl)
        | inr b ↦ rw b (elim (Bool-cases (leb_ℤ p.epoch ls.epoch)) [
          | inl s ↦ rw s (unchanged refl)
          | inr s ↦ rw s (elim (Bool-cases (is_none (verify_downgrade ls.grant caps))) [
            | inr n ↦ rw n (unchanged refl)
            | inl n ↦ rw n (elim (Bool-cases (is_cut caps)) [
              | inl c ↦ rw c (removed refl)
              | inr c ↦ rw c (
                  advanced ls _ e refl
                    (commit_caps-Advances ls p caps s (accepted-InScope ls.grant caps n c)))
            ])
          ])
        ])
      ]

revoke_checked-Change :
    (w : Worker) (id : Str) (p : RevokePayload) (o : Option LiveSession)
    → Change w id (revoke_checked w id p o).0
unfolding revoke_checked revoke_live
revoke_checked-Change w id p none = removed refl
revoke_checked-Change w id p (some ls) =
    elim (Bool-cases (bytes_eq p.client_noise_pub ls.client_noise_pub)) [
      | inr b ↦ rw b (unchanged refl)
      | inl b ↦ rw b (elim (Bool-cases (leb_ℤ p.epoch ls.epoch)) [
        | inl s ↦ rw s (unchanged refl)
        | inr s ↦ rw s (removed refl)
      ])
    ]

-- The session that a message is about.
unfoldable pub target : Message → Str
target (session_lease l) = l.session_id
target (session_policy_delta d) = d.session_id
target (session_revoke r) = r.session_id
target (lease_timer now id) = id

lease_verified-Change :
    (w : Worker) (l : SessionLease) (o : Option LeasePayload)
    → Change w l.session_id (lease_verified w l o)
unfolding lease_verified
lease_verified-Change w l none = unchanged refl
lease_verified-Change w l (some p) =
    lease_live-Change w l.session_id p (get w.live l.session_id) refl

delta_verified-Change :
    (w : Worker) (d : SessionPolicyDelta) (o : Option DeltaPayload)
    → Change w d.session_id (delta_verified w d o).0
unfolding delta_verified
delta_verified-Change w d none = unchanged refl
delta_verified-Change w d (some p) =
    delta_live-Change w d.session_id p d.caps (get w.live d.session_id) refl

revoke_verified-Change :
    (w : Worker) (r : SessionRevoke) (o : Option RevokePayload)
    → Change w r.session_id (revoke_verified w r o).0
unfolding revoke_verified
revoke_verified-Change w r none = unchanged refl
revoke_verified-Change w r (some p) = elim (Bool-cases (bytes_eq p.session_id r.session_id)) [
  | inr b ↦ rw b (unchanged refl)
  | inl b ↦ rw b (revoke_checked-Change w r.session_id p (get w.live r.session_id))
]

module _ (ed_verify : Verifier) (decode_signed : Str → Option Signed) (trusted : Keys)
    (decoders : Decoders) where
  pub handle-Change :
      (w : Worker) (m : Message)
      → Change w (target m) (handle ed_verify decode_signed trusted decoders w m).0
  unfolding handle apply_lease apply_delta apply_revoke on_lease_expired target
  handle-Change w (session_lease l) = lease_verified-Change w l _
  handle-Change w (session_policy_delta d) = delta_verified-Change w d _
  handle-Change w (session_revoke r) = revoke_verified-Change w r _
  handle-Change w (lease_timer now id) = expire-Change w now id (get w.live id)
