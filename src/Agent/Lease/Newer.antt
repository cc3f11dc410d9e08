-- ===== src/Agent/Lease/Newer.antt =====
-- internal/agentd/lease.go: a revoke that is newer than all that its session has seen.
use geneza.Base.{◌≡◌, refl, false, Option, some, [], ◌∷◌, Str, bytes_eq_refl}
use geneza.Base.Int.{leb_ℤ}
use geneza.Base.Dict.{get, remove}
use geneza.Trust.Signed.{Signed, Keys, Verifier}
use geneza.Agent.Live.{
  LiveSession, Worker, cancel_conduit, kill_host, revoked, revoke_live, revoke_effects,
}
use geneza.Agent.Lease.{
  RevokePayload, SessionRevoke, verify_enforcement, apply_revoke, revoke_verified, revoke_checked,
}

revoke_live-some :
    (w : Worker) (id reason : Str) (ls : LiveSession)
    → get w.live id ≡ some ls
    → revoke_live w id reason ≡ (
      record { live = remove w.live id },
      cancel_conduit id ∷ kill_host id ∷ revoked id reason ls.path_class ls.epoch ∷ [],
    )
unfolding revoke_live revoke_effects
revoke_live-some w id reason ls live = rw live refl

module _ (ed_verify : Verifier) (decode_signed : Str → Option Signed) (trusted : Keys)
    (decode : Str → Option RevokePayload) where
  -- A revoke with the session's key and a newer epoch than the session has seen ends the session.
  pub apply_revoke-newer :
      (w : Worker) (ls : LiveSession) (m : SessionRevoke) (p : RevokePayload)
      → get w.live m.session_id ≡ some ls
      → verify_enforcement ed_verify decode_signed trusted decode m.sig ≡ some p
      → p.session_id ≡ m.session_id
      → p.client_noise_pub ≡ ls.client_noise_pub
      → leb_ℤ p.epoch ls.epoch ≡ false
      → apply_revoke ed_verify decode_signed trusted decode w m ≡ (
        record { live = remove w.live m.session_id },
        cancel_conduit m.session_id
            ∷ kill_host m.session_id
            ∷ revoked m.session_id p.reason ls.path_class ls.epoch
            ∷ [],
      )
  unfolding apply_revoke revoke_verified revoke_checked
  apply_revoke-newer w ls m p live verified same_id same_key newer =
      rw
        (
          verified,
          live,
          same_id,
          same_key,
          bytes_eq_refl m.session_id,
          bytes_eq_refl ls.client_noise_pub,
          newer,
        )
        (revoke_live-some w m.session_id p.reason ls live)
