-- ===== src/Controller/Reauth/Landing.antt =====
-- A revoke that a sweep pushes, as the agent of the session applies it.
use geneza.Base.{
  subst, ℕ, suc, ◌≤◌, ◌^◌, ◌≡◌, sym, true, Option, some, [], ◌∷◌, arith, Str, map, Distinct, In,
}
use geneza.Base.Int.{pos, leb_ℤ}
use geneza.Base.Dict.{get, remove}
use geneza.Trust.Signed.{Signed, Keys, Verifier}
use geneza.Agent.Lease.Newer.{apply_revoke-newer}
use geneza.Agent.Live.{LiveSession, Worker, cancel_conduit, kill_host, revoked}
use geneza.Agent.Lease.{RevokePayload, SessionRevoke, verify_enforcement, apply_revoke}
use geneza.Controller.Reauth.Steps.{bump_epoch-pos}
use geneza.Controller.Sessions.{
  SessionRecord, session_key, RevokeReason, session_revoke, to_agent, Server, Env, get_session,
  sends,
}
use geneza.Controller.Reauth.Ops.{reauth_sweep}
use geneza.Controller.Reauth.Pushes.{owed, reauth_sweep-pushes}

module _ (ed_verify : Verifier) (decode_signed : Str → Option Signed) (trusted : Keys)
    (decode : Str → Option RevokePayload) (text : RevokeReason → Str) where
  -- A sweep that can list the sessions and sign cuts each session that it is to cut on an agent that
  -- it can reach, if the writes of the rows commit: the agent has seen no
  -- epoch beyond the stored one, which is not at the end of an int64, and the message it takes from
  -- its stream verifies to the payload of the revoke that the sweep pushed. Then the conduit is
  -- cancelled, the session host kills the PTY, and the agent acknowledges.
  pub reauth_sweep-lands :
      (env : Env) (s : Server) (r : SessionRecord) (reason : RevokeReason) (n : ℕ) (w : Worker)
      (ls : LiveSession) (m : SessionRevoke)
      → env.lists ≡ true
      → env.signs ≡ true
      → Distinct (map session_key s.sessions)
      → get_session s (session_key r) ≡ some r
      → owed env s.facts r ≡ some reason
      → sends env s.facts r.node_id ≡ true
      → r.enforcement_epoch ≡ pos n
      → suc (suc n) ≤ 2 ^ 63
      → m.session_id ≡ r.id
      → get w.live m.session_id ≡ some ls
      → ls.client_noise_pub ≡ r.client_noise_pub
      → leb_ℤ ls.epoch r.enforcement_epoch ≡ true
      → verify_enforcement ed_verify decode_signed trusted decode m.sig
        ≡ some (record {
          session_id = r.id;
          epoch = pos (suc n);
          reason = text reason;
          client_noise_pub = r.client_noise_pub;
        })
      → In
          (to_agent r.node_id (session_revoke r.id (pos (suc n)) reason r.client_noise_pub))
          (reauth_sweep env s).out
        × (apply_revoke ed_verify decode_signed trusted decode w m ≡ (
          record { live = remove w.live m.session_id },
          cancel_conduit m.session_id
              ∷ kill_host m.session_id
              ∷ revoked m.session_id (text reason) ls.path_class ls.epoch
              ∷ [],
        ))
  reauth_sweep-lands env s r reason n w ls m lists signs d here due reach e room id live key seen
        verified =
      (
        subst
            (λ epoch.
              In (to_agent r.node_id (session_revoke r.id epoch reason r.client_noise_pub))
                (reauth_sweep env s).out)
            (bump_epoch-pos r n e room)
            (reauth_sweep-pushes env s r reason lists signs d here due reach).0,
        apply_revoke-newer ed_verify decode_signed trusted decode w ls m _ live verified (sym id)
            (sym key) (ground (arith, seen, e)),
      )
