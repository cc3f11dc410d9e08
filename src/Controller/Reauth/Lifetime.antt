-- ===== src/Controller/Reauth/Lifetime.antt =====
-- The sessions of a controller over time: every write of a session as a step, and what no step may
-- change.
use geneza.Base.{◌≡◌, true, none, some, ◌⊎◌}
use geneza.Base.Int.{ℤ}
use geneza.Controller.Rows.{Key}
use geneza.Controller.Sessions.{
  SessionRecord, session_key, Server, Env, get_session, update_session, is_terminal,
}
use geneza.Controller.Reauth.Broker.{put_session, offer_ended, reject_offer, stamp_presence}
use geneza.Controller.Reauth.Evolution.{Evolves}
use geneza.Controller.Reauth.Preserves.{Preserves}
use geneza.Controller.Reauth.Operation.{Act}

-- One write of the sessions by the controller: an operation on the running ones, or a write of the
-- broker or of a heartbeat. The id of a new session is fresh.
pub data Step : Server → Server → Type 0 where
  acts : (s s' : Server) → Act s s' → Step s s'
  opens :
      (s : Server) (rec : SessionRecord)
      → get_session s (session_key rec) ≡ none
      → Step s (put_session s rec)
  beats : (now : ℤ) (k : Key) (s : Server) → Step s (update_session s k (stamp_presence now))
  rejects_offer : (env : Env) (k : Key) (s : Server) → Step s (reject_offer env k s)

-- The step is the broker's, which ends the session because the agent rejected its offer.
pub record IsRejected (s s' : Server) (r r' : SessionRecord) : Type 0 where
  pub env : Env
  pub step : s' ≡ reject_offer env (session_key r) s
  pub ended_now : r' ≡ offer_ended env r

abbrev Kept : Server → Server → Key → SessionRecord → Type 0
Kept s s' k r =
    (r' : SessionRecord) × (get_session s' k ≡ some r') × (Evolves r r' ⊎ IsRejected s s' r r')

-- Steps one after another.
pub data Run : Server → Server → Type 0 where
  start : (s : Server) → Run s s
  then_ : (s s' s'' : Server) → Run s s' → Step s' s'' → Run s s''

-- What of a session no run changes.
pub record Lasts (r r' : SessionRecord) : Type 0 where
  pub final : is_terminal r.state ≡ true → is_terminal r'.state ≡ true
  pub same_cause : is_terminal r.state ≡ true → r'.revoke_reason ≡ r.revoke_reason
  pub settled : is_terminal r.state ≡ true → r.revoke_delivered ≡ true → r'.revoke_delivered ≡ true
  pub confirmed :
      (r.revoke_delivered ≡ true → is_terminal r.state ≡ true)
      → r'.revoke_delivered ≡ true
      → is_terminal r'.state ≡ true
