-- ===== src/Controller/Reauth/Broker.antt =====
-- internal/controller/broker.go and presence.go: the other writes of a session's row. What a
-- rejected offer gives back and the denial that follows are left out, and so are the writes of fields
-- that the record here has not: the generation of a re-home and the mark of a recording.
use geneza.Base.{none, some, [], ◌∷◌}
use geneza.Base.Int.{ℤ}
use geneza.Controller.Rows.{Key}
use geneza.Controller.Sessions.{
  ended, SessionRecord, session_key, signals_unregistered, Server, Env, emit, get_session,
  update_session,
}

-- PutSession, which overwrites the row of the key that it has
unfoldable pub put_session : Server → SessionRecord → Server
unfolding get_session update_session
put_session s rec = elim (get_session s (session_key rec)) [
  | none ↦ record s { sessions = rec ∷ s.sessions }
  | some r ↦ update_session s (session_key rec) (λ old. rec)
]

-- The update of a session whose offer the agent rejected, whatever its state is by then.
unfoldable pub offer_ended : Env → SessionRecord → SessionRecord
offer_ended env r = record r { state = ended; ended_unix = env.now }

unfoldable pub reject_offer : Env → Key → Server → Server
unfolding update_session offer_ended emit
reject_offer env k s = update_session (emit s (signals_unregistered k.1 ∷ [])) k (offer_ended env)

-- The stamp of a heartbeat, in this record.
unfoldable pub stamp_presence : ℤ → SessionRecord → SessionRecord
stamp_presence now r = record r { last_presence_unix = now }
