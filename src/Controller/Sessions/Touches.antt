-- ===== src/Controller/Sessions/Touches.antt =====
-- What an operation on one session leaves of all of them.
use geneza.Base.{◌≡◌, refl, sym, ◌∙◌, ap, some, map, inl, inr, Bool-cases, if◌then◌else◌}
use geneza.Controller.Rows.{
  Key, key_eq, key_eq_iff, update_row, map_option, get-update, update-update, update_id,
  update-keys,
}
use geneza.Controller.Sessions.{SessionRecord, session_key, Server, get_session}

-- What a step on one session does: it changes that record and no other, and none of the facts.
pub record Touches (s s' : Server) (k : Key) (f : SessionRecord → SessionRecord) : Type 0 where
  pub facts : s'.facts ≡ s.facts
  pub rows : s'.sessions ≡ update_row session_key s.sessions k f

-- A change that keeps the key of every record.
abbrev pub KeepsKey : (SessionRecord → SessionRecord) → Type 0
KeepsKey f = (r : SessionRecord) → session_key (f r) ≡ session_key r

pub Touches-none : (s : Server) (k : Key) → Touches s s k (λ r. r)
Touches-none s k = record { facts = refl; rows = sym (update_id session_key s.sessions k) }

pub Touches-then :
    {s s' s'' : Server} {k : Key} (f g : SessionRecord → SessionRecord)
    → KeepsKey f
    → Touches s s' k f
    → Touches s' s'' k g
    → Touches s s'' k (λ r. g (f r))
Touches-then {s} {s'} {s''} {k} f g same t u = record {
  facts = u.facts ∙ t.facts;
  rows =
      u.rows
      ∙ ap (λ rows. update_row session_key rows k g) t.rows
      ∙ update-update session_key s.sessions k f g same;
}

pub get-Touches :
    {s s' : Server} {k : Key} (f : SessionRecord → SessionRecord)
    → KeepsKey f
    → Touches s s' k f
    → (j : Key)
    → get_session s' j ≡ (if key_eq k j then map_option f (get_session s j) else get_session s j)
unfolding get_session
get-Touches {s} {s'} {k} f same t j = rw t.rows (get-update session_key s.sessions k f same j)

-- The same of a session `r` that is there, which becomes `r'`.
pub record Moves (s s' : Server) (r r' : SessionRecord) : Type 0 where
  pub facts : s'.facts ≡ s.facts
  pub keys : map session_key s'.sessions ≡ map session_key s.sessions
  pub at :
      (j : Key) → get_session s' j ≡ (if key_eq (session_key r) j then some r' else get_session s j)

pub Moves-Touches :
    {s s' : Server} {r : SessionRecord} (f : SessionRecord → SessionRecord)
    → KeepsKey f
    → get_session s (session_key r) ≡ some r
    → Touches s s' (session_key r) f
    → Moves s s' r (f r)
Moves-Touches {s} {s'} {r} f same here t = record {
  facts = t.facts;
  keys = ap (λ rows. map session_key rows) t.rows ∙ update-keys session_key s.sessions _ f same;
  at = λ j. get-Touches f same t j ∙ found_at j;
}
  where
    found_at :
        (j : Key)
        → (if key_eq (session_key r) j then map_option f (get_session s j) else get_session s j)
          ≡ (if key_eq (session_key r) j then some (f r) else get_session s j)
    found_at j = elim (Bool-cases (key_eq (session_key r) j)) [
      | inl h ↦
          rw (h, ap (λ k. get_session s k) (sym ((key_eq_iff (session_key r) j).0 h)), here) refl
      | inr h ↦ rw h refl
    ]
