-- ===== src/Controller/Reauth/Preserves.antt =====
-- That an operation changes a session only as a record evolves, and keeps the keys.
use geneza.Base.{◌≡◌, refl, ◌∙◌, subst, Bool, some, List, Bool-cases, inl, inr, map, Distinct}
use geneza.Controller.Rows.{Key, key_eq, get_row, update_row, get-update, update-keys}
use geneza.Controller.Sessions.{SessionRecord, session_key, Facts, Server, Env, get_session}
use geneza.Controller.Sessions.Touches.{Moves}
use geneza.Controller.Reauth.Ops.{over_sessions}
use geneza.Controller.Reauth.Loops.{over_sessions-get, over_sessions-frame}
use geneza.Controller.Reauth.Evolution.{Evolves, Evolves-refl}

-- A record with the key that comes from `r`.
abbrev pub Kept : List SessionRecord → Key → SessionRecord → Type 0
Kept rows k r = (r' : SessionRecord) × (get_row session_key rows k ≡ some r') × Evolves r r'

-- The keys stay distinct, and every session evolves.
pub record Preserves (rows rows' : List SessionRecord) : Type 0 where
  pub keys : map session_key rows' ≡ map session_key rows
  pub each : (k : Key) (r : SessionRecord) → get_row session_key rows k ≡ some r → Kept rows' k r

pub Preserves-refl : (rows : List SessionRecord) → Preserves rows rows
Preserves-refl rows = record { keys = refl; each = λ k r h. (r, h, Evolves-refl r) }

pub update-Preserves :
    (rows : List SessionRecord) (k : Key) (f : SessionRecord → SessionRecord)
    → ((r : SessionRecord) → Evolves r (f r))
    → Preserves rows (update_row session_key rows k f)
update-Preserves rows k f ev = record {
  keys = update-keys session_key rows k f (λ r. (ev r).same_key);
  each = λ j r h. elim (Bool-cases (key_eq k j)) [
    | inl e ↦ (f r, rw (get-update session_key rows k f (λ x. (ev x).same_key) j, e, h) refl, ev r)
    | inr e ↦ (
      r,
      rw (get-update session_key rows k f (λ x. (ev x).same_key) j, e, h) refl,
      Evolves-refl r,
    )
  ];
}

pub loop-Preserves :
    (env : Env) (s : Server) (act : Server → SessionRecord → Server × Bool)
    (g : Facts → SessionRecord → SessionRecord)
    → ((q : Server) (r : SessionRecord)
        → get_session q (session_key r) ≡ some r
        → Moves q (act q r).0 r (g q.facts r))
    → ((r : SessionRecord) → Evolves r (g s.facts r))
    → Distinct (map session_key s.sessions)
    → Preserves s.sessions (over_sessions env act s).0.sessions
unfolding over_sessions get_session
loop-Preserves env s act g acts ev d =
    let moves : (q : Server) (r : SessionRecord)
        → q.facts ≡ s.facts
        → get_session q (session_key r) ≡ some r
        → Moves q (act q r).0 r (g s.facts r) =
      λ q r f here. subst (λ x. Moves q (act q r).0 r (g x r)) f (acts q r here) in
    record {
      keys = (over_sessions-frame s.facts act (g s.facts) moves env s refl d).1;
      each = λ k r h. elim (Bool-cases env.lists) [
        | inl e ↦ (
          g s.facts r,
          over_sessions-get s.facts act (g s.facts) moves env s e refl d k ∙ (rw h refl),
          ev r,
        )
        | inr e ↦ (r, rw e h, Evolves-refl r)
      ];
    }
