-- ===== src/Controller/Reauth/Loops.antt =====
-- A loop over all sessions, whose step changes no session but its own, changes each session on its
-- own.
use geneza.Base.{
  ◌≡◌, refl, sym, ◌∙◌, ap, subst, Bool, true, false, some, List, [], ◌∷◌, map, inl, inr, Bool-cases,
  In, Distinct, any, arith, if◌then◌else◌,
}
use geneza.Controller.Rows.{
  get-In, In-map, Key, key_eq, key_eq_iff, map_option, get-Distinct, get-absent,
}
use geneza.Controller.Sessions.{Effect, SessionRecord, session_key, Facts, Server, Env, get_session}
use geneza.Controller.Sessions.Touches.{Moves}
use geneza.Controller.Reauth.Ops.{for_each, over_sessions}

pub has_key : Key → List SessionRecord → Bool
unfolding any
has_key j rs = any (λ (r : SessionRecord). key_eq (session_key r) j) rs

has_key_iff : (j : Key) (rs : List SessionRecord) → has_key j rs ≡ true → In j (map session_key rs)
unfolding has_key any
has_key_iff j [] h = cc
has_key_iff j (r ∷ rs) h = elim (Bool-cases (key_eq (session_key r) j)) [
  | inl e ↦ inl (sym ((key_eq_iff (session_key r) j).0 e))
  | inr e ↦ inr (has_key_iff j rs (sym (rw e refl) ∙ h))
]

has_key-absent :
    (j : Key) (rs : List SessionRecord) → has_key j rs ≡ false → ¬ In j (map session_key rs)
unfolding has_key any
has_key-absent j [] h m = m
has_key-absent j (r ∷ rs) h m = ground (arith, has_key-absent j rs, key_eq_iff (session_key r) j, m)

-- Each session of a list has changed, and no other.
pub record Each (s s' : Server) (rs : List SessionRecord) (g : SessionRecord → SessionRecord)
    : Type 0 where
  pub facts : s'.facts ≡ s.facts
  pub keys : map session_key s'.sessions ≡ map session_key s.sessions
  pub at :
      (j : Key)
      → get_session s' j
        ≡ (if has_key j rs then map_option g (get_session s j) else get_session s j)

abbrev Listed : Server → List SessionRecord → Type 0
Listed s rs = (r : SessionRecord) → In r rs → get_session s (session_key r) ≡ some r

-- The first session of a list, and then the others.
Each-cons :
    {s s' s'' : Server} (r : SessionRecord) (rs : List SessionRecord)
    (g : SessionRecord → SessionRecord)
    → ¬ In (session_key r) (map session_key rs)
    → get_session s (session_key r) ≡ some r
    → Moves s s' r (g r)
    → Each s' s'' rs g
    → Each s s'' (r ∷ rs) g
unfolding has_key any
Each-cons {s} {s'} {s''} r rs g new here m rest = record {
  facts = rest.facts ∙ m.facts;
  keys = rest.keys ∙ m.keys;
  at = λ j. elim (Bool-cases (key_eq (session_key r) j)) [
    | inl h ↦ elim (Bool-cases (has_key j rs)) [
      | inl e ↦ absurd (
          new (
            subst (λ k. In k (map session_key rs)) (sym ((key_eq_iff _ j).0 h))
              (has_key_iff j rs e)))
      | inr e ↦
          rw (rest.at j, e, m.at j, h, ap (λ k. get_session s k) (sym ((key_eq_iff _ j).0 h)), here)
            refl
    ]
    | inr h ↦ rw (rest.at j, m.at j, h) refl
  ];
}

Listed-Moves :
    {s s' : Server} (r : SessionRecord) (r' : SessionRecord) (rs : List SessionRecord)
    → ¬ In (session_key r) (map session_key rs)
    → Moves s s' r r'
    → Listed s rs
    → Listed s' rs
Listed-Moves {s} {s'} r r' rs new m listed q inside =
    elim (Bool-cases (key_eq (session_key r) (session_key q))) [
      | inl h ↦ absurd (
          new (
            subst (λ k. In k (map session_key rs)) (sym ((key_eq_iff _ _).0 h))
              (In-map session_key rs q inside)))
      | inr h ↦ m.at (session_key q) ∙ (rw h (listed q inside))
    ]

module _ (F : Facts) (act : Server → SessionRecord → Server × Bool)
    (g : SessionRecord → SessionRecord)
    (acts : (s : Server) (r : SessionRecord)
      → s.facts ≡ F
      → get_session s (session_key r) ≡ some r
      → Moves s (act s r).0 r (g r)) where
  for_each-Each :
      (rs : List SessionRecord) (s : Server)
      → s.facts ≡ F
      → Distinct (map session_key rs)
      → Listed s rs
      → Each s (for_each act rs s).0 rs g
  unfolding for_each has_key any
  for_each-Each [] s f d listed = record { facts = refl; keys = refl; at = λ j. refl }
  for_each-Each (r ∷ rs) s f d listed =
      let here = listed r (inl refl) in
      let m = acts s r f here in
      Each-cons r rs g d.0 here m (
        for_each-Each rs (act s r).0 (m.facts ∙ f) d.1
          (Listed-Moves r (g r) rs d.0 m (λ q inside. listed q (inr inside))))

  -- The whole loop: each session that is there has changed.
  pub over_sessions-get :
      (env : Env) (s : Server)
      → env.lists ≡ true
      → s.facts ≡ F
      → Distinct (map session_key s.sessions)
      → (j : Key) → get_session (over_sessions env act s).0 j ≡ map_option g (get_session s j)
  unfolding over_sessions get_session
  over_sessions-get env s lists f d j =
      let each =
        for_each-Each s.sessions s f d
          (λ r inside. get-Distinct session_key s.sessions r d inside) in
      rw lists (elim (Bool-cases (has_key j s.sessions)) [
        | inl h ↦ each.at j ∙ rw h refl
        | inr h ↦
            each.at j
            ∙ (rw (h, get-absent session_key s.sessions j (has_key-absent j s.sessions h)) refl)
      ])

  pub over_sessions-frame :
      (env : Env) (s : Server)
      → s.facts ≡ F
      → Distinct (map session_key s.sessions)
      → ((over_sessions env act s).0.facts ≡ s.facts)
        × (map session_key (over_sessions env act s).0.sessions ≡ map session_key s.sessions)
  unfolding over_sessions get_session
  over_sessions-frame env s f d =
      let each =
        for_each-Each s.sessions s f d
          (λ r inside. get-Distinct session_key s.sessions r d inside) in
      elim (Bool-cases env.lists) [
        | inl h ↦ rw h (each.facts, each.keys)
        | inr h ↦ rw h (refl, refl)
      ]

-- What one step of a loop appends to a list of effects is there after the loop.
module _ (F : Facts) (act : Server → SessionRecord → Server × Bool)
    (g : SessionRecord → SessionRecord)
    (acts : (s : Server) (r : SessionRecord)
      → s.facts ≡ F
      → get_session s (session_key r) ≡ some r
      → Moves s (act s r).0 r (g r))
    (grows : (s : Server) (r : SessionRecord) (e : Effect)
      → In e s.out
      → In e (act s r).0.out) where
  for_each-keeps :
      (rs : List SessionRecord) (s : Server) (e : Effect)
      → In e s.out
      → In e (for_each act rs s).0.out
  unfolding for_each
  for_each-keeps [] s e h = h
  for_each-keeps (r ∷ rs) s e h = for_each-keeps rs (act s r).0 e (grows s r e h)

  for_each-emits :
      (rs : List SessionRecord) (s : Server) (q : SessionRecord) (e : Effect)
      → ((t : Server) → t.facts ≡ F → get_session t (session_key q) ≡ some q → In e (act t q).0.out)
      → s.facts ≡ F
      → Distinct (map session_key rs)
      → Listed s rs
      → In q rs
      → In e (for_each act rs s).0.out
  unfolding for_each
  for_each-emits [] s q e hit f d listed inside = absurd inside
  for_each-emits (r ∷ rs) s q e hit f d listed (inl same) =
      for_each-keeps rs (act s r).0 e
        (subst (λ x. In e (act s x).0.out) same (hit s f (listed q (inl same))))
  for_each-emits (r ∷ rs) s q e hit f d listed (inr inside) =
      let m = acts s r f (listed r (inl refl)) in
      for_each-emits rs (act s r).0 q e hit (m.facts ∙ f) d.1
        (Listed-Moves r (g r) rs d.0 m (λ x i. listed x (inr i))) inside

  pub over_sessions-emits :
      (env : Env) (s : Server) (q : SessionRecord) (e : Effect)
      → ((t : Server) → t.facts ≡ F → get_session t (session_key q) ≡ some q → In e (act t q).0.out)
      → env.lists ≡ true
      → s.facts ≡ F
      → Distinct (map session_key s.sessions)
      → get_session s (session_key q) ≡ some q
      → In e (over_sessions env act s).0.out
  unfolding over_sessions get_session
  over_sessions-emits env s q e hit lists f d here = rw lists (
      for_each-emits s.sessions s q e hit f d
        (λ r inside. get-Distinct session_key s.sessions r d inside)
        (get-In session_key s.sessions (session_key q) q here))
