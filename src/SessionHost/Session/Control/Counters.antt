-- ===== src/SessionHost/Session/Control/Counters.antt =====
-- That the counters of a host are exact in every state that it can reach.
use geneza.Base.{
  ℕ, zero, suc, ◌+◌, ◌≤◌, ◌≡◌, sym, ap, ◌∙◌, subst, refl, Bool, true, not, Option, none, some, List,
  [], ◌∷◌, ◌++◌, if◌then◌else◌, get_elem?, set, arith, All, Bool-cases, inl, inr,
}
use geneza.Base.Int.{ℤ, pos, pos_part, ◌+ℤ◌}
use mathlib.Core.Option.{some-injective, none-ne-some}
use geneza.SessionHost.Session.{Session, Screen, World, clamp_dim, has_screen}
use geneza.SessionHost.Session.Control.WellFormed.{bit, WellFormed, Counted}
use geneza.SessionHost.Session.Control.Host.{
  Host, CreateRequest, new_session, create, Event, happens-Counted, stepped, step, drop_at, removed,
  remove, apply_policy, drain, new_host,
}

module _ {VT : Type 0} where
  -- How many of the sessions have a mark.
  pub total : (Session VT → Bool) → List (Session VT) → ℕ
  total p [] = 0
  total p (s ∷ ss) = bit (p s) + total p ss

  abbrev pub is_counted : Session VT → Bool
  is_counted s = s.detached_counted

  abbrev pub is_running : Session VT → Bool
  is_running s = not s.is_exited

  -- The counters of a host are those of its sessions, and each session is well formed.
  pub record Exact (h : Host VT) : Type 0 where
    pub detached_n : h.detached_n ≡ pos (total is_counted h.sessions)
    pub active_n : h.active_n ≡ pos (total is_running h.sessions)
    pub sessions : All WellFormed h.sessions

  total-append :
      (p : Session VT → Bool) (ss rs : List (Session VT))
      → total p (ss ++ rs) ≡ total p ss + total p rs
  unfolding total
  total-append p [] rs = omega arith
  total-append p (s ∷ ss) rs = omega (arith, total-append p ss rs)

  -- A session apart from the others.
  record Apart (ss : List (Session VT)) (i : ℕ) (s : Session VT) (p : Session VT → Bool)
      : Type 0 where
    others : ℕ
    now : total p ss ≡ others + bit (p s)
    then_ : (s' : Session VT) → total p (set ss i s') ≡ others + bit (p s')
    without : total p (drop_at i ss) ≡ others

  apart :
      (p : Session VT → Bool) (ss : List (Session VT)) (i : ℕ) (s : Session VT)
      → get_elem? ss i ≡ some s
      → Apart ss i s p
  unfolding total drop_at
  apart p [] i s e = absurd (none-ne-some s e)
  apart p (x ∷ ss) zero s e =
      let q : x ≡ s = some-injective x s e in
      record {
        others = total p ss;
        now = omega (arith, ap (λ y. bit (p y)) q);
        then_ = λ s'. omega arith;
        without = refl;
      }
  apart p (x ∷ ss) (suc i) s e =
      let a = apart p ss i s e in
      record {
        others = bit (p x) + a.others;
        now = omega (arith, a.now);
        then_ = λ s'. omega (arith, a.then_ s');
        without = omega (arith, a.without);
      }

  All-at :
      (ss : List (Session VT)) (i : ℕ) (s : Session VT)
      → get_elem? ss i ≡ some s
      → All WellFormed ss
      → WellFormed s
        × ((s' : Session VT) → WellFormed s' → All WellFormed (set ss i s'))
        × All WellFormed (drop_at i ss)
  unfolding drop_at
  All-at [] i s e h = absurd (none-ne-some s e)
  All-at (x ∷ ss) zero s e h = (subst WellFormed (some-injective x s e) h.0, λ s' k. (k, h.1), h.1)
  All-at (x ∷ ss) (suc i) s e h =
      let (here, later, gone) = All-at ss i s e h.1 in
      (here, λ s' k. (h.0, later s' k), (h.0, gone))

  All-snoc :
      (ss : List (Session VT)) (s : Session VT)
      → All WellFormed ss
      → WellFormed s
      → All WellFormed (ss ++ s ∷ [])
  All-snoc [] s h k = (k, tt)
  All-snoc (x ∷ ss) s h k = (h.0, All-snoc ss s h.1 k)

  remove-Exact : (i : ℕ) (h : Host VT) → Exact h → Exact (remove i h)
  unfolding remove removed
  remove-Exact i h k = at (get_elem? h.sessions i) refl
    where
      at : (o : Option (Session VT)) → get_elem? h.sessions i ≡ o → Exact (removed i h o)
      at none q = k
      at (some s) q = elim (Bool-cases s.is_exited) [
        | inr run ↦ rw run k
        | inl over ↦
            let d = apart is_counted h.sessions i s q in
            let r = apart is_running h.sessions i s q in
            let (here, later, gone) = All-at h.sessions i s q k.sessions in
            let uncounted : bit s.detached_counted ≡ 0 = ground (arith, here.counts) in
            rw over (record {
              detached_n = k.detached_n ∙ ap pos (omega (arith, d.now, d.without, uncounted));
              active_n =
                  k.active_n ∙ ap pos (omega (arith, r.now, r.without, ap (λ b. bit (not b)) over));
              sessions = gone;
            })
      ]

module _ {VT : Type 0} (t : Screen VT) where
  step-Exact : (now : ℤ) (e : Event) (i : ℕ) (h : Host VT) → Exact h → Exact (step t now e i h)
  unfolding step
  step-Exact now e i h k = at (get_elem? h.sessions i) refl
    where
      at : (o : Option (Session VT)) → get_elem? h.sessions i ≡ o → Exact (stepped t now e i h o)
      at none q = k
      at (some s) q =
          let d = apart is_counted h.sessions i s q in
          let r = apart is_running h.sessions i s q in
          let (here, later, gone) = All-at h.sessions i s q k.sessions in
          let w : World VT = record {
            detached_n = h.detached_n;
            active_n = h.active_n;
            max_detached = h.max_detached;
            session = s;
          } in
          let before : Counted d.others r.others w = record {
            detached_n = k.detached_n ∙ ap pos d.now;
            active_n = k.active_n ∙ ap pos r.now;
            well_formed = here;
          } in
          let after = happens-Counted t d.others r.others now e w before in
          record {
            detached_n = after.detached_n ∙ ap pos (sym (d.then_ _));
            active_n = after.active_n ∙ ap pos (sym (r.then_ _));
            sessions = later _ after.well_formed;
          }

  create-Exact :
      (blank : ℕ → ℕ → VT) (now : ℤ) (starts : Bool) (q : CreateRequest) (h : Host VT)
      → Exact h
      → Exact (create blank now starts q h).0
  unfolding create new_session ◌+ℤ◌ has_screen total
  create-Exact blank now starts q h k =
      let vt = if q.pty then some (blank (clamp_dim q.cols 80) (clamp_dim q.rows 24)) else none in
      let s = new_session vt now h.ring_bytes q in
      let born : WellFormed s = ground arith in
      let all = All-snoc h.sessions s k.sessions born in
      ground (
        arith,
        total-append is_counted h.sessions (s ∷ []),
        total-append is_running h.sessions (s ∷ []),
      )

  -- The hosts that can be reached: sessions are created, things happen to them, tombstones are removed,
  -- policies are applied and the host is drained, in any order.
  pub data Reachable (blank : ℕ → ℕ → VT) : Host VT → Type 0 where
    begins : {h : Host VT} → h ≡ new_host → Reachable blank h
    creates :
        {h g : Host VT} (now : ℤ) (starts : Bool) (q : CreateRequest)
        → Reachable blank h
        → g ≡ (create blank now starts q h).0
        → Reachable blank g
    steps :
        {h g : Host VT} (now : ℤ) (e : Event) (i : ℕ)
        → Reachable blank h
        → g ≡ step t now e i h
        → Reachable blank g
    removes : {h g : Host VT} (i : ℕ) → Reachable blank h → g ≡ remove i h → Reachable blank g
    governs :
        {h g : Host VT} (forbid : Bool) (m n : ℕ) (bytes : ℤ)
        → Reachable blank h
        → g ≡ apply_policy forbid m n bytes h
        → Reachable blank g
    drains : {h g : Host VT} → Reachable blank h → g ≡ drain h → Reachable blank g

  -- In every state that a host can reach, its counters are exact and every session is well formed: the
  -- count of detached sessions is the number of sessions marked so, each of which is detachable, runs
  -- and has no client; that of active ones is the number of sessions that run; a session is attached
  -- exactly while it runs and has a client; and no queue of a client is over its bound.
  pub Reachable-Exact : (blank : ℕ → ℕ → VT) {h : Host VT} → Reachable blank h → Exact h
  unfolding total apply_policy
  Reachable-Exact blank (begins e) =
      subst Exact (sym e) (record { detached_n = refl; active_n = refl; sessions = tt })
  Reachable-Exact blank (creates now starts q r e) =
      subst Exact (sym e) (create-Exact blank now starts q _ (Reachable-Exact blank r))
  Reachable-Exact blank (steps now v i r e) =
      subst Exact (sym e) (step-Exact now v i _ (Reachable-Exact blank r))
  Reachable-Exact blank (removes i r e) =
      subst Exact (sym e) (remove-Exact i _ (Reachable-Exact blank r))
  Reachable-Exact blank (governs f m n b r e) =
      let k = Reachable-Exact blank r in
      subst Exact (sym e)
        (record { detached_n = k.detached_n; active_n = k.active_n; sessions = k.sessions })
  Reachable-Exact blank (drains r e) =
      let k = Reachable-Exact blank r in
      subst Exact (sym e)
        (record { detached_n = k.detached_n; active_n = k.active_n; sessions = k.sessions })

  -- A session that is created keeps the host within its limits, in every state that it can reach: no
  -- more sessions run than the limit, and if the new one is detachable, no more are counted as detached.
  pub create_bounds :
      (blank : ℕ → ℕ → VT) (now : ℤ) (starts : Bool) (q : CreateRequest) {h : Host VT}
      → Reachable blank h
      → (create blank now starts q h).1 ≡ none
      → let g = (create blank now starts q h).0 in
        (total is_running g.sessions ≤ h.max_sessions)
        × (q.detachable ≡ true → total is_counted g.sessions ≤ h.max_detached)
  unfolding create ◌+ℤ◌
  create_bounds blank now starts q {h} r e =
      let k = Reachable-Exact blank r in
      let k' = create-Exact blank now starts q h k in
      ground (arith, ap pos_part k'.active_n, ap pos_part k'.detached_n)
