-- ===== src/Controller/DenyCache/Policy.antt =====
-- What a lookup may answer when the store faults.
use geneza.Base.{
  ℕ, ◌≡◌, refl, ap, Bool, true, false, not, Option, none, some, ◌⊎◌, inl, inr, arith, Str,
  if◌then◌else◌,
}
use geneza.Base.Int.{ℤ, ltb_ℤ}
use geneza.Base.Dict.{get}
use geneza.Controller.DenyCache.{
  DenyEntry, Table, DenyCache, entries, hit, miss, begun, begin_lookup, finish_lookup, finished,
  lookup, last_known,
}

-- An entry that allows and has not lapsed.
pub FreshAllow : DenyCache → Table → Str → ℤ → Type 0
FreshAllow c t key now =
    (e : DenyEntry) × (get (entries c t) key ≡ some e)
    × (ltb_ℤ now e.expires ≡ true)
    × (e.deny ≡ false)

closed : (f d : Bool) → f ≡ true → (if not f then d else true) ≡ false → ⊥
closed f d e h = ground arith

finish-allows :
    (c : DenyCache) (t : Table) (key : Str) (later : ℤ) (ent : Option DenyEntry) (gen : ℕ)
    (answer : Option Bool)
    → c.fail_closed ≡ true
    → (finish_lookup c t key later ent gen answer).1 ≡ false
    → answer ≡ some false
unfolding finish_lookup
finish-allows c t key later ent gen none f h = absurd (closed c.fail_closed (last_known ent) f h)
finish-allows c t key later ent gen (some d) f h = ap some h

entry-allows :
    (c : DenyCache) (t : Table) (key : Str) (later : ℤ) (answer : Option Bool) (x : DenyEntry)
    (is_fresh : Bool)
    → c.fail_closed ≡ true
    → (finished c t key later answer (if is_fresh then hit x.deny else miss (some x) c.gen)).1
      ≡ false
    → ((is_fresh ≡ true) × (x.deny ≡ false)) ⊎ (answer ≡ some false)
unfolding finished
entry-allows c t key later answer x true f h = inl (refl, h)
entry-allows c t key later answer x false f h =
    inr (finish-allows c t key later (some x) c.gen answer f h)

found-allows :
    (c : DenyCache) (t : Table) (key : Str) (now later : ℤ) (answer : Option Bool)
    (o : Option DenyEntry)
    → get (entries c t) key ≡ o
    → c.fail_closed ≡ true
    → (finished c t key later answer (begun c now o)).1 ≡ false
    → FreshAllow c t key now ⊎ (answer ≡ some false)
unfolding finished begun FreshAllow
found-allows c t key now later answer none e f h =
    inr (finish-allows c t key later none c.gen answer f h)
found-allows c t key now later answer (some x) e f h =
    elim (entry-allows c t key later answer x (ltb_ℤ now x.expires) f h) [
      | inl a ↦ inl (x, e, a.0, a.1)
      | inr a ↦ inr a
    ]

-- On a cache that fails closed, a lookup allows only on an entry that allows and has not lapsed, or
-- on the store's own answer; a fault of the store never does.
pub lookup-allows :
    (c : DenyCache) (t : Table) (key : Str) (now later : ℤ) (answer : Option Bool)
    → c.fail_closed ≡ true
    → (lookup c t key now later answer).1 ≡ false
    → FreshAllow c t key now ⊎ (answer ≡ some false)
unfolding lookup begin_lookup
lookup-allows c t key now later answer f h =
    found-allows c t key now later answer (get (entries c t) key) refl f h
