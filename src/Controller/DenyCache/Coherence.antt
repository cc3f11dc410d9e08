-- ===== src/Controller/DenyCache/Coherence.antt =====
-- That the cache never brings back a verdict that an invalidation has dropped.
use geneza.Base.{
  ℕ, suc, ◌≤◌, ◌≡◌, refl, sym, ap, ◌∙◌, subst, Bool, true, false, ◌&&◌, Option, none, some, ◌==◌,
  ◌⊎◌, inl, inr, Bool-cases, arith, Str, bytes_eq, if◌then◌else◌,
}
use geneza.Base.Int.{ℤ, ltb_ℤ}
use geneza.Base.Dict.{get, Entry, get-Entry}
use mathlib.Core.Option.{some-injective, none-ne-some}
use geneza.Controller.DenyCache.{
  DenyEntry, Table, DenyCache, new_deny_cache, entries, Begun, hit, miss, begun, begin_lookup,
}
use geneza.Controller.DenyCache.System.{
  Load, waiting, loaded, System, same_table, update, put_load, Step, begins, reads, finishes,
  writes, invalidates, flushes, sweeps, Reachable, fresh, next,
}
use geneza.Controller.DenyCache.Entries.{
  finish-gen, finish-Entry, gc-Entry, gc-gen, invalidate-Entry, invalidate-gen, flush-Entry,
  flush-gen, new-Entry,
}

-- What holds of one load: its generation is not ahead, and if no invalidation came since, it has the
-- store's answer on every key that is not dirty.
LoadOk : System → Option Load → Type 0
LoadOk s none = Unit
LoadOk s (some (waiting t key ent gen)) = gen ≤ s.cache.gen
LoadOk s (some (loaded t key ent gen answer)) =
    (gen ≤ s.cache.gen)
    × ((b : Bool)
        → answer ≡ some b
        → gen ≡ s.cache.gen
        → s.dirty t key ≡ false
        → b ≡ s.denied t key)

record Coherent (s : System) : Type 0 where
  cached :
      (t : Table) (key : Str) (e : DenyEntry)
      → Entry key e (entries s.cache t)
      → s.dirty t key ≡ false
      → e.deny ≡ s.denied t key
  loads_ok : (i : ℕ) → LoadOk s (s.loads i)

-- Facts that a step leaves: what is not dirty after it was not dirty before, and is denied as before.
abbrev KeepsFacts : System → System → Type 0
KeepsFacts s s' =
    (t : Table) (key : Str)
    → s'.dirty t key ≡ false
    → (s.dirty t key ≡ false) × (s'.denied t key ≡ s.denied t key)

LoadOk-same :
    (s s' : System) (l : Option Load)
    → s'.cache.gen ≡ s.cache.gen
    → KeepsFacts s s'
    → LoadOk s l
    → LoadOk s' l
unfolding LoadOk
LoadOk-same s s' none g f k = tt
LoadOk-same s s' (some (waiting t key ent gen)) g f k = omega (arith, g, k)
LoadOk-same s s' (some (loaded t key ent gen answer)) g f k =
    (omega (arith, g, k.0), λ b e h d. k.1 b e (h ∙ g) (f t key d).0 ∙ sym (f t key d).1)

LoadOk-later :
    (s s' : System) (l : Option Load) → s'.cache.gen ≡ suc s.cache.gen → LoadOk s l → LoadOk s' l
unfolding LoadOk
LoadOk-later s s' none g k = tt
LoadOk-later s s' (some (waiting t key ent gen)) g k = omega (arith, g, k)
LoadOk-later s s' (some (loaded t key ent gen answer)) g k =
    (omega (arith, g, k.0), λ b e h d. absurd (omega (arith, h, g, k.0)))

put_load-ok :
    (s : System) (loads : ℕ → Option Load) (i : ℕ) (l : Option Load)
    → LoadOk s l
    → ((j : ℕ) → LoadOk s (loads j))
    → (j : ℕ) → LoadOk s (put_load loads i l j)
unfolding put_load
put_load-ok s loads i l k h j = elim (Bool-cases (i == j)) [ inl e ↦ rw e k | inr e ↦ rw e (h j) ]

update-other :
    (f : Table → Str → Bool) (t : Table) (key : Str) (b : Bool) (u : Table) (k : Str)
    → (same_table t u && bytes_eq key k) ≡ false
    → update f t key b u k ≡ f u k
unfolding update
update-other f t key b u k h = rw h refl

if_true : (m x : Bool) → (if m then true else x) ≡ false → m ≡ false
if_true true x h = h
if_true false x h = refl

update-true :
    (f : Table → Str → Bool) (t : Table) (key : Str) (u : Table) (k : Str)
    → update f t key true u k ≡ false
    → (same_table t u && bytes_eq key k) ≡ false
unfolding update
update-true f t key u k h = if_true (same_table t u && bytes_eq key k) (f u k) h

writes-KeepsFacts :
    (s : System) (t : Table) (key : Str) (b : Bool)
    → KeepsFacts s
        (record s { denied = update s.denied t key b; dirty = update s.dirty t key true })
writes-KeepsFacts s t key b u k d =
    let n = update-true s.dirty t key u k d in
    (sym (update-other s.dirty t key true u k n) ∙ d, update-other s.denied t key b u k n)

answered :
    (s : System) (t : Table) (key : Str) (answer : Option Bool) (b : Bool)
    → (answer ≡ none) ⊎ (answer ≡ some (s.denied t key))
    → answer ≡ some b
    → b ≡ s.denied t key
answered s t key answer b (inl n) q = absurd (none-ne-some b (sym n ∙ q))
answered s t key answer b (inr n) q = some-injective b (s.denied t key) (sym q ∙ n)

gen_of : ℕ → Begun → ℕ
gen_of g (hit b) = g
gen_of g (miss ent gen) = gen

begun-gen : (c : DenyCache) (now : ℤ) (o : Option DenyEntry) → gen_of c.gen (begun c now o) ≡ c.gen
unfolding begun gen_of
begun-gen c now none = refl
begun-gen c now (some e) = elim (Bool-cases (ltb_ℤ now e.expires)) [
  | inl b ↦ rw b refl
  | inr b ↦ rw b refl
]

begin_lookup-gen :
    (c : DenyCache) (t : Table) (key : Str) (now : ℤ) (ent : Option DenyEntry) (gen : ℕ)
    → begin_lookup c t key now ≡ miss ent gen
    → gen ≤ c.gen
unfolding begin_lookup gen_of
begin_lookup-gen c t key now ent gen h =
    let g : gen ≡ c.gen = ap (gen_of c.gen) (sym h) ∙ begun-gen c now (get (entries c t) key) in
    omega (arith, g)

Step-Coherent : (s s' : System) → Step s s' → Coherent s → Coherent s'
unfolding LoadOk
Step-Coherent s s' (begins v i t key now ent gen e) k = record {
  cached = k.cached;
  loads_ok =
      put_load-ok s' v.loads i _ (begin_lookup-gen v.cache t key now ent gen e)
        (λ j. LoadOk-same v s' (v.loads j) refl (λ u x d. (d, refl)) (k.loads_ok j));
}
Step-Coherent s s' (reads v i t key ent gen answer e a) k = record {
  cached = k.cached;
  loads_ok =
      put_load-ok s' v.loads i _
        (subst (LoadOk v) e (k.loads_ok i), λ b q g d. answered v t key answer b a q)
        (λ j. LoadOk-same v s' (v.loads j) refl (λ u x d. (d, refl)) (k.loads_ok j));
}
Step-Coherent s s' (finishes v i t key now ent gen answer e) k = record {
  cached = λ u x y h d. elim (finish-Entry v.cache t key now ent gen answer u x y h) [
    | inl old ↦ k.cached u x y old d
    | inr q ↦
        let d' =
          subst (λ z. v.dirty t z ≡ false) q.1 (subst (λ w. v.dirty w x ≡ false) (sym q.0) d) in
        let l = subst (LoadOk v) e (k.loads_ok i) in
        l.1 y.deny q.2 q.3 d' ∙ ap (λ z. v.denied t z) (sym q.1) ∙ ap (λ w. v.denied w x) q.0
  ];
  loads_ok = put_load-ok s' v.loads i _ tt (λ j.
      LoadOk-same v s' (v.loads j) (finish-gen v.cache t key now ent gen answer)
        (λ u x d. (d, refl)) (k.loads_ok j));
}
Step-Coherent s s' (writes v t key b) k = record {
  cached = λ u x y h d. let f = writes-KeepsFacts v t key b u x d in k.cached u x y h f.0 ∙ sym f.1;
  loads_ok = λ j. LoadOk-same v s' (v.loads j) refl (writes-KeepsFacts v t key b) (k.loads_ok j);
}
Step-Coherent s s' (invalidates v t key g) k = record {
  cached = λ u x y h d.
      let r = invalidate-Entry v.cache t key u x y h in
      k.cached u x y r.0 (sym (update-other v.dirty t key false u x r.1) ∙ d);
  loads_ok = λ j. LoadOk-later v s' (v.loads j) (invalidate-gen v.cache t key g) (k.loads_ok j);
}
Step-Coherent s s' (flushes v g) k = record {
  cached = λ u x y h d. absurd (flush-Entry v.cache u x y h);
  loads_ok = λ j. LoadOk-later v s' (v.loads j) (flush-gen v.cache g) (k.loads_ok j);
}
Step-Coherent s s' (sweeps v now) k = record {
  cached = λ u x y h d. k.cached u x y (gc-Entry now v.cache u x y h) d;
  loads_ok =
      λ j. LoadOk-same v s' (v.loads j) (gc-gen now v.cache) (λ u x d. (d, refl)) (k.loads_ok j);
}

Reachable-Coherent : (s : System) → Reachable s → Coherent s
unfolding LoadOk new_deny_cache entries
Reachable-Coherent s (fresh ttl fail_closed denied) = record {
  cached = λ t key e h d. absurd (new-Entry ttl fail_closed t key e h);
  loads_ok = λ i. tt;
}
Reachable-Coherent s (next a b st r) = Step-Coherent a b st (Reachable-Coherent a r)

verdict : Bool → Begun → Bool
verdict d (hit b) = b
verdict d (miss ent gen) = d

hit_lem :
    (is_fresh : Bool) (e : DenyEntry) (gen : ℕ) (v : Bool)
    → (if is_fresh then hit e.deny else miss (some e) gen) ≡ hit v
    → e.deny ≡ v
unfolding verdict
hit_lem true e gen v h = ap (verdict v) h
hit_lem false e gen v h = cc

begun-hit :
    (c : DenyCache) (now : ℤ) (o : Option DenyEntry) (v : Bool)
    → begun c now o ≡ hit v
    → (e : DenyEntry) × (o ≡ some e) × (e.deny ≡ v)
unfolding begun
begun-hit c now none v h = cc
begun-hit c now (some e) v h = (e, refl, hit_lem (ltb_ℤ now e.expires) e c.gen v h)

-- However lookups, writes of the store, invalidations, flushes and sweeps interleave, as long as the
-- generation does not run through a whole uint64: a verdict that is served from the cache, on a key
-- whose last write was followed by its invalidation or a flush, is the store's. A load that began
-- before an invalidation never brings the old verdict back.
pub Reachable-hit :
    (s : System)
    → Reachable s
    → (t : Table) (key : Str) (now : ℤ) (v : Bool) → begin_lookup s.cache t key now ≡ hit v
    → s.dirty t key ≡ false
    → v ≡ s.denied t key
unfolding begin_lookup
Reachable-hit s r t key now v h d =
    let m = begun-hit s.cache now (get (entries s.cache t) key) v h in
    sym m.2 ∙ (Reachable-Coherent s r).cached t key m.0 (get-Entry _ key m.0 m.1) d
