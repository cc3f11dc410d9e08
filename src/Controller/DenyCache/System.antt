-- ===== src/Controller/DenyCache/System.antt =====
-- Lookups, writes of the store and invalidations that interleave.
use geneza.Base.{
  ℕ, suc, ◌^◌, ◌<◌, ◌≡◌, Bool, true, false, ◌&&◌, Option, none, some, ◌==◌, ◌⊎◌, Str, bytes_eq,
  if◌then◌else◌,
}
use geneza.Base.Int.{ℤ}
use geneza.Controller.DenyCache.{
  DenyEntry, Table, revoked, suspended, DenyCache, new_deny_cache, miss, begin_lookup,
  finish_lookup, invalidate, flush, gc,
}

-- A lookup that missed: its loader is still to read the store, or it has answered.
pub data Load : Type 0 where
  waiting : Table → Str → Option DenyEntry → ℕ → Load
  loaded : Table → Str → Option DenyEntry → ℕ → Option Bool → Load

-- The cache, the store's deny facts, the keys that were written and whose invalidation is still to
-- come, and the loads in flight, by a number.
pub record System : Type 0 where
  pub cache : DenyCache
  pub denied : Table → Str → Bool
  pub dirty : Table → Str → Bool
  pub loads : ℕ → Option Load

unfoldable pub same_table : Table → Table → Bool
same_table revoked revoked = true
same_table suspended suspended = true
same_table revoked suspended = false
same_table suspended revoked = false

-- One fact of a table changed.
unfoldable pub update : (Table → Str → Bool) → Table → Str → Bool → Table → Str → Bool
unfolding same_table
update f t key b u k = if same_table t u && bytes_eq key k then b else f u k

unfoldable pub put_load : (ℕ → Option Load) → ℕ → Option Load → ℕ → Option Load
put_load f i l j = if i == j then l else f j

pub data Step : System → System → Type 0 where
  -- a lookup that misses
  begins :
      (s : System) (i : ℕ) (t : Table) (key : Str) (now : ℤ) (ent : Option DenyEntry) (gen : ℕ)
      → begin_lookup s.cache t key now ≡ miss ent gen
      → Step s (record s { loads = put_load s.loads i (some (waiting t key ent gen)) })
  -- its loader reads the store, or faults
  reads :
      (s : System) (i : ℕ) (t : Table) (key : Str) (ent : Option DenyEntry) (gen : ℕ)
      (answer : Option Bool)
      → s.loads i ≡ some (waiting t key ent gen)
      → (answer ≡ none) ⊎ (answer ≡ some (s.denied t key))
      → Step s (record s { loads = put_load s.loads i (some (loaded t key ent gen answer)) })
  -- and the lookup ends
  finishes :
      (s : System) (i : ℕ) (t : Table) (key : Str) (now : ℤ) (ent : Option DenyEntry) (gen : ℕ)
      (answer : Option Bool)
      → s.loads i ≡ some (loaded t key ent gen answer)
      → Step s (record s {
        cache = (finish_lookup s.cache t key now ent gen answer).0;
        loads = put_load s.loads i none;
      })
  -- a deny fact of the store changes, on this controller or on another
  writes :
      (s : System) (t : Table) (key : Str) (b : Bool)
      → Step s (record s { denied = update s.denied t key b; dirty = update s.dirty t key true })
  -- the generation has not run through all of a uint64
  invalidates :
      (s : System) (t : Table) (key : Str)
      → suc s.cache.gen < 2 ^ 64
      → Step s (record s { cache = invalidate s.cache t key; dirty = update s.dirty t key false })
  flushes :
      (s : System)
      → suc s.cache.gen < 2 ^ 64
      → Step s (record s { cache = flush s.cache; dirty = λ t key. false })
  sweeps : (s : System) (now : ℤ) → Step s (record s { cache = gc s.cache now })

pub data Reachable : System → Type 0 where
  fresh :
      (ttl : ℤ) (fail_closed : Bool) (denied : Table → Str → Bool)
      → Reachable (record {
        cache = new_deny_cache ttl fail_closed;
        denied = denied;
        dirty = λ t key. false;
        loads = λ i. none;
      })
  next : (s s' : System) → Step s s' → Reachable s → Reachable s'
