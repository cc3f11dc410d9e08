-- ===== src/Controller/DenyCache.antt =====
-- internal/controller/denycache.go: the cache of the two deny reads.
-- A lookup drops the cache's lock while its loader runs, so it is two operations, `begin_lookup` and
-- `finish_lookup`, with the loader's answer between them: none is a fault. The clock is an argument,
-- and `principalKey` has been applied.
pub mod System
pub mod Entries
pub mod Coherence
pub mod Policy
mod Examples
use geneza.Base.{
  ℕ, suc, ◌+◌, ◌%◌, ◌^◌, Bool, true, false, not, ◌&&◌, Option, none, some, List, [], ◌∷◌, ◌==◌,
  if◌then◌else◌, Str,
}
use geneza.Base.Int.{ℤ, ◌+ℤ◌, ltb_ℤ}
use geneza.Base.Dict.{Dict, get, put, remove}

pub record DenyEntry : Type 0 where
  pub deny : Bool
  pub expires : ℤ

-- Which of the two maps.
pub data Table : Type 0 where
  revoked suspended : Table

pub record DenyCache : Type 0 where
  pub rev_entries : Dict DenyEntry
  pub susp_entries : Dict DenyEntry
  pub gen : ℕ
  pub ttl : ℤ
  pub fail_closed : Bool

pub new_deny_cache : ℤ → Bool → DenyCache
new_deny_cache ttl fail_closed = record {
  rev_entries = [];
  susp_entries = [];
  gen = 0;
  ttl = ttl;
  fail_closed = fail_closed;
}

unfoldable pub entries : DenyCache → Table → Dict DenyEntry
entries c revoked = c.rev_entries
entries c suspended = c.susp_entries

unfoldable pub set_entries : DenyCache → Table → Dict DenyEntry → DenyCache
set_entries c revoked m = record c { rev_entries = m }
set_entries c suspended m = record c { susp_entries = m }

-- c.gen++ on a uint64
unfoldable pub bump : DenyCache → DenyCache
bump c = record c { gen = (c.gen + 1) % 2 ^ 64 }

pub data Begun : Type 0 where
  -- a fresh entry's verdict
  hit : Bool → Begun
  -- the entry that has lapsed, if there is one, and the generation before the load
  miss : Option DenyEntry → ℕ → Begun

begun : DenyCache → ℤ → Option DenyEntry → Begun
begun c now none = miss none c.gen
begun c now (some e) = if ltb_ℤ now e.expires then hit e.deny else miss (some e) c.gen

pub begin_lookup : DenyCache → Table → Str → ℤ → Begun
unfolding entries begun
begin_lookup c t key now = begun c now (get (entries c t) key)

last_known : Option DenyEntry → Bool
last_known none = false
last_known (some e) = e.deny

-- The rest of a lookup that missed, with what the loader answered, at a later time.
pub finish_lookup :
    DenyCache → Table → Str → ℤ → Option DenyEntry → ℕ → Option Bool → DenyCache × Bool
unfolding set_entries entries last_known
finish_lookup c t key now ent gen (some deny) = (
  if c.gen == gen
      then set_entries c t (put (entries c t) key (record { deny = deny; expires = now +ℤ c.ttl }))
      else c,
  deny,
)
finish_lookup c t key now ent gen none = (c, if not c.fail_closed then last_known ent else true)

finished : DenyCache → Table → Str → ℤ → Option Bool → Begun → DenyCache × Bool
unfolding finish_lookup
finished c t key later answer (hit deny) = (c, deny)
finished c t key later answer (miss ent gen) = finish_lookup c t key later ent gen answer

-- A lookup that nothing interrupts: certRevoked and suspended, by the table.
pub lookup : DenyCache → Table → Str → ℤ → ℤ → Option Bool → DenyCache × Bool
unfolding finished begin_lookup
lookup c t key now later answer = finished c t key later answer (begin_lookup c t key now)

-- invalidateRevoked and invalidateSuspension, by the table
unfoldable pub invalidate : DenyCache → Table → Str → DenyCache
unfolding bump set_entries entries
invalidate c t key = bump (set_entries c t (remove (entries c t) key))

unfoldable pub flush : DenyCache → DenyCache
unfolding bump
flush c = bump (record c { rev_entries = []; susp_entries = [] })

unfoldable pub drop_expired : ℤ → Dict DenyEntry → Dict DenyEntry
drop_expired now [] = []
drop_expired now ((k, e) ∷ m) =
    let rest = drop_expired now m in if not (ltb_ℤ now e.expires) then rest else (k, e) ∷ rest

unfoldable pub gc : DenyCache → ℤ → DenyCache
unfolding drop_expired
gc c now = record c {
  rev_entries = drop_expired now c.rev_entries;
  susp_entries = drop_expired now c.susp_entries;
}
