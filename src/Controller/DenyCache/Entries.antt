-- ===== src/Controller/DenyCache/Entries.antt =====
-- What the operations of the cache leave of its entries and of its generation.
use geneza.Base.{
  ℕ, suc, ◌^◌, ◌<◌, ◌≡◌, refl, sym, ap, ◌∙◌, subst, Bool, true, false, not, ◌&&◌, Option, none,
  some, [], ◌∷◌, ◌==◌, ==_iff, ◌⊎◌, inl, inr, Bool-cases, arith, Str, bytes_eq, if◌then◌else◌,
}
use geneza.Base.Int.{ℤ, ◌+ℤ◌, ltb_ℤ}
use geneza.Base.Dict.{Dict, put, remove, Entry, remove-Entry, put-Entry}
use geneza.Controller.DenyCache.{
  DenyEntry, Table, revoked, suspended, DenyCache, new_deny_cache, entries, set_entries, bump,
  finish_lookup, invalidate, flush, drop_expired, gc,
}
use geneza.Controller.DenyCache.System.{same_table}

pub set_entries-Entry :
    (c : DenyCache) (t u : Table) (m : Dict DenyEntry) (key : Str) (e : DenyEntry)
    → Entry key e (entries (set_entries c t m) u)
    → ((t ≡ u) × Entry key e m) ⊎ (Entry key e (entries c u) × (same_table t u ≡ false))
unfolding entries set_entries same_table
set_entries-Entry c revoked revoked m key e h = inl (refl, h)
set_entries-Entry c suspended suspended m key e h = inl (refl, h)
set_entries-Entry c revoked suspended m key e h = inr (h, refl)
set_entries-Entry c suspended revoked m key e h = inr (h, refl)

pub set_entries-gen :
    (c : DenyCache) (t : Table) (m : Dict DenyEntry) → (set_entries c t m).gen ≡ c.gen
unfolding set_entries
set_entries-gen c revoked m = refl
set_entries-gen c suspended m = refl

pub bump-gen : (c : DenyCache) → suc c.gen < 2 ^ 64 → (bump c).gen ≡ suc c.gen
unfolding bump
bump-gen c h = omega arith

pub bump-entries : (c : DenyCache) (t : Table) → entries (bump c) t ≡ entries c t
unfolding entries bump
bump-entries c revoked = refl
bump-entries c suspended = refl

pub drop_expired-Entry :
    (now : ℤ) (m : Dict DenyEntry) (key : Str) (e : DenyEntry)
    → Entry key e (drop_expired now m)
    → Entry key e m
unfolding drop_expired
drop_expired-Entry now [] key e h = h
drop_expired-Entry now ((k, x) ∷ m) key e h =
    let ih = drop_expired-Entry now m key e in
    elim (Bool-cases (ltb_ℤ now x.expires)) [
      | inr b ↦ inr (
          ih (
            subst
              (λ q. Entry key e (if not q then drop_expired now m else (k, x) ∷ drop_expired now m))
              b h))
      | inl b ↦
          elim (subst
            (λ q. Entry key e (if not q then drop_expired now m else (k, x) ∷ drop_expired now m)) b
            h) [ inl q ↦ inl q | inr n ↦ inr (ih n) ]
    ]

pub gc-Entry :
    (now : ℤ) (c : DenyCache) (t : Table) (key : Str) (e : DenyEntry)
    → Entry key e (entries (gc c now) t)
    → Entry key e (entries c t)
unfolding gc entries
gc-Entry now c revoked key e h = drop_expired-Entry now c.rev_entries key e h
gc-Entry now c suspended key e h = drop_expired-Entry now c.susp_entries key e h

pub finish-gen :
    (c : DenyCache) (t : Table) (key : Str) (now : ℤ) (ent : Option DenyEntry) (gen : ℕ)
    (answer : Option Bool)
    → (finish_lookup c t key now ent gen answer).0.gen ≡ c.gen
unfolding finish_lookup
finish-gen c t key now ent gen none = refl
finish-gen c t key now ent gen (some b) = elim (Bool-cases (c.gen == gen)) [
  | inl e ↦
      rw e
        (set_entries-gen c t (put (entries c t) key (record { deny = b; expires = now +ℤ c.ttl })))
  | inr e ↦ rw e refl
]

-- An entry after a lookup ended is an old one, or the loader's answer of this generation.
pub finish-Entry :
    (c : DenyCache) (t : Table) (key : Str) (now : ℤ) (ent : Option DenyEntry) (gen : ℕ)
    (answer : Option Bool) (u : Table) (k : Str) (x : DenyEntry)
    → Entry k x (entries (finish_lookup c t key now ent gen answer).0 u)
    → Entry k x (entries c u) ⊎ ((t ≡ u) × (k ≡ key) × (answer ≡ some x.deny) × (gen ≡ c.gen))
unfolding finish_lookup
finish-Entry c t key now ent gen none u k x h = inl h
finish-Entry c t key now ent gen (some b) u k x h = elim (Bool-cases (c.gen == gen)) [
  | inr e ↦ inl (
      subst
        (λ q. Entry k x (
          entries
            (if q
              then set_entries c t
                  (put (entries c t) key (record { deny = b; expires = now +ℤ c.ttl }))
              else c)
            u))
        e h)
  | inl e ↦
      elim (set_entries-Entry c t u
        (put (entries c t) key (record { deny = b; expires = now +ℤ c.ttl })) k x
        (subst
          (λ q. Entry k x (
            entries
              (if q
                then set_entries c t
                    (put (entries c t) key (record { deny = b; expires = now +ℤ c.ttl }))
                else c)
              u))
          e h)) [
            | inr n ↦ inl n.0
            | inl n ↦
                elim (put-Entry (entries c t) key k x (record { deny = b; expires = now +ℤ c.ttl })
                  n.1) [
                    | inl q ↦
                        inr
                          (n.0, q.0, ap (λ y. some y.deny) (sym q.1), sym ((==_iff c.gen gen).0 e))
                    | inr q ↦ inl (subst (λ w. Entry k x (entries c w)) n.0 q.0)
                  ]
          ]
]

and_false : (a b : Bool) → b ≡ false → (a && b) ≡ false
and_false true b h = h
and_false false b h = refl

pub invalidate-Entry :
    (c : DenyCache) (t : Table) (key : Str) (u : Table) (k : Str) (x : DenyEntry)
    → Entry k x (entries (invalidate c t key) u)
    → Entry k x (entries c u) × ((same_table t u && bytes_eq key k) ≡ false)
unfolding invalidate
invalidate-Entry c t key u k x h =
    let h' =
      subst (λ m. Entry k x m) (bump-entries (set_entries c t (remove (entries c t) key)) u) h in
    elim (set_entries-Entry c t u (remove (entries c t) key) k x h') [
      | inr n ↦ (n.0, rw n.1 refl)
      | inl n ↦
          let r = remove-Entry (entries c t) key k x n.1 in
          (
            subst (λ w. Entry k x (entries c w)) n.0 r.0,
            and_false (same_table t u) (bytes_eq key k) r.1,
          )
    ]

pub invalidate-gen :
    (c : DenyCache) (t : Table) (key : Str)
    → suc c.gen < 2 ^ 64
    → (invalidate c t key).gen ≡ suc c.gen
unfolding invalidate
invalidate-gen c t key h =
    let g = set_entries-gen c t (remove (entries c t) key) in
    bump-gen (set_entries c t (remove (entries c t) key)) (rw g h) ∙ ap (λ n. suc n) g

pub flush-Entry :
    (c : DenyCache) (t : Table) (key : Str) (e : DenyEntry) → ¬ Entry key e (entries (flush c) t)
unfolding flush bump entries
flush-Entry c revoked key e h = h
flush-Entry c suspended key e h = h

pub flush-gen : (c : DenyCache) → suc c.gen < 2 ^ 64 → (flush c).gen ≡ suc c.gen
unfolding flush bump
flush-gen c h = omega arith

pub gc-gen : (now : ℤ) (c : DenyCache) → (gc c now).gen ≡ c.gen
unfolding gc
gc-gen now c = refl

pub new-Entry :
    (ttl : ℤ) (fail_closed : Bool) (t : Table) (key : Str) (e : DenyEntry)
    → ¬ Entry key e (entries (new_deny_cache ttl fail_closed) t)
unfolding new_deny_cache entries
new-Entry ttl fail_closed revoked key e h = h
new-Entry ttl fail_closed suspended key e h = h
