-- ===== src/Base/Dict.antt =====
-- Go's maps with string keys: an association list that holds a key at most once where it is used.
-- No modelled code depends on the order of an iteration.
use geneza.Base.{
  ◌⊎◌, ◌∙◌, inr, sym, subst, inl, Bool-cases, ◌≡◌, refl, false, Option, none, some, List, [], ◌∷◌,
  arith, Str, bytes_eq, bytes_eq_iff, bytes_eq_refl, if◌then◌else◌,
}
use mathlib.Core.Option.{some-injective, none-ne-some}

abbrev pub Dict {ℓ} : Type ℓ → Type ℓ
Dict V = List (Str × V)

module _ {ℓ} {V : Type ℓ} where
  -- m[k]
  unfoldable pub get : Dict V → Str → Option V
  get [] k = none
  get ((j, v) ∷ m) k = if bytes_eq j k then some v else get m k

  -- delete(m, k)
  unfoldable pub remove : Dict V → Str → Dict V
  remove [] k = []
  remove ((j, v) ∷ m) k = let rest = remove m k in if bytes_eq j k then rest else (j, v) ∷ rest

  -- m[k] = v
  unfoldable pub put : Dict V → Str → V → Dict V
  unfolding remove
  put m k v = (k, v) ∷ remove m k

  pub get-remove :
      (m : Dict V) (k j : Str) → get (remove m k) j ≡ (if bytes_eq k j then none else get m j)
  unfolding get remove
  get-remove [] k j = ground arith
  get-remove ((i, v) ∷ m) k j =
      ground (arith, get-remove m k j, bytes_eq_iff i k, bytes_eq_iff i j, bytes_eq_iff k j)

  pub get-put :
      (m : Dict V) (k j : Str) (v : V)
      → get (put m k v) j ≡ (if bytes_eq k j then some v else get m j)
  unfolding get put
  get-put m k j v = ground (arith, get-remove m k j)

  pub get-put_self : (m : Dict V) (k : Str) (v : V) → get (put m k v) k ≡ some v
  get-put_self m k v = ground (arith, get-put m k k v, bytes_eq_refl k)

  pub get-remove_self : (m : Dict V) (k : Str) → get (remove m k) k ≡ none
  get-remove_self m k = ground (arith, get-remove m k k, bytes_eq_refl k)

  pub remove-remove : (m : Dict V) (k : Str) → remove (remove m k) k ≡ remove m k
  unfolding remove
  remove-remove [] k = refl
  remove-remove ((i, v) ∷ m) k = ground (arith, remove-remove m k)

module _ {V : Type 0} where
  -- The entries of a map, and what the operations leave of them.
  abbrev pub Entry : Str → V → Dict V → Type 0
  Entry k v [] = ⊥
  Entry k v ((j, w) ∷ m) = ((k ≡ j) × (v ≡ w)) ⊎ Entry k v m

  pub get-Entry : (m : Dict V) (k : Str) (v : V) → get m k ≡ some v → Entry k v m
  unfolding get
  get-Entry [] k v h = absurd (none-ne-some v h)
  get-Entry ((j, w) ∷ m) k v h = elim (Bool-cases (bytes_eq j k)) [
    | inl e ↦ inl (sym ((bytes_eq_iff j k).0 e), sym (some-injective w v (sym (rw e refl) ∙ h)))
    | inr e ↦ inr (get-Entry m k v (sym (rw e refl) ∙ h))
  ]

  pub remove-Entry :
      (m : Dict V) (j k : Str) (v : V)
      → Entry k v (remove m j)
      → Entry k v m × (bytes_eq j k ≡ false)
  unfolding remove
  remove-Entry [] j k v h = absurd h
  remove-Entry ((i, w) ∷ m) j k v h = elim (Bool-cases (bytes_eq i j)) [
    | inl e ↦
        let r =
          remove-Entry m j k v
            (subst (λ b. Entry k v (if b then remove m j else (i, w) ∷ remove m j)) e h) in
        (inr r.0, r.1)
    | inr e ↦ elim (subst (λ b. Entry k v (if b then remove m j else (i, w) ∷ remove m j)) e h) [
      | inl q ↦ (inl q, ground (arith, bytes_eq_iff i j, bytes_eq_iff j k, q.0))
      | inr n ↦ let r = remove-Entry m j k v n in (inr r.0, r.1)
    ]
  ]

  pub put-Entry :
      (m : Dict V) (j k : Str) (v w : V)
      → Entry k v (put m j w)
      → ((k ≡ j) × (v ≡ w)) ⊎ (Entry k v m × (bytes_eq j k ≡ false))
  unfolding put
  put-Entry m j k v w (inl q) = inl q
  put-Entry m j k v w (inr n) = inr (remove-Entry m j k v n)
