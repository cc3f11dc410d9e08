-- ===== src/Policy/Engine/Sorting.antt =====
-- sort.Strings on the roles: the bytewise order, and a list in it.
use geneza.Base.{
  ◌≡◌, ◌≢◌, refl, sym, ◌↔◌, ◌⊎◌, inl, inr, true, false, List, [], ◌∷◌, arith, Str, All, In,
  Distinct, Bool-cases,
}
use geneza.Policy.Engine.{str_le, insert_sorted, sort_strings}

str_le_refl : (s : Str) → str_le s s ≡ true
unfolding str_le
str_le_refl [] = refl
str_le_refl (a ∷ s) = ground (arith, str_le_refl s)

str_le-total : (s t : Str) → str_le s t ≡ false → str_le t s ≡ true
unfolding str_le
str_le-total [] t h = cc
str_le-total (a ∷ s) [] h = refl
str_le-total (a ∷ s) (b ∷ t) h = ground (arith, str_le-total s t)

str_le_trans : (s t u : Str) → str_le s t ≡ true → str_le t u ≡ true → str_le s u ≡ true
unfolding str_le
str_le_trans [] t u h k = refl
str_le_trans (a ∷ s) [] u h k = cc
str_le_trans (a ∷ s) (b ∷ t) [] h k = cc
str_le_trans (a ∷ s) (b ∷ t) (c ∷ u) h k = ground (arith, str_le_trans s t u)

-- Each text is before all that follow, and differs from them.
abbrev pub IsSorted : List Str → Type 0
IsSorted [] = Unit
IsSorted (s ∷ ts) = All (λ t. (str_le s t ≡ true) × (s ≢ t)) ts × IsSorted ts

In-insert_sorted : (r s : Str) (ts : List Str) → In r (insert_sorted s ts) ↔ ((r ≡ s) ⊎ In r ts)
unfolding insert_sorted
In-insert_sorted r s [] = (λ h. h, λ h. h)
In-insert_sorted r s (t ∷ ts) =
    let ih = In-insert_sorted r s ts in
    elim (Bool-cases (str_le s t)) [
      | inl e ↦ rw e (λ h. h, λ h. h)
      | inr e ↦ rw e (
        λ h. elim h [
          | inl a ↦ inr (inl a)
          | inr m ↦ elim (ih.0 m) [ inl a ↦ inl a | inr k ↦ inr (inr k) ]
        ],
        λ h. elim h [
          | inl a ↦ inr (ih.1 (inl a))
          | inr m ↦ elim m [ inl a ↦ inl a | inr k ↦ inr (ih.1 (inr k)) ]
        ],
      )
    ]

All-insert_sorted :
    (P : Str → Type 0) (s : Str) (ts : List Str) → P s → All P ts → All P (insert_sorted s ts)
unfolding insert_sorted
All-insert_sorted P s [] p h = (p, tt)
All-insert_sorted P s (t ∷ ts) p h = elim (Bool-cases (str_le s t)) [
  | inl e ↦ rw e (p, h)
  | inr e ↦ rw e (h.0, All-insert_sorted P s ts p h.1)
]

-- What `t` is before, `s` is before too.
below-All :
    (s t : Str) (us : List Str)
    → str_le s t ≡ true
    → ¬ In s us
    → All (λ u. (str_le t u ≡ true) × (t ≢ u)) us
    → All (λ u. (str_le s u ≡ true) × (s ≢ u)) us
below-All s t [] h n a = tt
below-All s t (u ∷ us) h n a =
    ((str_le_trans s t u h a.0.0, λ e. n (inl e)), below-All s t us h (λ m. n (inr m)) a.1)

IsSorted-insert_sorted :
    (s : Str) (ts : List Str) → ¬ In s ts → IsSorted ts → IsSorted (insert_sorted s ts)
unfolding insert_sorted
IsSorted-insert_sorted s [] n h = (tt, tt)
IsSorted-insert_sorted s (t ∷ ts) n h = elim (Bool-cases (str_le s t)) [
  | inl e ↦ rw e ((((e, λ q. n (inl q)), below-All s t ts e (λ m. n (inr m)) h.0), h))
  | inr e ↦ rw e (
    All-insert_sorted _ s ts (str_le-total s t e, λ q. n (inl (sym q))) h.0,
    IsSorted-insert_sorted s ts (λ m. n (inr m)) h.1,
  )
]

pub In-sort_strings : (r : Str) (xs : List Str) → In r (sort_strings xs) ↔ In r xs
unfolding sort_strings
In-sort_strings r [] = (λ h. h, λ h. h)
In-sort_strings r (x ∷ xs) =
    let ih = In-sort_strings r xs in
    let one = In-insert_sorted r x (sort_strings xs) in
    (
      λ h. elim (one.0 h) [ inl e ↦ inl e | inr m ↦ inr (ih.0 m) ],
      λ h. elim h [ inl e ↦ one.1 (inl e) | inr m ↦ one.1 (inr (ih.1 m)) ],
    )

pub sort_strings-IsSorted : (xs : List Str) → Distinct xs → IsSorted (sort_strings xs)
unfolding sort_strings
sort_strings-IsSorted [] d = tt
sort_strings-IsSorted (x ∷ xs) d =
    IsSorted-insert_sorted x (sort_strings xs) (λ m. d.0 ((In-sort_strings x xs).0 m))
      (sort_strings-IsSorted xs d.1)
