-- ===== src/Base/Counting.antt =====
-- Lists without repetition, and how many entries they can have.
use Prim.Native.Nat.{suc, ◌≤◌}
use mathlib.Core.Path.{◌≡◌, refl, sym, subst, ◌∙◌, ap}
use mathlib.Core.Logic.{◌⊎◌, inl, inr, ◌↔◌}
use mathlib.Core.List.{List, [], ◌∷◌, ◌++◌}
use native.Mathlib.Omega.{arith}
use geneza.Base.Lists.{length}
use geneza.Base.Predicates.{In}

module _ {A : Type 0} where
  abbrev pub Distinct : List A → Type 0
  Distinct [] = Unit
  Distinct (x ∷ xs) = ¬ In x xs × Distinct xs

  pub In-append : (a : A) (xs ys : List A) → In a (xs ++ ys) ↔ (In a xs ⊎ In a ys)
  In-append a [] ys = (λ h. inr h, λ h. elim h [ inl n ↦ absurd n | inr m ↦ m ])
  In-append a (x ∷ xs) ys =
      let ih = In-append a xs ys in
      (
        λ h. elim h [
          | inl e ↦ inl (inl e)
          | inr m ↦ elim (ih.0 m) [ inl k ↦ inl (inr k) | inr k ↦ inr k ]
        ],
        λ h. elim h [
          | inl m ↦ elim m [ inl e ↦ inl e | inr k ↦ inr (ih.1 (inl k)) ]
          | inr k ↦ inr (ih.1 (inr k))
        ],
      )

  pub In-snoc : (a x : A) (xs : List A) → In a (xs ++ x ∷ []) ↔ (In a xs ⊎ (a ≡ x))
  In-snoc a x xs =
      let whole = In-append a xs (x ∷ []) in
      (
        λ h. elim (whole.0 h) [
          | inl m ↦ inl m
          | inr k ↦ elim k [ inl e ↦ inr e | inr n ↦ absurd n ]
        ],
        λ h. elim h [ inl m ↦ whole.1 (inl m) | inr e ↦ whole.1 (inr (inl e)) ],
      )

  pub Distinct-snoc : (xs : List A) (x : A) → Distinct xs → ¬ In x xs → Distinct (xs ++ x ∷ [])
  Distinct-snoc [] x d n = (λ m. m, tt)
  Distinct-snoc (y ∷ xs) x d n = (
    λ m. elim ((In-snoc y x xs).0 m) [ inl k ↦ d.0 k | inr e ↦ n (inl (sym e)) ],
    Distinct-snoc xs x d.1 (λ m. n (inr m)),
  )

  pub Distinct-append :
      (xs ys : List A)
      → Distinct xs
      → Distinct ys
      → ((a : A) → In a xs → ¬ In a ys)
      → Distinct (xs ++ ys)
  Distinct-append [] ys dx dy apart = dy
  Distinct-append (x ∷ xs) ys (new, dx) dy apart = (
    λ m. elim ((In-append x xs ys).0 m) [ inl k ↦ new k | inr k ↦ apart x (inl refl) k ],
    Distinct-append xs ys dx dy (λ s m. apart s (inr m)),
  )

  -- An entry can be taken out, and the others stay.
  take_out :
      (a : A) (ys : List A)
      → In a ys
      → (rest : List A) × (length ys ≡ suc (length rest))
        × ((b : A) → In b ys → (b ≡ a) ⊎ In b rest)
  take_out a [] m = absurd m
  take_out a (y ∷ ys) (inl e) =
      (ys, refl, λ b k. elim k [ inl q ↦ inl (q ∙ sym e) | inr r ↦ inr r ])
  take_out a (y ∷ ys) (inr m) =
      let (rest, size, others) = take_out a ys m in
      (
        y ∷ rest,
        ap suc size,
        λ b k. elim k [
          | inl q ↦ inr (inl q)
          | inr r ↦ elim (others b r) [ inl q ↦ inl q | inr s ↦ inr (inr s) ]
        ],
      )

  -- Distinct entries that all occur in a list are no more than it has.
  pub length-Distinct :
      (xs ys : List A) → Distinct xs → ((a : A) → In a xs → In a ys) → length xs ≤ length ys
  length-Distinct [] ys d sub = omega arith
  length-Distinct (x ∷ xs) ys d sub =
      let (rest, size, others) = take_out x ys (sub x (inl refl)) in
      let fewer = length-Distinct xs rest d.1 (λ b m. elim (others b (sub b (inr m))) [
        | inl e ↦ absurd (d.0 (subst (λ k. In k xs) e m))
        | inr k ↦ k
      ]) in
      omega arith
