-- ===== src/Policy/Engine/Roles.antt =====
-- Static.RolesFor and the binding check of Parse.
use geneza.Base.{
  ◌≡◌, sym, subst, ◌↔◌, ◌⊎◌, inl, inr, true, not, ◌&&◌, some, List, [], ◌∷◌, ◌++◌, arith, Str,
  bytes_eq, bytes_eq_iff, Any, In, In-snoc, Distinct, Distinct-snoc, any_iff, Any-mono, Bool-cases,
  if◌then◌else◌,
}
use geneza.Policy.Engine.Sorting.{IsSorted, In-sort_strings, sort_strings-IsSorted}
use geneza.Policy.Engine.{
  Binding, Doc, contains_str, is_some, lookup, parse_check, parse, binding_matches, bound_roles,
  roles_for,
}

contains_str_iff : (xs : List Str) (v : Str) → (contains_str xs v ≡ true) ↔ In v xs
unfolding contains_str
contains_str_iff [] v = ground arith
contains_str_iff (x ∷ xs) v =
    let head = bytes_eq_iff x v in
    (
      λ h. elim (Bool-cases (bytes_eq x v)) [
        | inl e ↦ inl (sym (head.0 e))
        | inr e ↦ inr ((contains_str_iff xs v).0 (ground arith))
      ],
      λ h. elim h [
        | inl e ↦ ground (arith, head.1 (sym e))
        | inr m ↦ ground (arith, (contains_str_iff xs v).1 m)
      ],
    )

-- A binding holds for a user that it names and for a member of a group that it names.
abbrev pub Binds : Str → List Str → Binding → Type 0
Binds user groups b = In user b.users ⊎ Any (λ g. In g groups) b.groups

binding_matches_iff :
    (b : Binding) (user : Str) (groups : List Str)
    → (binding_matches b user groups ≡ true) ↔ Binds user groups b
unfolding binding_matches
binding_matches_iff b user groups =
    let named = contains_str_iff b.users user in
    let grouped = any_iff (contains_str groups) b.groups in
    (
      λ h. elim (Bool-cases (contains_str b.users user)) [
        | inl e ↦ inl (named.0 e)
        | inr e ↦
            inr (Any-mono (λ g. (contains_str_iff groups g).0) b.groups (grouped.0 (ground arith)))
      ],
      λ h. elim h [
        | inl m ↦ ground (arith, named.1 m)
        | inr m ↦
            ground (arith, grouped.1 (Any-mono (λ g. (contains_str_iff groups g).1) b.groups m))
      ],
    )

-- A binding of the list gives the role.
abbrev pub Bound : List Binding → Str → List Str → Str → Type 0
Bound bs user groups r = Any (λ b. (b.role ≡ r) × Binds user groups b) bs

module _ (user : Str) (groups : List Str) where
  abbrev next_roles : Binding → List Str → List Str
  next_roles b roles =
      if binding_matches b user groups && not (contains_str roles b.role)
      then roles ++ b.role ∷ []
      else roles

  next_roles_iff :
      (b : Binding) (roles : List Str) (r : Str)
      → In r (next_roles b roles) ↔ (In r roles ⊎ ((b.role ≡ r) × Binds user groups b))
  next_roles_iff b roles r =
      let binds = binding_matches_iff b user groups in
      let held = contains_str_iff roles b.role in
      let longer = In-snoc r b.role roles in
      elim (Bool-cases (binding_matches b user groups)) [
        | inr e ↦ rw e (λ h. inl h, λ h. elim h [ inl m ↦ m | inr p ↦ cc (e, binds.1 p.1) ])
        | inl e ↦ elim (Bool-cases (contains_str roles b.role)) [
          | inl old ↦
              rw (e, old)
                (
                  λ h. inl h,
                  λ h. elim h [ inl m ↦ m | inr p ↦ subst (λ x. In x roles) p.0 (held.0 old) ],
                )
          | inr new ↦
              rw (e, new)
                (
                  λ h. elim (longer.0 h) [ inl m ↦ inl m | inr q ↦ inr (sym q, binds.0 e) ],
                  λ h. elim h [ inl m ↦ longer.1 (inl m) | inr p ↦ longer.1 (inr (sym p.0)) ],
                )
        ]
      ]

  Distinct-next_roles :
      (b : Binding) (roles : List Str) → Distinct roles → Distinct (next_roles b roles)
  Distinct-next_roles b roles d =
      elim (Bool-cases (binding_matches b user groups && not (contains_str roles b.role))) [
        | inr e ↦ rw e d
        | inl e ↦ rw e (
            Distinct-snoc roles b.role d (λ m. ground (arith, (contains_str_iff roles b.role).1 m)))
      ]

  bound_roles_iff :
      (bs : List Binding) (roles : List Str) (r : Str)
      → In r (bound_roles bs user groups roles) ↔ (In r roles ⊎ Bound bs user groups r)
  unfolding bound_roles
  bound_roles_iff [] roles r = (λ m. inl m, λ h. elim h [ inl m ↦ m | inr n ↦ absurd n ])
  bound_roles_iff (b ∷ bs) roles r =
      let ih = bound_roles_iff bs (next_roles b roles) r in
      let one = next_roles_iff b roles r in
      (
        λ m. elim (ih.0 m) [
          | inr k ↦ inr (inr k)
          | inl k ↦ elim (one.0 k) [ inl o ↦ inl o | inr p ↦ inr (inl p) ]
        ],
        λ h. elim h [
          | inl m ↦ ih.1 (inl (one.1 (inl m)))
          | inr k ↦ elim k [ inl p ↦ ih.1 (inl (one.1 (inr p))) | inr q ↦ ih.1 (inr q) ]
        ],
      )

  Distinct-bound_roles :
      (bs : List Binding) (roles : List Str)
      → Distinct roles
      → Distinct (bound_roles bs user groups roles)
  unfolding bound_roles
  Distinct-bound_roles [] roles d = d
  Distinct-bound_roles (b ∷ bs) roles d =
      Distinct-bound_roles bs (next_roles b roles) (Distinct-next_roles b roles d)

-- The roles of a principal are exactly those of the bindings that name the user or one of the
-- groups, in bytewise order and each once.
pub roles_for_iff :
    (doc : Doc) (user : Str) (groups : List Str)
    → ((r : Str) → In r (roles_for doc user groups) ↔ Bound doc.bindings user groups r)
      × IsSorted (roles_for doc user groups)
unfolding roles_for
roles_for_iff doc user groups =
    let found = bound_roles doc.bindings user groups [] in
    (
      λ r.
          let sorted = In-sort_strings r found in
          let bound = bound_roles_iff user groups doc.bindings [] r in
          (
            λ m. elim (bound.0 (sorted.0 m)) [ inl n ↦ absurd n | inr b ↦ b ],
            λ b. sorted.1 (bound.1 (inr b)),
          ),
      sort_strings-IsSorted found (Distinct-bound_roles user groups doc.bindings [] tt),
    )

parse_check_sound :
    (doc : Doc) (bs : List Binding) (user : Str) (groups : List Str) (r : Str)
    → parse_check doc bs ≡ true
    → Bound bs user groups r
    → is_some (lookup doc.roles r) ≡ true
unfolding parse_check
parse_check_sound doc [] user groups r h m = absurd m
parse_check_sound doc (b ∷ bs) user groups r h (inl m) =
    subst (λ x. is_some (lookup doc.roles x) ≡ true) m.0 (ground arith)
parse_check_sound doc (b ∷ bs) user groups r h (inr m) =
    parse_check_sound doc bs user groups r (ground arith) m

-- In a document that Parse accepts, every role that a binding can give a principal is defined, so
-- evaluation by bindings skips no role.
pub roles_for-defined :
    (doc accepted : Doc) (user : Str) (groups : List Str) (r : Str)
    → parse doc ≡ some accepted
    → In r (roles_for accepted user groups)
    → is_some (lookup accepted.roles r) ≡ true
unfolding parse
roles_for-defined doc accepted user groups r h m =
    let checked : (parse_check doc doc.bindings ≡ true) × (doc ≡ accepted) = ground arith in
    parse_check_sound accepted accepted.bindings user groups r
      (subst (λ (d : Doc). parse_check d d.bindings ≡ true) checked.1 checked.0)
      (((roles_for_iff accepted user groups).0 r).0 m)
