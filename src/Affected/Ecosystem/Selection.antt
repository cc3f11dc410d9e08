-- ===== src/Affected/Ecosystem/Selection.antt =====
-- internal/affected/ecosystem.go: the index key of an ecosystem against the test that selects an entry.
use geneza.Base.{
  ◌≡◌, true, false, [], ◌∷◌, Str, equal_fold, Bool-cases, inl, inr, equal_fold-append,
  equal_fold_refl, arith,
}
use geneza.Affected.Ecosystem.{
  EcosystemParts, is_empty, parse_ecosystem, key, ecosystem_key, ecosystem_applies,
}

key-fold :
    (a c : EcosystemParts)
    → equal_fold a.family c.family ≡ true
    → is_empty a.release ≡ is_empty c.release
    → (is_empty a.release ≡ false → equal_fold a.release c.release ≡ true)
    → equal_fold (key a) (key c) ≡ true
unfolding key
key-fold a c f r e = elim (Bool-cases (is_empty a.release)) [
  | inl h ↦ ground (arith, h, r, f)
  | inr h ↦
      let folded = equal_fold-append a.family c.family (b':' ∷ a.release) (b':' ∷ c.release) f (
        equal_fold-append (b':' ∷ []) (b':' ∷ []) a.release c.release (equal_fold_refl (b':' ∷ []))
          (e h)) in
      ground (arith, h, r, folded)
]

-- An entry that applies to a component is found under the component's key, but for case, if it names an
-- ecosystem and both or neither are scoped to a release: the coarse key never hides an entry that
-- the precise test would select.
pub ecosystem_applies-key :
    (advisory component : Str)
    → is_empty advisory ≡ false
    → is_empty (parse_ecosystem advisory).release ≡ is_empty (parse_ecosystem component).release
    → ecosystem_applies advisory component ≡ true
    → equal_fold (ecosystem_key advisory) (ecosystem_key component) ≡ true
unfolding ecosystem_applies ecosystem_key
ecosystem_applies-key advisory component named r applies =
    let a = parse_ecosystem advisory in
    let c = parse_ecosystem component in
    key-fold a c (ground (arith, named, applies)) r (λ scoped. ground (arith, named, applies, r))
