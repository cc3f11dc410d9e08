-- ===== src/Policy/Engine/Merge.antt =====
-- What Static.Evaluate makes of the matching rules, whatever their order.
use geneza.Base.{
  ◌≡◌, refl, ◌↔◌, ◌⊎◌, inl, inr, Bool, true, false, ◌||◌, Option, none, some, List, [], ◌∷◌, arith,
  Str, Any, Bool-cases,
}
use geneza.Policy.Window.{Clock}
use geneza.Policy.Engine.{
  Rule, Doc, Input, Decision, Reason, no_roles, no_rule, lookup, matches, rule_decision, merge,
  consider, consider_rules, consider_role, consider_roles, denial, effective_roles, effective_now,
  evaluate,
}

abbrev pub rules_of : Option (List Rule) → List Rule
rules_of none = []
rules_of (some rules) = rules

-- Some role of the list, as the document defines it, has a matching rule with the property.
abbrev pub Granted : Doc → Input → Clock → List Str → (Rule → Type 0) → Type 0
Granted doc i now roles Q =
    Any
      (λ rname.
        Any (λ rule. (matches rule i now ≡ true) × Q rule) (rules_of (lookup doc.roles rname)))
      roles

-- One flag of the decision, and the test of a rule that sets it.
pub record IsFlag (field : Decision → Bool) (test : Clock → Rule → Bool) : Type 0 where
  pub single :
      (rname : Str) (i : Input) (now : Clock) (rule : Rule)
      → field (rule_decision rname i now rule) ≡ test now rule
  pub merged :
      (rname : Str) (i : Input) (now : Clock) (rule : Rule) (best : Decision)
      → best.allow ≡ true
      → field (merge best (rule_decision rname i now rule)) ≡ (test now rule || field best)

-- A round leaves the best decision, takes the rule's for the first, or merges the two.
pub consider_cases :
    (rname : Str) (i : Input) (now : Clock) (best : Decision) (rule : Rule)
    → let d = rule_decision rname i now rule in
      ((matches rule i now ≡ false) × (consider rname i now best rule ≡ best))
      ⊎ ((matches rule i now ≡ true) × (best.allow ≡ false) × (consider rname i now best rule ≡ d))
      ⊎ ((matches rule i now ≡ true)
          × (best.allow ≡ true)
          × (consider rname i now best rule ≡ merge best d))
unfolding consider
consider_cases rname i now best rule = elim (Bool-cases (matches rule i now)) [
  | inr miss ↦ inl (miss, rw (miss, consider) refl)
  | inl hit ↦ elim (Bool-cases best.allow) [
    | inr new ↦ inr (inl (hit, new, rw (hit, new) refl))
    | inl old ↦ inr (inr (hit, old, rw (hit, old) refl))
  ]
]

pub allow-rule_decision :
    (rname : Str) (i : Input) (now : Clock) (rule : Rule)
    → (rule_decision rname i now rule).allow ≡ true
unfolding rule_decision
allow-rule_decision rname i now rule = refl

pub allow-merge : (best d : Decision) → (merge best d).allow ≡ best.allow
unfolding merge
allow-merge best d = refl

module _ (field : Decision → Bool) (test : Clock → Rule → Bool) (flag : IsFlag field test)
    (doc : Doc) (i : Input) (now : Clock) where
  abbrev IsFresh : Decision → Type 0
  IsFresh best = best.allow ≡ false → field best ≡ false

  abbrev Hit : Rule → Type 0
  Hit rule = (matches rule i now ≡ true) × (test now rule ≡ true)

  abbrev Sets : Decision → Decision → Type 0 → Type 0
  Sets best d P = ((field d ≡ true) ↔ ((field best ≡ true) ⊎ P)) × IsFresh d

  consider_flag :
      (rname : Str) (best : Decision) (rule : Rule)
      → IsFresh best
      → Sets best (consider rname i now best rule) (Hit rule)
  consider_flag rname best rule fresh =
      let single = flag.single rname i now rule in
      let merged = flag.merged rname i now rule best in
      let first = allow-rule_decision rname i now rule in
      let later = allow-merge best (rule_decision rname i now rule) in
      elim (consider_cases rname i now best rule) [
        | inl (miss, e) ↦ rw e (ground arith, fresh)
        | inr (inl (hit, new, e)) ↦ rw e (ground (arith, fresh new), ground arith)
        | inr (inr (hit, old, e)) ↦ rw e (ground (arith, merged old), ground (arith, merged old))
      ]

  rules_flag :
      (rname : Str) (best : Decision) (rules : List Rule)
      → IsFresh best
      → Sets best (consider_rules rname i now best rules) (Any Hit rules)
  unfolding consider_rules
  rules_flag rname best [] fresh = (ground arith, fresh)
  rules_flag rname best (r ∷ rs) fresh =
      let (one, fresh') = consider_flag rname best r fresh in
      let (rest, fresh'') = rules_flag rname (consider rname i now best r) rs fresh' in
      (ground arith, fresh'')

  role_flag :
      (rname : Str) (best : Decision) (o : Option (List Rule))
      → IsFresh best
      → Sets best (consider_role rname i now best o) (Any Hit (rules_of o))
  unfolding consider_role
  role_flag rname best none fresh = (ground arith, fresh)
  role_flag rname best (some rules) fresh = rules_flag rname best rules fresh

  roles_flag :
      (best : Decision) (roles : List Str)
      → IsFresh best
      → Sets best
          (consider_roles doc i now best roles)
          (Granted doc i now roles (λ rule. test now rule ≡ true))
  unfolding consider_roles
  roles_flag best [] fresh = (ground arith, fresh)
  roles_flag best (rname ∷ rest) fresh =
      let found = lookup doc.roles rname in
      let (here, fresh') = role_flag rname best found fresh in
      let (later, fresh'') = roles_flag (consider_role rname i now best found) rest fresh' in
      (ground arith, fresh'')

abbrev pub NeverStart : (Decision → Bool) → Type 0
NeverStart field = (reason : Reason) → field (denial reason) ≡ false

pub evaluate_flag :
    (field : Decision → Bool) (test : Clock → Rule → Bool)
    → IsFlag field test
    → NeverStart field
    → (doc : Doc) (i : Input) (wall : Clock)
    → let now = effective_now i wall in
      (field (evaluate doc i wall) ≡ true)
      ↔ Granted doc i now (effective_roles doc i) (λ rule. test now rule ≡ true)
unfolding evaluate
evaluate_flag field test flag start doc i wall = go (effective_roles doc i) refl
  where
    now : Clock
    now = effective_now i wall

    go :
        (roles : List Str)
        → effective_roles doc i ≡ roles
        → (field (evaluate doc i wall) ≡ true)
          ↔ Granted doc i now (effective_roles doc i) (λ rule. test now rule ≡ true)
    go [] e = rw (e, evaluate) (ground (arith, start (no_roles i.user)))
    go (r ∷ rs) e =
        let why = no_rule (r ∷ rs) i.action i.node_name in
        let all = roles_flag field test flag doc i now (denial why) (r ∷ rs) (λ _. start why) in
        rw (e, evaluate) (ground (arith, start why, all.0.0, all.0.1))
