-- ===== src/Policy/Engine/Ttl.antt =====
-- The session cap of a decision: the longest of the matching rules', where 0 is no cap at all.
use geneza.Base.{
  some, none, Option, ◌≡◌, ◌≢◌, refl, ◌⊎◌, inl, inr, true, false, arith, List, [], ◌∷◌, Str, All,
  Any,
}
use geneza.Base.Int.{ℤ, pos, ◌≤ℤ◌}
use geneza.Policy.Window.{Clock}
use geneza.Policy.Engine.{
  Rule, Doc, Input, Decision, Reason, lookup, matches, rule_decision, merge, consider,
  consider_rules, consider_role, consider_roles, denial, effective_roles, effective_now, evaluate,
  no_roles, no_rule,
}
use geneza.Policy.Engine.Merge.{Granted, rules_of, consider_cases, allow-rule_decision, allow-merge}

-- `a` caps a session no later than `b` does.
abbrev pub TtlLe : ℤ → ℤ → Type 0
TtlLe a b = (b ≡ pos 0) ⊎ ((a ≢ pos 0) × (a ≤ℤ b))

TtlLe-trans : (a b c : ℤ) → TtlLe a b → TtlLe b c → TtlLe a c
TtlLe-trans a b c p q = ground arith

TtlLe-refl : (a : ℤ) → TtlLe a a
TtlLe-refl a = ground arith

ttl-rule_decision :
    (rname : Str) (i : Input) (now : Clock) (rule : Rule)
    → (rule_decision rname i now rule).max_session_ttl ≡ rule.max_session_ttl
unfolding rule_decision
ttl-rule_decision rname i now rule = refl

-- A merge keeps one of the two caps, and the later one.
ttl-merge :
    (best d : Decision)
    → let t = (merge best d).max_session_ttl in
      ((t ≡ d.max_session_ttl) ⊎ (t ≡ best.max_session_ttl))
      × TtlLe d.max_session_ttl t
      × TtlLe best.max_session_ttl t
unfolding merge
ttl-merge best d = ground arith

module _ (doc : Doc) (i : Input) (now : Clock) where
  -- The matching rules of a list with the property: one at least, and all.
  abbrev Some : (Rule → Type 0) → List Rule → Type 0
  Some Q = Any (λ rule. (matches rule i now ≡ true) × Q rule)

  abbrev Every : (Rule → Type 0) → List Rule → Type 0
  Every Q = All (λ rule. matches rule i now ≡ true → Q rule)

  abbrev pub EveryRole : (Rule → Type 0) → List Str → Type 0
  EveryRole Q = All (λ rname. Every Q (rules_of (lookup doc.roles rname)))

  -- From `best` the decision `d` comes, whose cap is one of `best`'s and the rules', and the latest.
  record Step (best d : Decision) (S : (Rule → Type 0) → Type 0) (E : (Rule → Type 0) → Type 0)
      : Type 0 where
    source :
        (t : ℤ)
        → d.allow ≡ true
        → d.max_session_ttl ≡ t
        → ((best.allow ≡ true) × (best.max_session_ttl ≡ t)) ⊎ S (λ rule. rule.max_session_ttl ≡ t)
    latest :
        (t : ℤ)
        → (d.allow ≡ true → TtlLe d.max_session_ttl t)
        → E (λ rule. TtlLe rule.max_session_ttl t)
    kept : (t : ℤ) → best.allow ≡ true → TtlLe d.max_session_ttl t → TtlLe best.max_session_ttl t
    allowed : best.allow ≡ true → d.allow ≡ true

  consider_step :
      (rname : Str) (best : Decision) (rule : Rule)
      → Step best
          (consider rname i now best rule)
          (λ Q. (matches rule i now ≡ true) × Q rule)
          (λ Q. matches rule i now ≡ true → Q rule)
  consider_step rname best rule =
      let d = rule_decision rname i now rule in
      let cap = ttl-rule_decision rname i now rule in
      let first = allow-rule_decision rname i now rule in
      let (one, above, below) = ttl-merge best d in
      elim (consider_cases rname i now best rule) [
        | inl (miss, e) ↦ rw e (record {
          source = λ t a q. inl (a, q);
          latest = λ t h m. cc;
          kept = λ t a h. h;
          allowed = λ a. a;
        })
        | inr (inl (hit, new, e)) ↦ rw e (record {
          source = λ t a q. inr (hit, ground arith);
          latest = λ t h m. ground (arith, h first);
          kept = λ t a h. cc;
          allowed = λ a. cc;
        })
        | inr (inr (hit, old, e)) ↦ rw e (record {
          source = λ t a q. ground arith;
          latest = λ t h m. ground (
            arith,
            h (ground (arith, allow-merge best d)),
            TtlLe-trans rule.max_session_ttl (merge best d).max_session_ttl t,
          );
          kept = λ t a h. TtlLe-trans _ _ t below h;
          allowed = λ a. ground (arith, allow-merge best d);
        })
      ]

  rules_step :
      (rname : Str) (best : Decision) (rules : List Rule)
      → Step best (consider_rules rname i now best rules) (λ Q. Some Q rules) (λ Q. Every Q rules)
  unfolding consider_rules
  rules_step rname best [] = record {
    source = λ t a q. inl (a, q);
    latest = λ t h. tt;
    kept = λ t a h. h;
    allowed = λ a. a;
  }
  rules_step rname best (r ∷ rs) =
      let one = consider_step rname best r in
      let rest = rules_step rname (consider rname i now best r) rs in
      record {
        source = λ t a q. elim (rest.source t a q) [
          | inr s ↦ inr (inr s)
          | inl (mid, q') ↦ elim (one.source t mid q') [
            | inl old ↦ inl old
            | inr hit ↦ inr (inl hit)
          ]
        ];
        latest = λ t h. (one.latest t (λ a. rest.kept t a (h (rest.allowed a))), rest.latest t h);
        kept = λ t a h. one.kept t a (rest.kept t (one.allowed a) h);
        allowed = λ a. rest.allowed (one.allowed a);
      }

  role_step :
      (rname : Str) (best : Decision) (o : Option (List Rule))
      → Step best
          (consider_role rname i now best o)
          (λ Q. Some Q (rules_of o))
          (λ Q. Every Q (rules_of o))
  unfolding consider_role
  role_step rname best none = record {
    source = λ t a q. inl (a, q);
    latest = λ t h. tt;
    kept = λ t a h. h;
    allowed = λ a. a;
  }
  role_step rname best (some rules) = rules_step rname best rules

  roles_step :
      (best : Decision) (roles : List Str)
      → Step best
          (consider_roles doc i now best roles)
          (Granted doc i now roles)
          (λ Q. EveryRole Q roles)
  unfolding consider_roles
  roles_step best [] = record {
    source = λ t a q. inl (a, q);
    latest = λ t h. tt;
    kept = λ t a h. h;
    allowed = λ a. a;
  }
  roles_step best (rname ∷ more) =
      let one = role_step rname best (lookup doc.roles rname) in
      let rest = roles_step (consider_role rname i now best (lookup doc.roles rname)) more in
      record {
        source = λ t a q. elim (rest.source t a q) [
          | inr s ↦ inr (inr s)
          | inl (mid, q') ↦ elim (one.source t mid q') [
            | inl old ↦ inl old
            | inr hit ↦ inr (inl hit)
          ]
        ];
        latest = λ t h. (one.latest t (λ a. rest.kept t a (h (rest.allowed a))), rest.latest t h);
        kept = λ t a h. one.kept t a (rest.kept t (one.allowed a) h);
        allowed = λ a. rest.allowed (one.allowed a);
      }

denial_denies : (reason : Reason) → (denial reason).allow ≡ false
unfolding denial
denial_denies reason = refl

-- The cap of a decision that allows access is that of some matching rule, and no matching rule has
-- a longer one, where a cap of 0 counts as endless.
pub ttl-evaluate :
    (doc : Doc) (i : Input) (wall : Clock)
    → let d = evaluate doc i wall in
      let now = effective_now i wall in
      let roles = effective_roles doc i in
      d.allow ≡ true
      → Granted doc i now roles (λ rule. rule.max_session_ttl ≡ d.max_session_ttl)
        × EveryRole doc i now (λ rule. TtlLe rule.max_session_ttl d.max_session_ttl) roles
unfolding evaluate
ttl-evaluate doc i wall = go (effective_roles doc i) refl
  where
    now : Clock
    now = effective_now i wall

    go :
        (roles : List Str)
        → effective_roles doc i ≡ roles
        → let d = evaluate doc i wall in
          d.allow ≡ true
          → Granted doc i now
              (effective_roles doc i)
              (λ rule. rule.max_session_ttl ≡ d.max_session_ttl)
            × EveryRole doc i now
                (λ rule. TtlLe rule.max_session_ttl d.max_session_ttl)
                (effective_roles doc i)
    go [] e = rw (e, evaluate) (λ h. cc (h, denial_denies (no_roles i.user)))
    go (r ∷ rs) e =
        let why = no_rule (r ∷ rs) i.action i.node_name in
        let all = roles_step doc i now (denial why) (r ∷ rs) in
        rw (e, evaluate)
          (λ h. (
            elim (all.source _ h refl) [ inl (old, _) ↦ cc (old, denial_denies why) | inr s ↦ s ],
            all.latest _ (λ _. TtlLe-refl _),
          ))
