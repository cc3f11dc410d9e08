-- ===== src/Policy/Engine/Verdict.antt =====
-- The flags of a decision, each in terms of the rules that match.
use geneza.Base.{◌≡◌, refl, ◌↔◌, Bool, true, arith}
use geneza.Policy.Window.{Clock}
use geneza.Policy.Engine.{
  Rule, Doc, Input, unless_false, read_only_now, rule_decision, merge, denial, effective_roles,
  effective_now, evaluate,
}
use geneza.Policy.Engine.Merge.{Granted, IsFlag, evaluate_flag}

allow-IsFlag : IsFlag (λ d. d.allow) (λ _ _. true)
unfolding rule_decision merge
allow-IsFlag = record { single = λ _ _ _ _. refl; merged = λ _ _ _ _ best h. h }

detach-IsFlag : IsFlag (λ d. d.allow_detach) (λ _ rule. unless_false rule.allow_detach)
unfolding rule_decision merge
detach-IsFlag = record {
  single = λ _ _ _ _. refl;
  merged = λ rname i now rule best h. ground arith;
}

recorded-IsFlag : IsFlag (λ d. d.recorded) (λ _ rule. unless_false rule.recorded)
unfolding rule_decision merge
recorded-IsFlag = record {
  single = λ _ _ _ _. refl;
  merged = λ rname i now rule best h. ground arith;
}

read_only-IsFlag : IsFlag (λ d. d.read_only) (λ now rule. read_only_now rule now)
unfolding rule_decision merge
read_only-IsFlag = record {
  single = λ _ _ _ _. refl;
  merged = λ rname i now rule best h. ground arith;
}

presence-IsFlag : IsFlag (λ d. d.require_presence) (λ _ rule. rule.require_presence)
unfolding rule_decision merge
presence-IsFlag = record {
  single = λ _ _ _ _. refl;
  merged = λ rname i now rule best h. ground arith;
}

-- A rule of an effective role matches the request and passes the test.
abbrev pub SomeRule : Doc → Input → Clock → (Rule → Bool) → Type 0
SomeRule doc i now test = Granted doc i now (effective_roles doc i) (λ rule. test rule ≡ true)

-- Access is allowed exactly when some rule of an effective role matches. Detaching and recording
-- are granted if any matching rule grants them, and read-only and presence are imposed if any
-- matching rule imposes them: no other rule, and no order of the rules, can undo either.
pub evaluate_flags :
    (doc : Doc) (i : Input) (wall : Clock)
    → let d = evaluate doc i wall in
      let now = effective_now i wall in
      ((d.allow ≡ true) ↔ SomeRule doc i now (λ _. true))
      × ((d.allow_detach ≡ true) ↔ SomeRule doc i now (λ rule. unless_false rule.allow_detach))
      × ((d.recorded ≡ true) ↔ SomeRule doc i now (λ rule. unless_false rule.recorded))
      × ((d.read_only ≡ true) ↔ SomeRule doc i now (λ rule. read_only_now rule now))
      × ((d.require_presence ≡ true) ↔ SomeRule doc i now (λ rule. rule.require_presence))
unfolding denial
evaluate_flags doc i wall = (
  evaluate_flag (λ d. d.allow) (λ _ _. true) allow-IsFlag (λ _. refl) doc i wall,
  evaluate_flag (λ d. d.allow_detach) _ detach-IsFlag (λ _. refl) doc i wall,
  evaluate_flag (λ d. d.recorded) _ recorded-IsFlag (λ _. refl) doc i wall,
  evaluate_flag (λ d. d.read_only) _ read_only-IsFlag (λ _. refl) doc i wall,
  evaluate_flag (λ d. d.require_presence) _ presence-IsFlag (λ _. refl) doc i wall,
)
