-- ===== src/Policy/Engine/Examples.antt =====
-- One document, and a request that it decides.
use geneza.Base.{bytes_eq, any, ◌≡◌, refl, true, false, none, some, [], ◌∷◌, bytes, ◌↔◌}
use geneza.Base.Int.{pos}
use geneza.Policy.Window.{Clock, friday}
use geneza.Policy.Engine.{
  action_ok, labels_match, Rule, Doc, Input, evaluate, effective_now, effective_roles, unless_false,
  read_only_now,
}
use geneza.Policy.Engine.Merge.{Granted}
use geneza.Policy.Engine.Verdict.{SomeRule, evaluate_flags}
use geneza.Policy.Engine.Ttl.{ttl-evaluate, EveryRole, TtlLe}

abbrev noon : Clock
noon = record { weekday = friday; hour = 12; minute = 0 }

abbrev shell_rule : Rule
shell_rule = record {
  actions = bytes "shell" ∷ [];
  services = [];
  service_kinds = [];
  service_labels = [];
  node_labels = (bytes "env", bytes "dev") ∷ [];
  time_window = none;
  max_session_ttl = pos 3600;
  allow_detach = some false;
  recorded = none;
  read_only = true;
  read_only_time_window = none;
  require_presence = false;
  require_native = false;
}

abbrev two_roles : Doc
two_roles = record {
  roles = (bytes "ops", shell_rule ∷ []) ∷ (bytes "dev", []) ∷ [];
  bindings =
      record { role = bytes "ops"; users = bytes "ann" ∷ []; groups = [] }
      ∷ record { role = bytes "dev"; users = []; groups = bytes "all" ∷ [] }
      ∷ [];
}

abbrev ann_shell : Input
ann_shell = record {
  user = bytes "ann";
  groups = bytes "all" ∷ [];
  roles = [];
  node_name = bytes "n1";
  node_labels = (bytes "env", bytes "dev") ∷ [];
  action = bytes "shell";
  client_path = [];
  service = [];
  service_kind = [];
  service_labels = [];
  now = none;
}

evaluate_flags_example :
    let d = evaluate two_roles ann_shell noon in
    let now = effective_now ann_shell noon in
    ((d.allow ≡ true) ↔ SomeRule two_roles ann_shell now (λ _. true))
    × ((d.allow_detach ≡ true)
        ↔ SomeRule two_roles ann_shell now (λ rule. unless_false rule.allow_detach))
    × ((d.recorded ≡ true) ↔ SomeRule two_roles ann_shell now (λ rule. unless_false rule.recorded))
    × ((d.read_only ≡ true) ↔ SomeRule two_roles ann_shell now (λ rule. read_only_now rule now))
    × ((d.require_presence ≡ true)
        ↔ SomeRule two_roles ann_shell now (λ rule. rule.require_presence))
evaluate_flags_example = evaluate_flags two_roles ann_shell noon

ttl-evaluate_ann :
    let d = evaluate two_roles ann_shell noon in
    let now = effective_now ann_shell noon in
    let roles = effective_roles two_roles ann_shell in
    Granted two_roles ann_shell now roles (λ rule. rule.max_session_ttl ≡ d.max_session_ttl)
    × EveryRole two_roles ann_shell now (λ rule. TtlLe rule.max_session_ttl d.max_session_ttl) roles
unfolding evaluate any bytes_eq action_ok labels_match
ttl-evaluate_ann = ttl-evaluate two_roles ann_shell noon refl
