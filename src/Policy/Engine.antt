-- ===== src/Policy/Engine.antt =====
-- The policy document and the static engine of internal/policy/policy.go.
-- A map is an association list, read by its first entry of a key. The texts of a Reason are data.
pub mod Matching
pub mod Merge
pub mod Verdict
pub mod Ttl
pub mod Sorting
pub mod Roles
mod Examples
use geneza.Base.{
  ℕ, Bool, true, false, not, ◌&&◌, ◌||◌, Option, none, some, List, [], ◌∷◌, ◌++◌, ltb,
  if◌then◌else◌, length, any, Str, bytes, bytes_eq,
}
use geneza.Base.Int.{ℤ, pos, ltb_ℤ, eqb_ℤ}
use geneza.Policy.Window.{Clock, TimeWindow, contains}

abbrev pub Labels : Type 0
Labels = List (Str × Str)

-- A time.Duration is a number of nanoseconds; 0 in max_session_ttl is no cap.
pub record Rule : Type 0 where
  pub actions : List Str
  pub services : List Str
  pub service_kinds : List Str
  pub service_labels : Labels
  pub node_labels : Labels
  pub time_window : Option TimeWindow
  pub max_session_ttl : ℤ
  pub allow_detach : Option Bool
  pub recorded : Option Bool
  pub read_only : Bool
  pub read_only_time_window : Option TimeWindow
  pub require_presence : Bool
  pub require_native : Bool

pub record Binding : Type 0 where
  pub role : Str
  pub users : List Str
  pub groups : List Str

pub record Doc : Type 0 where
  pub roles : List (Str × List Rule)
  pub bindings : List Binding

-- `now` is none for the zero time.
pub record Input : Type 0 where
  pub user : Str
  pub groups : List Str
  pub roles : List Str
  pub node_name : Str
  pub node_labels : Labels
  pub action : Str
  pub client_path : Str
  pub service : Str
  pub service_kind : Str
  pub service_labels : Labels
  pub now : Option Clock

pub data Reason : Type 0 where
  no_roles : Str → Reason
  no_rule : List Str → Str → Str → Reason
  role_allows : Str → Str → Str → Reason

pub record Decision : Type 0 where
  pub allow : Bool
  pub reason : Reason
  pub matched_role : Str
  pub max_session_ttl : ℤ
  pub allow_detach : Bool
  pub recorded : Bool
  pub read_only : Bool
  pub require_presence : Bool

unfoldable pub contains_str : List Str → Str → Bool
contains_str [] v = false
contains_str (x ∷ xs) v = bytes_eq x v || contains_str xs v

-- `p == nil || *p`
abbrev pub unless_false : Option Bool → Bool
unless_false none = true
unless_false (some b) = b

pub records : Doc → Bool
records doc =
    any (λ (r : Str × List Rule). any (λ (rule : Rule). unless_false rule.recorded) r.1) doc.roles

unfoldable pub lookup {ℓ} : {V : Type ℓ} → List (Str × V) → Str → Option V
lookup [] k = none
lookup ((j, v) ∷ m) k = if bytes_eq j k then some v else lookup m k

abbrev pub is_some {ℓ} : {A : Type ℓ} → Option A → Bool
is_some none = false
is_some (some a) = true

-- The check of Parse, on the decoded document.
pub parse_check : Doc → List Binding → Bool
unfolding lookup
parse_check doc [] = true
parse_check doc (b ∷ bs) = is_some (lookup doc.roles b.role) && parse_check doc bs

pub parse : Doc → Option Doc
unfolding parse_check
parse doc = if parse_check doc doc.bindings then some doc else none

pub binding_matches : Binding → Str → List Str → Bool
binding_matches b user groups = contains_str b.users user || any (contains_str groups) b.groups

bound_roles : List Binding → Str → List Str → List Str → List Str
unfolding binding_matches contains_str
bound_roles [] user groups roles = roles
bound_roles (b ∷ bs) user groups roles = bound_roles bs user groups (
    if binding_matches b user groups && not (contains_str roles b.role)
    then roles ++ b.role ∷ []
    else roles)

-- The order of Go's strings, by bytes.
unfoldable pub str_le : Str → Str → Bool
str_le [] t = true
str_le (a ∷ s) [] = false
str_le (a ∷ s) (b ∷ t) = ltb a b || not (ltb b a) && str_le s t

insert_sorted : Str → List Str → List Str
insert_sorted s [] = s ∷ []
insert_sorted s (t ∷ ts) = if str_le s t then s ∷ t ∷ ts else t ∷ insert_sorted s ts

-- sort.Strings
unfoldable pub sort_strings : List Str → List Str
unfolding insert_sorted str_le
sort_strings [] = []
sort_strings (s ∷ ts) = insert_sorted s (sort_strings ts)

pub roles_for : Doc → Str → List Str → List Str
unfolding bound_roles sort_strings
roles_for doc user groups = sort_strings (bound_roles doc.bindings user groups [])

abbrev pub star : Str
star = bytes "*"

unfoldable pub match_list : List Str → Str → Bool
match_list [] v = false
match_list (x ∷ xs) v = bytes_eq x star || bytes_eq x v || match_list xs v

value_matches : Option Str → Str → Bool
value_matches none v = false
value_matches (some got) v = bytes_eq v star || bytes_eq got v

label_matches : Labels → Str → Str → Bool
unfolding lookup value_matches
label_matches labels k v = bytes_eq k star || value_matches (lookup labels k) v

unfoldable pub labels_match : Labels → Labels → Bool
unfolding label_matches
labels_match [] labels = true
labels_match ((k, v) ∷ selector) labels = label_matches labels k v && labels_match selector labels

unfoldable pub action_ok : List Str → Str → Bool
action_ok [] action = false
action_ok (a ∷ as_) action =
    bytes_eq a star
    || bytes_eq a action
    || bytes_eq a (bytes "shell") && bytes_eq action (bytes "attach")
    || action_ok as_ action

abbrev pub is_empty {ℓ} : {A : Type ℓ} → List A → Bool
is_empty [] = true
is_empty (x ∷ xs) = false

in_window : Option TimeWindow → Clock → Bool
in_window none now = true
in_window (some w) now = contains w now

-- Rule.matches
pub matches : Rule → Input → Clock → Bool
unfolding in_window
matches r i now =
    if r.require_native && not (bytes_eq i.client_path (bytes "native"))
    then false
    else if not (is_empty r.actions || action_ok r.actions i.action)
    then false
    else if not (is_empty r.services) && not (match_list r.services i.service)
    then false
    else if not (is_empty r.service_kinds) && not (match_list r.service_kinds i.service_kind)
    then false
    else if not (labels_match r.service_labels i.service_labels)
    then false
    else if not (labels_match r.node_labels i.node_labels)
    then false
    else in_window r.time_window now

pub read_only_now : Rule → Clock → Bool
read_only_now r now =
    r.read_only || elim r.read_only_time_window [ none ↦ false | some w ↦ contains w now ]

-- The decision `d` that a matching rule alone would give.
pub rule_decision : Str → Input → Clock → Rule → Decision
unfolding read_only_now
rule_decision rname i now rule = record {
  allow = true;
  reason = role_allows rname i.action i.node_name;
  matched_role = rname;
  max_session_ttl = rule.max_session_ttl;
  allow_detach = unless_false rule.allow_detach;
  recorded = unless_false rule.recorded;
  read_only = read_only_now rule now;
  require_presence = rule.require_presence;
}

pub merge : Decision → Decision → Decision
merge best d = record best {
  allow_detach = if d.allow_detach then true else best.allow_detach;
  recorded = if d.recorded then true else best.recorded;
  read_only = if d.read_only then true else best.read_only;
  require_presence = if d.require_presence then true else best.require_presence;
  max_session_ttl =
      if eqb_ℤ d.max_session_ttl (pos 0)
        || not (eqb_ℤ best.max_session_ttl (pos 0)) && ltb_ℤ best.max_session_ttl d.max_session_ttl
      then d.max_session_ttl
      else best.max_session_ttl;
}

-- One round of the inner loop.
pub consider : Str → Input → Clock → Decision → Rule → Decision
unfolding matches rule_decision merge
consider rname i now best rule =
    if not (matches rule i now)
    then best
    else if not best.allow
    then rule_decision rname i now rule
    else merge best (rule_decision rname i now rule)

pub consider_rules : Str → Input → Clock → Decision → List Rule → Decision
unfolding consider
consider_rules rname i now best [] = best
consider_rules rname i now best (r ∷ rs) =
    consider_rules rname i now (consider rname i now best r) rs

-- A role that the document lacks is skipped.
pub consider_role : Str → Input → Clock → Decision → Option (List Rule) → Decision
unfolding consider_rules
consider_role rname i now best none = best
consider_role rname i now best (some rules) = consider_rules rname i now best rules

-- The outer loop.
pub consider_roles : Doc → Input → Clock → Decision → List Str → Decision
unfolding consider_role lookup
consider_roles doc i now best [] = best
consider_roles doc i now best (rname ∷ rest) =
    consider_roles doc i now (consider_role rname i now best (lookup doc.roles rname)) rest

pub denial : Reason → Decision
denial reason = record {
  allow = false;
  reason = reason;
  matched_role = [];
  max_session_ttl = pos 0;
  allow_detach = false;
  recorded = false;
  read_only = false;
  require_presence = false;
}

pub effective_roles : Doc → Input → List Str
unfolding roles_for
effective_roles doc i = if is_empty i.roles then roles_for doc i.user i.groups else i.roles

pub effective_now : Input → Clock → Clock
effective_now i wall = elim i.now [ none ↦ wall | some t ↦ t ]

-- Static.Evaluate, with the wall clock that it reads for a zero Now.
unfoldable pub evaluate : Doc → Input → Clock → Decision
unfolding effective_roles effective_now consider_roles denial
evaluate doc i wall =
    let roles = effective_roles doc i in
    if is_empty roles
    then denial (no_roles i.user)
    else consider_roles doc i (effective_now i wall) (denial (no_rule roles i.action i.node_name))
        roles
