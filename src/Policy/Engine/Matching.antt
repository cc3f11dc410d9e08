-- ===== src/Policy/Engine/Matching.antt =====
-- Rule.matches and LabelsMatch against their description in the comments of policy.go.
use geneza.Base.{
  ◌≡◌, refl, ◌↔◌, ◌⊎◌, true, Option, none, some, List, [], ◌∷◌, arith, Str, bytes, bytes_eq_iff,
  All, Any,
}
use geneza.Policy.Window.{Clock, TimeWindow, contains}
use geneza.Policy.Engine.{
  Labels, Rule, Input, star, lookup, match_list, value_matches, label_matches, labels_match,
  action_ok, is_empty, in_window, matches,
}

-- The text is named by the list, by itself or by the star.
abbrev pub Listed : List Str → Str → Type 0
Listed list v = Any (λ x. (x ≡ star) ⊎ (x ≡ v)) list

match_list_iff : (list : List Str) (v : Str) → (match_list list v ≡ true) ↔ Listed list v
unfolding match_list
match_list_iff [] v = ground arith
match_list_iff (x ∷ xs) v =
    ground (arith, bytes_eq_iff x star, bytes_eq_iff x v, match_list_iff xs v)

-- The action is listed; a listed "shell" admits "attach" too.
abbrev pub ActionListed : List Str → Str → Type 0
ActionListed list action =
    Any (λ a. (a ≡ star) ⊎ (a ≡ action) ⊎ ((a ≡ bytes "shell") × (action ≡ bytes "attach"))) list

action_ok_iff :
    (list : List Str) (action : Str) → (action_ok list action ≡ true) ↔ ActionListed list action
unfolding action_ok
action_ok_iff [] action = ground arith
action_ok_iff (a ∷ rest) action = ground (
  arith,
  bytes_eq_iff a star,
  bytes_eq_iff a action,
  bytes_eq_iff a (bytes "shell"),
  bytes_eq_iff action (bytes "attach"),
  action_ok_iff rest action,
)

-- Every entry of the selector is "*", or a label of that key has the wanted value or any at all.
abbrev pub LabelsOk : Labels → Labels → Type 0
LabelsOk selector labels =
    All
      (λ (e : Str × Str).
        (e.0 ≡ star)
        ⊎ ((got : Str) × (lookup labels e.0 ≡ some got) × ((e.1 ≡ star) ⊎ (got ≡ e.1))))
      selector

abbrev LabelOk : Labels → Str → Str → Type 0
LabelOk labels k v =
    (k ≡ star) ⊎ ((got : Str) × (lookup labels k ≡ some got) × ((v ≡ star) ⊎ (got ≡ v)))

value_matches_iff :
    (o : Option Str) (v : Str)
    → (value_matches o v ≡ true) ↔ ((got : Str) × (o ≡ some got) × ((v ≡ star) ⊎ (got ≡ v)))
unfolding value_matches
value_matches_iff none v = (λ h. cc, λ h. cc (h.1))
value_matches_iff (some got) v = (
  λ h. (got, refl, ground (arith, bytes_eq_iff v star, bytes_eq_iff got v)),
  λ h. ground (arith, h.1, bytes_eq_iff v star, bytes_eq_iff got v),
)

label_matches_iff :
    (labels : Labels) (k v : Str) → (label_matches labels k v ≡ true) ↔ LabelOk labels k v
unfolding label_matches
label_matches_iff labels k v =
    ground (arith, bytes_eq_iff k star, value_matches_iff (lookup labels k) v)

pub labels_match_iff :
    (selector labels : Labels) → (labels_match selector labels ≡ true) ↔ LabelsOk selector labels
unfolding labels_match
labels_match_iff [] labels = (λ _. tt, λ _. refl)
labels_match_iff ((k, v) ∷ selector) labels =
    ground (arith, label_matches_iff labels k v, labels_match_iff selector labels)

pub record Matches (r : Rule) (i : Input) (now : Clock) : Type 0 where
  pub native : r.require_native ≡ true → i.client_path ≡ bytes "native"
  pub action : (r.actions ≡ []) ⊎ ActionListed r.actions i.action
  pub service : (r.services ≡ []) ⊎ Listed r.services i.service
  pub service_kind : (r.service_kinds ≡ []) ⊎ Listed r.service_kinds i.service_kind
  pub service_labels : LabelsOk r.service_labels i.service_labels
  pub node_labels : LabelsOk r.node_labels i.node_labels
  pub window : (w : TimeWindow) → r.time_window ≡ some w → contains w now ≡ true

is_empty_iff {ℓ} : {A : Type ℓ} (xs : List A) → (is_empty xs ≡ true) ↔ (xs ≡ [])
is_empty_iff [] = (λ _. refl, λ _. refl)
is_empty_iff (x ∷ xs) = (λ h. cc, λ h. cc)

in_window_iff :
    (o : Option TimeWindow) (now : Clock)
    → (in_window o now ≡ true) ↔ ((w : TimeWindow) → o ≡ some w → contains w now ≡ true)
unfolding in_window
in_window_iff none now = (λ _ w e. cc, λ _. refl)
in_window_iff (some w) now = (λ h v e. cc, λ h. h w refl)

-- A rule matches a request exactly when it meets each of the seven conditions: a native-only rule
-- needs a path proven native, an empty list constrains nothing, a named service must be the
-- target, every selector entry holds, and the clock window, if any, contains the time.
pub matches_iff : (r : Rule) (i : Input) (now : Clock) → (matches r i now ≡ true) ↔ Matches r i now
unfolding matches
matches_iff r i now =
    let native = bytes_eq_iff i.client_path (bytes "native") in
    let no_actions = is_empty_iff r.actions in
    let no_services = is_empty_iff r.services in
    let no_kinds = is_empty_iff r.service_kinds in
    let actions = action_ok_iff r.actions i.action in
    let services = match_list_iff r.services i.service in
    let kinds = match_list_iff r.service_kinds i.service_kind in
    let service_labels = labels_match_iff r.service_labels i.service_labels in
    let node_labels = labels_match_iff r.node_labels i.node_labels in
    let window = in_window_iff r.time_window now in
    (
      λ h. record {
        native = ground arith;
        action = ground arith;
        service = ground arith;
        service_kind = ground arith;
        service_labels = service_labels.0 (ground arith);
        node_labels = node_labels.0 (ground arith);
        window = window.0 (ground arith);
      },
      λ h.
          let a = service_labels.1 h.service_labels in
          let b = node_labels.1 h.node_labels in
          let c = window.1 h.window in
          ground (arith, h.native, h.action, h.service, h.service_kind),
    )
