-- ===== src/Affected/Engine.antt =====
-- internal/affected/engine/engine.go: the verdict for a component and the advisories of its package.
-- The comparison of versions is a third-party package (osv-scalibr/semantic): a function that is none
-- where a version does not parse. A status is a constructor, and VEX is a function or absent.
pub mod Windows
pub mod Verdicts
pub mod Lookup
mod Examples
use geneza.Base.{
  ℕ, ◌≡◌, refl, Bool, true, false, not, ◌&&◌, ◌||◌, Option, none, some, List, [], ◌∷◌, ◌++◌, map,
  ltb, ◌==◌, if◌then◌else◌, length, take, Str, bytes, bytes_eq, equal_fold, any,
}
use geneza.Base.Int.{ℤ, pos, negsuc, leb_ℤ, eqb_ℤ}
use geneza.Policy.Engine.{sort_strings}
use geneza.Affected.Ecosystem.{ecosystem_applies}

pub record Event : Type 0 where
  pub introduced : Str
  pub fixed : Str

pub record Range : Type 0 where
  pub kind : Str
  pub events : List Event

pub record AffectedEntry : Type 0 where
  pub ecosystem : Str
  pub name : Str
  pub ranges : List Range
  pub versions : List Str

pub record Vulnerability : Type 0 where
  pub id : Str
  pub aliases : List Str
  pub affected : List AffectedEntry
  pub severity : Str

pub record Component : Type 0 where
  pub purl : Str
  pub ecosystem : Str
  pub name : Str
  pub version : Str
  pub source_name : Str
  pub source_version : Str

pub data Status : Type 0 where
  is_affected not_affected is_fixed under_investigation : Status

pub data RangeState : Type 0 where
  before_vuln in_vuln_window past_fix : RangeState

pub record Match : Type 0 where
  pub component : Component
  pub cve : Str
  pub status : Status
  pub advisory_id : Str
  pub fixed_version : Str
  pub severity : Str
  pub vex_justification : Str

abbrev pub is_empty : Str → Bool
is_empty s = length s == 0

-- semantic.Parse and CompareStr, by ecosystem.
abbrev pub Comparison : Type 0
Comparison = Str → Str → Str → Option ℤ

abbrev pub cmp_err : ℤ
cmp_err = negsuc 1

pub cmp : Comparison → Str → Str → Str → ℤ
cmp compare eco a b = elim (compare eco a b) [ none ↦ cmp_err | some n ↦ n ]

-- The variables of evalRange's loop.
pub record Sweep : Type 0 where
  pub state : RangeState
  pub fixed_at : Str
  pub unknown : Bool
  pub open_ : Bool

pub data Next : Type 0 where
  stop go : Sweep → Next

-- The variables of evalAffected's loop, and of matchOne's.
pub record Found : Type 0 where
  pub affected_any : Bool
  pub open_window_fix : Str
  pub fixed_version : Str
  pub uncertain : Bool

pub record Verdict : Type 0 where
  pub status : Status
  pub fixed_at_or_past : Str
  pub fixes_window : Str
  pub uncertain : Bool

module _ (compare : Comparison) where
  pub opened : Sweep → Sweep
  opened s = record s { open_ = true; state = in_vuln_window }

  pub on_introduced : Str → Str → Str → Sweep → Next
  unfolding cmp opened
  on_introduced eco installed bound s =
      let c = cmp compare eco installed bound in
      if bytes_eq bound (bytes "0")
      then go (opened s)
      else if eqb_ℤ c cmp_err
      then go (record s { unknown = true })
      else if leb_ℤ (pos 0) c
      then go (opened s)
      else go s

  pub on_fixed : Str → Str → Str → Sweep → Next
  unfolding cmp
  on_fixed eco installed bound s =
      let c = cmp compare eco installed bound in
      if not s.open_
      then go s
      else if eqb_ℤ c cmp_err
      then go (record s { unknown = true })
      else if leb_ℤ (pos 0) c
      then go (record s { open_ = false; state = past_fix; fixed_at = bound })
      else stop (record s { state = in_vuln_window; fixed_at = bound })

  pub on_event : Str → Str → Event → Sweep → Next
  unfolding on_introduced on_fixed
  on_event eco installed ev s =
      if not (is_empty ev.introduced)
      then on_introduced eco installed ev.introduced s
      else if not (is_empty ev.fixed)
      then on_fixed eco installed ev.fixed s
      else go s

  pub sweep : Str → Str → List Event → Sweep → Sweep
  sweep eco installed [] s = s
  sweep eco installed (ev ∷ evs) s = elim (on_event eco installed ev s) [
    | stop s' ↦ s'
    | go s' ↦ sweep eco installed evs s'
  ]

  -- evalRange: the state, the fixed version and whether a bound did not parse.
  pub eval_range : Str → Str → List Event → Sweep
  unfolding sweep
  eval_range eco installed events =
      sweep eco installed events
        (record { state = before_vuln; fixed_at = []; unknown = false; open_ = false })

  with_range : Str → Str → Range → Found → Found
  with_range eco version r f =
      let e = eval_range eco version r.events in
      let g : Found = elim e.state [
        | before_vuln ↦ f
        | in_vuln_window ↦ record f {
          affected_any = true;
          open_window_fix = if is_empty f.open_window_fix then e.fixed_at else f.open_window_fix;
        }
        | past_fix ↦ record f { fixed_version = e.fixed_at }
      ] in
      if equal_fold r.kind (bytes "GIT")
      then f
      else record g { uncertain = f.uncertain || e.unknown }

  pub with_ranges : Str → Str → List Range → Found → Found
  unfolding with_range
  with_ranges eco version [] f = f
  with_ranges eco version (r ∷ rs) f = with_ranges eco version rs (with_range eco version r f)

  found_status : Found → Status × Str
  found_status f =
      if f.affected_any
      then (is_affected, f.open_window_fix)
      else if not (is_empty f.fixed_version)
      then (is_fixed, f.fixed_version)
      else if f.uncertain
      then (under_investigation, [])
      else (not_affected, [])

  enumerated : Str → Str → List Str → Status × Str
  unfolding cmp
  enumerated eco version versions =
      if any (λ v. eqb_ℤ (cmp compare eco version v) (pos 0)) versions
      then (is_affected, [])
      else (not_affected, [])

  -- compareVersion
  compare_version : Str → Component → Str
  compare_version adv_name c =
      if not (is_empty c.source_version)
        && not (equal_fold adv_name c.name)
        && equal_fold adv_name c.source_name
      then c.source_version
      else c.version

  is_nil : {A : Type 0} → List A → Bool
  is_nil [] = true
  is_nil (x ∷ xs) = false

  -- evalAffected
  pub eval_affected : Component → AffectedEntry → Status × Str
  unfolding with_ranges found_status enumerated compare_version is_nil
  eval_affected c entry =
      let eco = if is_empty entry.ecosystem then c.ecosystem else entry.ecosystem in
      let version = compare_version entry.name c in
      if is_nil entry.ranges && not (is_nil entry.versions)
      then enumerated eco version entry.versions
      else found_status (
          with_ranges eco version entry.ranges (record {
            affected_any = false;
            open_window_fix = [];
            fixed_version = [];
            uncertain = false;
          }))

  -- What one entry does to the verdict.
  pub weigh : Status × Str → Verdict → Verdict
  weigh (is_affected, fix) v = record v {
    status = is_affected;
    fixes_window = if is_empty v.fixes_window then fix else v.fixes_window;
  }
  weigh (is_fixed, fix) v = elim v.status [
    | is_affected ↦ v
    | _ ↦ record v { status = is_fixed; fixed_at_or_past = fix }
  ]
  weigh (under_investigation, fix) v = record v { uncertain = true }
  weigh (not_affected, fix) v = v

  pub weigh_all : Component → List AffectedEntry → Verdict → Verdict
  unfolding weigh
  weigh_all c [] v = v
  weigh_all c (e ∷ es) v = weigh_all c es (weigh (eval_affected c e) v)

  pub final_status : Verdict → Status
  final_status v = elim v.status [
    | not_affected ↦ if v.uncertain then under_investigation else not_affected
    | s ↦ s
  ]

  pub final_fix : Status → Verdict → Str
  final_fix is_fixed v = v.fixed_at_or_past
  final_fix is_affected v = v.fixes_window
  final_fix not_affected v = []
  final_fix under_investigation v = []

-- nameMatches
name_matches : Str → Component → Bool
name_matches adv_name c =
    equal_fold adv_name c.name
    || (not (is_empty c.source_name) && equal_fold adv_name c.source_name)

has_distro_suffix : Str → Bool
has_distro_suffix eco = any (λ b. b == b':') eco

applying : Component → List AffectedEntry → List AffectedEntry
unfolding name_matches
applying c [] = []
applying c (e ∷ es) =
    let rest = applying c es in
    if name_matches e.name c && ecosystem_applies e.ecosystem c.ecosystem then e ∷ rest else rest

distro_entries : List AffectedEntry → List AffectedEntry
unfolding has_distro_suffix
distro_entries [] = []
distro_entries (e ∷ es) =
    let rest = distro_entries es in if has_distro_suffix e.ecosystem then e ∷ rest else rest

-- selectAffected
pub select_affected : Component → Vulnerability → List AffectedEntry
unfolding applying distro_entries has_distro_suffix
select_affected c adv =
    let all = applying c adv.affected in
    if has_distro_suffix c.ecosystem && not (length (distro_entries all) == 0)
    then distro_entries all
    else all

first_cve : List Str → Str → Str
first_cve [] id = id
first_cve (a ∷ others) id =
    let rest = first_cve others id in if bytes_eq (take 4 a) (bytes "CVE-") then a else rest

-- primaryID
pub primary_id : Vulnerability → Str
unfolding first_cve
primary_id adv = first_cve (sort_strings adv.aliases) adv.id

-- A VEX source: the justification of a statement, by CVE and package URL in the engine's workspace.
abbrev pub VexSource : Type 0
VexSource = Str → Str → Option Str

abbrev pub start_verdict : Verdict
start_verdict = record {
  status = not_affected;
  fixed_at_or_past = [];
  fixes_window = [];
  uncertain = false;
}

module _ (compare : Comparison) (vex : Option VexSource) where
  pub suppressed : Match → Option Str → Match
  suppressed m none = m
  suppressed m (some why) = record m { status = not_affected; vex_justification = why }

  pub with_vex : Match → Option VexSource → Match
  unfolding suppressed
  with_vex m none = m
  with_vex m (some source) = elim m.status [
    | is_affected ↦ suppressed m (source m.cve m.component.purl)
    | _ ↦ m
  ]

  pub judged : Component → Vulnerability → List AffectedEntry → Option Match
  unfolding with_vex final_status final_fix
  judged c adv [] = none
  judged c adv (e ∷ es) =
      let v = weigh_all compare c (e ∷ es) start_verdict in
      let status = final_status compare v in
      some (
        with_vex
          (record {
            component = c;
            cve = primary_id adv;
            status = status;
            advisory_id = adv.id;
            fixed_version = final_fix compare status v;
            severity = adv.severity;
            vex_justification = [];
          })
          vex)

  -- matchOne
  pub match_one : Component → Vulnerability → Option Match
  unfolding judged
  match_one c adv = judged c adv (select_affected c adv)

  pub keep : Option Match → List Match → List Match
  keep none ms = ms
  keep (some m) ms = m ∷ ms

  pub match_advisory : Vulnerability → List Component → List Match
  unfolding keep
  match_advisory adv [] = []
  match_advisory adv (c ∷ cs) = keep (match_one c adv) (match_advisory adv cs)

  -- lookupNames
  pub lookup_names : Component → List Str
  lookup_names c =
      if is_empty c.source_name || equal_fold c.source_name c.name
      then c.name ∷ []
      else c.name ∷ c.source_name ∷ []

  -- The advisories of one name, less those that were seen.
  pub match_named : Component → List Str → List Vulnerability → List Str × List Match
  unfolding keep
  match_named c seen [] = (seen, [])
  match_named c seen (adv ∷ advs) =
      let again = any (λ id. bytes_eq id adv.id) seen in
      let rest = match_named c (if again then seen else adv.id ∷ seen) advs in
      if again then rest else (rest.0, keep (match_one c adv) rest.1)

  -- The matches so far and those that follow, or the error of the feed.
  pub then_more : List Match → Option (List Match) → Option (List Match)
  then_more ms none = none
  then_more ms (some rest) = some (ms ++ rest)

  module _ (feed : Str → Str → Option (List Vulnerability)) where
    pub match_names : Component → List Str → List Str → Option (List Match)
    unfolding match_named then_more
    match_names c seen [] = some []
    match_names c seen (n ∷ ns) = elim (feed c.ecosystem n) [
      | none ↦ none
      | some advs ↦
          let (seen', ms) = match_named c seen advs in then_more ms (match_names c seen' ns)
    ]

    pub match_node : List Component → Option (List Match)
    unfolding match_names lookup_names then_more
    match_node [] = some []
    match_node (c ∷ cs) = elim (match_names c [] (lookup_names c)) [
      | none ↦ none
      | some ms ↦ then_more ms (match_node cs)
    ]
