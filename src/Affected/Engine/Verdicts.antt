-- ===== src/Affected/Engine/Verdicts.antt =====
-- internal/affected/engine/engine.go: how matchOne ranks the verdicts of an advisory's entries.
use geneza.Base.{
  ◌≡◌, refl, sym, ap, ◌∙◌, Bool, true, false, ◌&&◌, ◌||◌, Option, none, some, List, [], ◌∷◌,
  if◌then◌else◌, Str, any, arith,
}
use mathlib.Core.Bool.{or_assoc}
use geneza.Affected.Engine.{
  AffectedEntry, Vulnerability, Component, Status, is_affected, not_affected, is_fixed,
  under_investigation, Match, Comparison, Verdict, eval_affected, weigh, weigh_all, final_status,
  final_fix, select_affected, primary_id, VexSource, start_verdict, suppressed, with_vex, judged,
  match_one,
}

-- Whether two statuses are the same.
pub is_status : Status → Status → Bool
is_status is_affected is_affected = true
is_status not_affected not_affected = true
is_status is_fixed is_fixed = true
is_status under_investigation under_investigation = true
is_status _ _ = false

module _ (compare : Comparison) (c : Component) where
  -- Some of the entries has the status.
  pub has : Status → List AffectedEntry → Bool
  unfolding is_status
  has s es = any (λ e. is_status s (eval_affected compare c e).0) es

  -- Affected outranks fixed, which outranks under investigation, which outranks not affected.
  pub ranked : List AffectedEntry → Status
  unfolding has
  ranked es =
      if has is_affected es
      then is_affected
      else if has is_fixed es
      then is_fixed
      else if has under_investigation es
      then under_investigation
      else not_affected

  -- The entries before a point, as matchOne's variables hold them.
  Weighed : Verdict → Bool → Bool → Bool → Type 0
  Weighed v a f u =
      (v.status ≡ (if a then is_affected else if f then is_fixed else not_affected))
      × (v.uncertain ≡ u)

  weigh-Weighed :
      (r : Status × Str) (v : Verdict) (a f u : Bool)
      → Weighed v a f u
      → Weighed
          (weigh compare r v)
          (a || is_status is_affected r.0)
          (f || is_status is_fixed r.0)
          (u || is_status under_investigation r.0)
  unfolding Weighed weigh is_status
  weigh-Weighed (is_affected, fix) v a f u (s, t) = ground arith
  weigh-Weighed (is_fixed, fix) v a f u (s, t) = ground arith
  weigh-Weighed (under_investigation, fix) v a f u (s, t) = ground arith
  weigh-Weighed (not_affected, fix) v a f u (s, t) = ground arith

  weigh_all-Weighed :
      (es : List AffectedEntry) (v : Verdict) (a f u : Bool)
      → Weighed v a f u
      → Weighed
          (weigh_all compare c es v)
          (a || has is_affected es)
          (f || has is_fixed es)
          (u || has under_investigation es)
  unfolding weigh_all has any Weighed
  weigh_all-Weighed [] v a f u h = ground (arith, h)
  weigh_all-Weighed (e ∷ es) v a f u h =
      let w =
        weigh_all-Weighed es (weigh compare (eval_affected compare c e) v) _ _ _
          (weigh-Weighed (eval_affected compare c e) v a f u h) in
      let r = (eval_affected compare c e).0 in
      rw
        (
          sym (or_assoc a (is_status is_affected r) (has is_affected es)),
          sym (or_assoc f (is_status is_fixed r) (has is_fixed es)),
          sym (or_assoc u (is_status under_investigation r) (has under_investigation es)),
        )
        w

  final_status-ranked :
      (es : List AffectedEntry)
      → final_status compare (weigh_all compare c es start_verdict) ≡ ranked es
  unfolding final_status ranked Weighed
  final_status-ranked es =
      let (s, t) = weigh_all-Weighed es start_verdict false false false (refl, refl) in
      ground (arith, s, t)

-- A VEX statement clears the component of the vulnerability.
pub is_cleared : Option VexSource → Str → Str → Bool
is_cleared none cve purl = false
is_cleared (some source) cve purl = elim (source cve purl) [ none ↦ false | some why ↦ true ]

module _ (compare : Comparison) (vex : Option VexSource) (c : Component) (adv : Vulnerability) where
  -- The status that the entries give, where a VEX statement clears what is affected.
  pub ranked_status : List AffectedEntry → Option Status
  unfolding is_cleared ranked is_status
  ranked_status [] = none
  ranked_status (e ∷ es) =
      let s = ranked compare c (e ∷ es) in
      some (
        if is_status is_affected s && is_cleared vex (primary_id adv) c.purl
        then not_affected
        else s)

  pub status_of : Option Match → Option Status
  status_of none = none
  status_of (some m) = some m.status

  with_vex-status :
      (m : Match) (o : Option VexSource)
      → m.cve ≡ primary_id adv
      → m.component ≡ c
      → (with_vex compare vex m o).status ≡ (
          if is_status is_affected m.status && is_cleared o (primary_id adv) c.purl
          then not_affected
          else m.status)
  unfolding with_vex suppressed is_cleared is_status
  with_vex-status m none e e' = ground arith
  with_vex-status m (some source) e e' = ground (arith, e, e')

  judged-status :
      (es : List AffectedEntry) → status_of (judged compare vex c adv es) ≡ ranked_status es
  unfolding judged status_of ranked_status
  judged-status [] = refl
  judged-status (e ∷ es) =
      let v = weigh_all compare c (e ∷ es) start_verdict in
      let s = final_status compare v in
      let m : Match = record {
        component = c;
        cve = primary_id adv;
        status = s;
        advisory_id = adv.id;
        fixed_version = final_fix compare s v;
        severity = adv.severity;
        vex_justification = [];
      } in
      ap some (
        with_vex-status m vex refl refl
        ∙ ap
            (λ t.
              if is_status is_affected t && is_cleared vex (primary_id adv) c.purl
              then not_affected
              else t)
            (final_status-ranked compare c (e ∷ es)))

  -- matchOne gives no verdict exactly where no entry of the advisory is for the component, and otherwise
  -- affected if some entry gives that, else fixed if some entry does, else under investigation if some
  -- entry does, else not affected, whatever the order of the entries. A VEX statement turns affected
  -- into not affected and changes nothing else.
  pub match_one-ranked :
      status_of (match_one compare vex c adv) ≡ ranked_status (select_affected c adv)
  unfolding match_one
  match_one-ranked = judged-status (select_affected c adv)
