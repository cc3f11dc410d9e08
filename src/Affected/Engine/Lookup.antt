-- ===== src/Affected/Engine/Lookup.antt =====
-- internal/affected/engine/engine.go: a component that is looked up under two names has each advisory once.
use geneza.Base.{
  ◌≡◌, refl, sym, ap, ◌∙◌, subst, false, ◌⊎◌, inl, inr, Option, none, some, List, [], ◌∷◌, map, Str,
  bytes_eq, bytes_eq_iff, any, In, In-append, Distinct, Distinct-append, Bool-cases, arith,
}
use mathlib.Core.List.{map-append}
use geneza.Affected.Engine.{
  AffectedEntry, Vulnerability, Component, Match, Comparison, VexSource, with_vex, suppressed,
  judged, select_affected, match_one, keep, lookup_names, match_named, match_names, then_more,
}

abbrev pub ids : List Match → List Str
ids ms = map (λ m. m.advisory_id) ms

-- The bytes of an id among those that were seen.
seen_iff : (id : Str) (seen : List Str) → any (λ s. bytes_eq s id) seen ≡ false → ¬ In id seen
unfolding any
seen_iff id [] h m = absurd m
seen_iff id (s ∷ seen) h (inl e) = ground (arith, bytes_eq_iff s id, e)
seen_iff id (s ∷ seen) h (inr m) = seen_iff id seen (ground arith) m

module _ (compare : Comparison) (vex : Option VexSource) where
  with_vex-advisory_id :
      (m : Match) (o : Option VexSource) → (with_vex compare vex m o).advisory_id ≡ m.advisory_id
  unfolding with_vex suppressed
  with_vex-advisory_id m none = refl
  with_vex-advisory_id m (some source) = ground arith

  judged-advisory_id :
      (c : Component) (adv : Vulnerability) (es : List AffectedEntry) (m : Match)
      → judged compare vex c adv es ≡ some m
      → m.advisory_id ≡ adv.id
  unfolding judged
  judged-advisory_id c adv [] m e = absurd (cc e)
  judged-advisory_id c adv (x ∷ es) m e =
      ap (λ o. elim o as (λ _. Str) [ none ↦ adv.id | some n ↦ n.advisory_id ]) (sym e)
      ∙ with_vex-advisory_id _ vex

  match_one-advisory_id :
      (c : Component) (adv : Vulnerability) (m : Match)
      → match_one compare vex c adv ≡ some m
      → m.advisory_id ≡ adv.id
  unfolding match_one
  match_one-advisory_id c adv m e = judged-advisory_id c adv (select_affected c adv) m e

  -- What was found anew: no id twice, none that was seen, and all are seen from there on.
  Fresh : List Str → List Str × List Match → Type 0
  Fresh seen (seen', ms) =
      Distinct (ids ms)
      × ((s : Str) → In s (ids ms) → ¬ In s seen)
      × ((s : Str) → In s seen ⊎ In s (ids ms) → In s seen')

  keep-Fresh :
      (adv : Vulnerability) (seen : List Str) (r : List Str × List Match) (o : Option Match)
      → ((m : Match) → o ≡ some m → m.advisory_id ≡ adv.id)
      → ¬ In adv.id seen
      → Fresh (adv.id ∷ seen) r
      → Fresh seen (r.0, keep compare vex o r.1)
  unfolding Fresh keep
  keep-Fresh adv seen (seen', ms) none named new (d, apart, all) = (
    d,
    λ s m k. apart s m (inr k),
    λ s h. elim h [ inl k ↦ all s (inl (inr k)) | inr k ↦ all s (inr k) ],
  )
  keep-Fresh adv seen (seen', ms) (some m) named new (d, apart, all) =
      let n = named m refl in
      (
        (λ k. apart m.advisory_id k (inl n), d),
        λ s k old. elim k [
          | inl e ↦ new (subst (λ t. In t seen) (e ∙ n) old)
          | inr k' ↦ apart s k' (inr old)
        ],
        λ s h. elim h [
          | inl k ↦ all s (inl (inr k))
          | inr k ↦ elim k [ inl e ↦ all s (inl (inl (e ∙ n))) | inr k' ↦ all s (inr k') ]
        ],
      )

  match_named-Fresh :
      (c : Component) (seen : List Str) (advs : List Vulnerability)
      → Fresh seen (match_named compare vex c seen advs)
  unfolding match_named Fresh
  match_named-Fresh c seen [] = (tt, λ s m k. m, λ s h. elim h [ inl k ↦ k | inr k ↦ absurd k ])
  match_named-Fresh c seen (adv ∷ advs) = elim (Bool-cases (any (λ s. bytes_eq s adv.id) seen)) [
    | inl again ↦ rw again (match_named-Fresh c seen advs)
    | inr again ↦ rw again (
        keep-Fresh adv seen (match_named compare vex c (adv.id ∷ seen) advs)
          (match_one compare vex c adv) (match_one-advisory_id c adv) (seen_iff adv.id seen again)
          (match_named-Fresh c (adv.id ∷ seen) advs))
  ]

  -- What one component's lookups found: no id twice, and none that was seen.
  FreshResult : List Str → Option (List Match) → Type 0
  FreshResult seen none = Unit
  FreshResult seen (some ms) = Distinct (ids ms) × ((s : Str) → In s (ids ms) → ¬ In s seen)

  then_more-FreshResult :
      (seen seen' : List Str) (ms : List Match) (o : Option (List Match))
      → Fresh seen (seen', ms)
      → FreshResult seen' o
      → FreshResult seen (then_more compare vex ms o)
  unfolding Fresh FreshResult then_more
  then_more-FreshResult seen seen' ms none f h = h
  then_more-FreshResult seen seen' ms (some rest) (d, apart, all) (d', apart') = (
    subst Distinct (sym (map-append (λ m. m.advisory_id) ms rest))
        (Distinct-append (ids ms) (ids rest) d d' (λ s k k'. apart' s k' (all s (inr k)))),
    λ s m k.
        elim ((In-append s (ids ms) (ids rest)).0
          (subst (In s) (map-append (λ m. m.advisory_id) ms rest) m)) [
            | inl j ↦ apart s j k
            | inr j ↦ apart' s j (all s (inl k))
          ],
  )

  module _ (feed : Str → Str → Option (List Vulnerability)) (c : Component) where
    match_names-FreshResult :
        (seen names : List Str) → FreshResult seen (match_names compare vex feed c seen names)
    unfolding match_names FreshResult
    match_names-FreshResult seen [] = (tt, λ s m k. m)
    match_names-FreshResult seen (n ∷ names) =
        elim (feed c.ecosystem n)
          as (λ o. FreshResult seen (elim o as (λ _. Option (List Match)) [
            | none ↦ none
            | some advs ↦
                let r = match_named compare vex c seen advs in
                then_more compare vex r.1 (match_names compare vex feed c r.0 names)
          ])) [
            | none ↦ tt
            | some advs ↦
                let r = match_named compare vex c seen advs in
                then_more-FreshResult seen r.0 r.1 (match_names compare vex feed c r.0 names)
                  (match_named-Fresh c seen advs) (match_names-FreshResult r.0 names)
          ]

    -- A component that is looked up under its own name and under that of its source package, with any
    -- advisories on file for either, has at most one verdict for each advisory.
    pub match_names-once :
        (ms : List Match)
        → match_names compare vex feed c [] (lookup_names compare vex c) ≡ some ms
        → Distinct (ids ms)
    unfolding FreshResult
    match_names-once ms e =
        (subst (FreshResult []) e (match_names-FreshResult [] (lookup_names compare vex c))).0
