-- ===== src/Affected/Engine/Windows.antt =====
-- internal/affected/engine/engine.go: evalRange against the windows that a range's events stand for.
use geneza.Base.{
  ◌≡◌, refl, ap, ◌∙◌, Bool, true, false, not, ◌&&◌, ◌||◌, Option, none, some, List, [], ◌∷◌,
  if◌then◌else◌, Str, bytes, bytes_eq, Bool-cases, inl, inr, All, arith,
}
use geneza.Base.Int.{pos, leb_ℤ, eqb_ℤ}
use geneza.Affected.Engine.{
  Event, RangeState, before_vuln, in_vuln_window, past_fix, Sweep, stop, go, Comparison, cmp,
  cmp_err, is_empty, on_event, sweep, eval_range, opened, on_introduced, on_fixed, Next,
}

-- A window: where it is introduced, and where it is fixed.
abbrev pub Window : Type 0
Window = Str × Str

abbrev introduces : Str → Event
introduces bound = record { introduced = bound; fixed = [] }

abbrev fixes : Str → Event
fixes bound = record { introduced = []; fixed = bound }

module _ (compare : Comparison) (eco installed : Str) where
  -- The installed version is at or after a bound.
  pub reached : Str → Bool
  reached bound = leb_ℤ (pos 0) (cmp compare eco installed bound)

  pub begun : Str → Bool
  begun bound = bytes_eq bound (bytes "0") || reached bound

  pub is_inside : Window → Bool
  is_inside (introduced, fixed) = begun introduced && not (reached fixed)

  pub is_past : Window → Bool
  is_past (introduced, fixed) = begun introduced && reached fixed

  -- A bound that is there and that the ecosystem can read.
  unfoldable pub Readable : Str → Type 0
  Readable bound =
      (is_empty bound ≡ false) × (eqb_ℤ (cmp compare eco installed bound) cmp_err ≡ false)

  -- The events of some windows, and of one at the end that has no fix.
  unfoldable pub events : List Window → Option Str → List Event
  events [] none = []
  events [] (some introduced) = introduces introduced ∷ []
  events ((introduced, fixed) ∷ ws) last = introduces introduced ∷ fixes fixed ∷ events ws last

  -- The fix of the first window that the version is in.
  unfoldable pub first_inside : List Window → Option Str
  unfolding is_inside begun reached
  first_inside [] = none
  first_inside (w ∷ ws) = let rest = first_inside ws in if is_inside w then some w.1 else rest

  -- The fix of the last window that the version is past.
  unfoldable pub last_past : List Window → Option Str → Option Str
  unfolding is_past begun reached
  last_past [] before = before
  last_past (w ∷ ws) before = last_past ws (if is_past w then some w.1 else before)

  abbrev pub or_empty : Option Str → Str
  or_empty none = []
  or_empty (some s) = s

  abbrev pub placed : Option Str → RangeState
  placed none = before_vuln
  placed (some fix) = past_fix

  unfoldable pub in_last : Option Str → Bool
  unfolding begun reached
  in_last none = false
  in_last (some introduced) = begun introduced

  -- Where a version is: in a window, in the one at the end, past the last of those it is past, or before.
  unfoldable pub located : Option Str → Option Str → Bool → RangeState × Str
  located (some fix) past here = (in_vuln_window, fix)
  located none past here = (if here then in_vuln_window else placed past, or_empty past)

  at : Option Str → Sweep
  at past = record { state = placed past; fixed_at = or_empty past; unknown = false; open_ = false }

  read : Sweep → RangeState × Str × Bool
  read s = (s.state, s.fixed_at, s.unknown)

  ReadableEvents : List Window → Option Str → Type 0
  unfolding Readable
  ReadableEvents ws last =
      All (λ w. Readable w.0 × Readable w.1) ws × ((b : Str) → last ≡ some b → Readable b)

  on_event-introduced :
      (b : Str) (s : Sweep)
      → Readable b
      → on_event compare eco installed (introduces b) s
        ≡ go (if begun b then opened compare s else s)
  unfolding on_event on_introduced Readable begun reached
  on_event-introduced b s (there, read) = ground arith

  on_event-closed :
      (f : Str) (s : Sweep) → s.open_ ≡ false → on_event compare eco installed (fixes f) s ≡ go s
  unfolding on_event on_fixed
  on_event-closed f s shut = ground arith

  on_event-fixed :
      (f : Str) (s : Sweep)
      → s.open_ ≡ true
      → Readable f
      → on_event compare eco installed (fixes f) s ≡ (
          if reached f
          then go (record s { open_ = false; state = past_fix; fixed_at = f })
          else stop (record s { state = in_vuln_window; fixed_at = f }))
  unfolding on_event on_fixed Readable reached
  on_event-fixed f s on (there, read) = ground arith

  after : List Event → Next → Sweep
  after evs n = elim n [ stop s ↦ s | go s ↦ sweep compare eco installed evs s ]

  sweep-after :
      (ev : Event) (evs : List Event) (s : Sweep)
      → sweep compare eco installed (ev ∷ evs) s ≡ after evs (on_event compare eco installed ev s)
  unfolding sweep after
  sweep-after ev evs s = refl

  -- What the two events of a window do.
  sweep-window :
      (i f : Str) (evs : List Event) (s : Sweep)
      → Readable i
      → Readable f
      → s.open_ ≡ false
      → sweep compare eco installed (introduces i ∷ fixes f ∷ evs) s ≡ (
          if begun i
          then if reached f
            then sweep compare eco installed evs
                (record s { state = past_fix; fixed_at = f; open_ = false })
            else record s { state = in_vuln_window; fixed_at = f; open_ = true }
          else sweep compare eco installed evs s)
  unfolding after opened
  sweep-window i f evs s ri rf shut =
      let first = introduces i in
      let second = fixes f in
      sweep-after first (second ∷ evs) s
      ∙ ap (after (second ∷ evs)) (on_event-introduced i s ri)
      ∙ elim (Bool-cases (begun i)) [
        | inl b ↦ rw b (
            sweep-after second evs (opened compare s)
            ∙ ap (after evs) (on_event-fixed f (opened compare s) refl rf)
            ∙ elim (Bool-cases (reached f)) [ inl r ↦ rw r refl | inr r ↦ rw r refl ])
        | inr b ↦ rw b (sweep-after second evs s ∙ ap (after evs) (on_event-closed f s shut))
      ]

  sweep-located :
      (ws : List Window) (last past : Option Str)
      → ReadableEvents ws last
      → read (sweep compare eco installed (events ws last) (at past)) ≡ (
          let l = located (first_inside ws) (last_past ws past) (in_last last) in (l.0, l.1, false))
  unfolding ReadableEvents Readable sweep on_event events first_inside last_past located in_last at
      read after opened
  sweep-located [] none past r = refl
  sweep-located [] (some b) past r =
      ap (λ n. read (after [] n)) (on_event-introduced b (at past) (r.1 b refl))
      ∙ elim (Bool-cases (begun b)) [ inl e ↦ rw e refl | inr e ↦ rw e refl ]
  sweep-located ((i, f) ∷ ws) last past ((r, rs), rl) =
      ap read (sweep-window i f (events ws last) (at past) r.0 r.1 refl)
      ∙ elim (Bool-cases (begun i)) [
        | inr b ↦ rw (b, is_inside, is_past) (sweep-located ws last past (rs, rl))
        | inl b ↦ elim (Bool-cases (reached f)) [
          | inl p ↦ rw (b, p, is_inside, is_past) (sweep-located ws last (some f) (rs, rl))
          | inr p ↦ rw (b, p, is_inside, is_past) refl
        ]
      ]

  -- Where evalRange puts a version, for events that are windows with an optional last one without a fix,
  -- in any order, with bounds that the ecosystem reads: in a window exactly when it is at or after where
  -- one begins and below its fix, and then the fix is that of the first such window; else in the last
  -- one if it is at or after where that begins; else past a fix if it is past some window, and the
  -- fix is that of the last such window; else before all. In the last window, which has no fix, the fix
  -- is that of the last window that the version is already past, and empty if there is none.
  pub eval_range-located :
      (ws : List Window) (last : Option Str)
      → All {A = Window} (λ w. Readable w.0 × Readable w.1) ws
      → ((b : Str) → last ≡ some b → Readable b)
      → let e = eval_range compare eco installed (events ws last) in
        let l = located (first_inside ws) (last_past ws none) (in_last last) in
        (e.state ≡ l.0) × (e.fixed_at ≡ l.1) × (e.unknown ≡ false)
  unfolding eval_range at read ReadableEvents
  eval_range-located ws last rs rl =
      let e = sweep-located ws last none (rs, rl) in
      (ap (λ r. r.0) e, ap (λ r. r.1) e, ap (λ r. r.2) e)
