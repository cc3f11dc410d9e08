-- ===== src/Policy/Window/Cyclic.antt =====
-- A clock window against its description on the circle of the day's minutes.
use geneza.Base.{
  if◌then◌else◌, ℕ, suc, zero, ◌+◌, ◌-◌, ◌*◌, ◌/◌, ◌%◌, ◌<◌, ◌≡◌, refl, ap, ◌↔◌, ◌⊎◌, inl, inr,
  Bool, true, false, Option, none, some, arith, List, [], ◌∷◌, Str, any_iff, Any,
}
use geneza.Base.Int.{ℤ, pos, wrap64, ◌+ℤ◌, ◌*ℤ◌, eqb_ℤ, eqb_ℤ_iff}
use geneza.Policy.Window.{Clock, TimeWindow, Weekday, day_ok, day_matches, parse, within, contains}

within_cyclic :
    (s e c : ℕ)
    → s < 1440
    → e < 1440
    → c < 1440
    → (within (pos s) (pos e) (pos c) ≡ true) ↔ ((c + 1440 - s) % 1440 < (e + 1440 - s) % 1440)
unfolding within
within_cyclic s e c hs he hc = ground arith

-- "hh:mm"
abbrev pub hh_mm : ℕ → ℕ → Str
hh_mm h m = (48 + h / 10) ∷ (48 + h % 10) ∷ 58 ∷ (48 + m / 10) ∷ (48 + m % 10) ∷ []

-- A test on all the numbers below one, from the greatest down.
passes_under : (ℕ → Bool) → ℕ → Bool
passes_under test zero = true
passes_under test (suc top) = if test top then passes_under test top else false

passes_under_sound :
    (test : ℕ → Bool) (top k : ℕ) → k < top → passes_under test top ≡ true → test k ≡ true
unfolding passes_under
passes_under_sound test (suc top) k below all =
    ground (arith, λ (lower : k < top). passes_under_sound test top k lower)
passes_under_sound test zero k below all = absurd (omega arith)

parses_to : Option ℤ → ℕ → Bool
parses_to none n = false
parses_to (some z) n = eqb_ℤ z (pos n)

parses_to_sound : (o : Option ℤ) (n : ℕ) → parses_to o n ≡ true → o ≡ some (pos n)
unfolding parses_to
parses_to_sound none n h = cc
parses_to_sound (some z) n h = ap some ((eqb_ℤ_iff z (pos n)).0 h)

table :
    passes_under (λ h. passes_under (λ m. parses_to (parse (hh_mm h m)) (h * 60 + m)) 60) 24 ≡ true
unfolding passes_under parse parses_to wrap64 ◌+ℤ◌ ◌*ℤ◌
table = refl

pub parse-hh_mm : (h m : ℕ) → h < 24 → m < 60 → parse (hh_mm h m) ≡ some (pos (h * 60 + m))
parse-hh_mm h m hh hm =
    parses_to_sound _ _ (passes_under_sound _ 60 m hm (passes_under_sound _ 24 h hh table))

-- The day list is empty, or an entry of it names the day.
abbrev pub DayListed : List Str → Weekday → Type 0
DayListed days today = (days ≡ []) ⊎ Any (λ d. day_matches today d ≡ true) days

day_ok_iff : (days : List Str) (today : Weekday) → (day_ok days today ≡ true) ↔ DayListed days today
unfolding day_ok
day_ok_iff [] today = (λ _. inl refl, λ _. refl)
day_ok_iff (d ∷ ds) today =
    let anywhere = any_iff (day_matches today) (d ∷ ds) in
    (λ h. inr (anywhere.0 h), λ h. elim h [ inl e ↦ cc | inr listed ↦ anywhere.1 listed ])

-- A window from sh:sm to eh:em contains a time exactly when the list of days admits its day and, going
-- round the clock from the start, the time comes before the end: overnight windows, and the empty
-- window whose start is its end, included. The three times are valid hours and minutes.
pub contains_cyclic :
    (days : List Str) (sh sm eh em : ℕ) (now : Clock)
    → sh < 24
    → sm < 60
    → eh < 24
    → em < 60
    → now.hour < 24
    → now.minute < 60
    → let w : TimeWindow = record { days = days; start = hh_mm sh sm; end_time = hh_mm eh em } in
      let s = sh * 60 + sm in
      (contains w now ≡ true) ↔ (
        DayListed days now.weekday
        × ((now.hour * 60 + now.minute + 1440 - s) % 1440 < (eh * 60 + em + 1440 - s) % 1440))
unfolding contains
contains_cyclic days sh sm eh em now a b c d e f =
    rw (parse-hh_mm sh sm a b, parse-hh_mm eh em c d)
      (ground (
        arith,
        day_ok_iff days now.weekday,
        within_cyclic (sh * 60 + sm) (eh * 60 + em) (now.hour * 60 + now.minute),
      ))
