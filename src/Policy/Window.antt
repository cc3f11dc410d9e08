-- ===== src/Policy/Window.antt =====
-- TimeWindow of internal/policy/policy.go, with the parts of Go's strings and fmt that it uses.
-- A Go string is the list of its bytes, and an int is a 64-bit integer that wraps.
pub mod Cyclic
mod Examples
use mathlib.Core.List.{reverse}
use geneza.Base.{
  ℕ, zero, suc, ◌+◌, ◌-◌, ◌*◌, ◌^◌, Bool, true, false, not, ◌&&◌, ◌||◌, Option, none, some, List,
  [], ◌∷◌, ◌++◌, map, ltb, leb, ◌==◌, if◌then◌else◌, length, take, any, Str, bytes, bytes_eq,
}
use geneza.Base.Int.{ℤ, pos, negsuc, ◌+ℤ◌, ◌*ℤ◌, ltb_ℤ, leb_ℤ, wrap64}

pub data Weekday : Type 0 where
  sunday monday tuesday wednesday thursday friday saturday : Weekday

-- What the policy reads of a time.Time in the controller's zone.
pub record Clock : Type 0 where
  pub weekday : Weekday
  pub hour : ℕ
  pub minute : ℕ

pub record TimeWindow : Type 0 where
  pub days : List Str
  pub start : Str
  pub end_time : Str

-- Weekday().String()[:3]
abbrev pub day_name : Weekday → Str
day_name sunday = bytes "Sun"
day_name monday = bytes "Mon"
day_name tuesday = bytes "Tue"
day_name wednesday = bytes "Wed"
day_name thursday = bytes "Thu"
day_name friday = bytes "Fri"
day_name saturday = bytes "Sat"

-- The UTF-8 encodings of the characters that Go counts as white space.
abbrev spaces : List Str
spaces =
    map (λ c. c ∷ []) (9 ∷ 10 ∷ 11 ∷ 12 ∷ 13 ∷ 32 ∷ [])
    ++ (0xc2 ∷ 0x85 ∷ [])
      ∷ (0xc2 ∷ 0xa0 ∷ [])
      ∷ (0xe1 ∷ 0x9a ∷ 0x80 ∷ [])
      ∷ (0xe2 ∷ 0x81 ∷ 0x9f ∷ [])
      ∷ (0xe3 ∷ 0x80 ∷ 0x80 ∷ [])
      ∷ map (λ c. 0xe2 ∷ 0x80 ∷ c ∷ [])
          (0x80 ∷ 0x81 ∷ 0x82 ∷ 0x83 ∷ 0x84 ∷ 0x85 ∷ 0x86 ∷ 0x87 ∷ 0x88 ∷ 0x89 ∷ 0x8a ∷ 0xa8 ∷ 0xa9
            ∷ 0xaf ∷ [])

strip_prefix : Str → Str → Option Str
strip_prefix [] s = some s
strip_prefix (p ∷ ps) [] = none
strip_prefix (p ∷ ps) (c ∷ s) = if p == c then strip_prefix ps s else none

strip_any : List Str → Str → Option Str
unfolding strip_prefix
strip_any [] s = none
strip_any (p ∷ ps) s = elim (strip_prefix p s) [ some r ↦ some r | none ↦ strip_any ps s ]

-- Each round takes at least a byte, so a fuel of the length is enough.
trim_left : ℕ → List Str → Str → Str
unfolding strip_any
trim_left zero table s = s
trim_left (suc f) table s = elim (strip_any table s) [ none ↦ s | some r ↦ trim_left f table r ]

-- strings.TrimSpace
unfoldable pub trim_space : Str → Str
unfolding trim_left
trim_space s =
    let t = trim_left (length s) spaces s in
    reverse (trim_left (length t) (map reverse spaces) (reverse t))

lower : ℕ → ℕ
lower c = if leb b'A' c && leb c b'Z' then c + 32 else c

-- strings.EqualFold, where one side is the ASCII name of a day.
equal_fold : Str → Str → Bool
unfolding lower
equal_fold s t = bytes_eq (map lower s) (map lower t)

-- A malformed entry, shorter than three bytes, is skipped.
unfoldable pub day_matches : Weekday → Str → Bool
unfolding trim_space equal_fold
day_matches today d =
    let dd = trim_space d in
    if ltb (length dd) 3 then false else equal_fold (take 3 dd) (day_name today)

is_digit : ℕ → Bool
is_digit c = leb b'0' c && leb c b'9'

digits : ℕ → Str → ℕ × Str
unfolding is_digit
digits n [] = (n, [])
digits n (c ∷ s) =
    let rest = digits (n * 10 + (c - b'0')) s in if is_digit c then rest else (n, c ∷ s)

-- SkipSpace of fmt.Sscanf: a newline is an error.
skip_space : ℕ → Str → Option Str
unfolding strip_any
skip_space zero s = some s
skip_space (suc f) [] = some []
skip_space (suc f) (c ∷ s) =
    let rest : Option Str = elim (strip_any spaces (c ∷ s)) [
      | none ↦ some (c ∷ s)
      | some r ↦ skip_space f r
    ] in
    if c == 10 then none else rest

-- The digits of a %d after its sign, within an int64.
scan_number : Bool → Str → Option (ℤ × Str)
unfolding digits
scan_number negative [] = none
scan_number negative (c ∷ s) =
    if not (is_digit c)
    then none
    else let (n, rest) = digits 0 (c ∷ s) in
      if negative
      then (if ltb (2 ^ 63) n then none else some (if n == 0 then pos 0 else negsuc (n - 1), rest))
      else if ltb n (2 ^ 63)
      then some (pos n, rest)
      else none

scan_int : Str → Option (ℤ × Str)
unfolding skip_space scan_number
scan_int s = elim (skip_space (length s) s) [
  | none ↦ none
  | some [] ↦ none
  | some (c ∷ r) ↦
      if c == b'-'
      then scan_number true r
      else if c == b'+'
      then scan_number false r
      else scan_number false (c ∷ r)
]

scan_colon : Str → Option Str
scan_colon [] = none
scan_colon (c ∷ s) = if c == b':' then some s else none

-- The closure `parse` of contains: fmt.Sscanf(s, "%d:%d", &h, &m), then h*60 + m.
unfoldable pub parse : Str → Option ℤ
unfolding scan_int scan_colon
parse s = elim (scan_int s) [
  | none ↦ none
  | some (h, r) ↦ elim (scan_colon r) [
    | none ↦ none
    | some t ↦ elim (scan_int t) [
      | none ↦ none
      | some (m, _) ↦ some (wrap64 (wrap64 (h *ℤ pos 60) +ℤ m))
    ]
  ]
]

-- An empty list of days admits every day.
pub day_ok : List Str → Weekday → Bool
day_ok [] today = true
day_ok (d ∷ ds) today = any (day_matches today) (d ∷ ds)

pub within : ℤ → ℤ → ℤ → Bool
within start end_time cur =
    if leb_ℤ start end_time
    then leb_ℤ start cur && ltb_ℤ cur end_time
    else leb_ℤ start cur || ltb_ℤ cur end_time

hours_ok : Option ℤ → Option ℤ → ℤ → Bool
hours_ok (some s) (some e) cur = within s e cur
hours_ok _ _ cur = false

unfoldable pub contains : TimeWindow → Clock → Bool
unfolding day_ok within hours_ok
contains w now =
    if not (day_ok w.days now.weekday)
    then false
    else hours_ok (parse w.start) (parse w.end_time) (pos (now.hour * 60 + now.minute))
