-- ===== src/EnrollCode/Base64.antt =====
-- base64.RawURLEncoding: URL-safe base64 without padding.
use geneza.Base.{
  ℕ, ◌+◌, ◌-◌, ◌*◌, ◌/◌, ◌%◌, ◌<◌, ◌≡◌, refl, ap, ◌∙◌, Bool, false, ◌&&◌, ◌||◌, Option, none, some,
  List, [], ◌∷◌, map, ltb, leb, ◌==◌, if◌then◌else◌, Str, All, arith,
}

-- The byte of a number below 64, and back.
pub symbol : ℕ → ℕ
symbol i =
    if ltb i 26
    then 65 + i
    else if ltb i 52
    then 71 + i
    else if ltb i 62
    then i - 4
    else if i == 62
    then b'-'
    else b'_'

pub value : ℕ → Option ℕ
value b =
    if leb b'A' b && leb b b'Z'
    then some (b - 65)
    else if leb b'a' b && leb b b'z'
    then some (b - 71)
    else if leb b'0' b && leb b b'9'
    then some (b + 4)
    else if b == b'-'
    then some 62
    else if b == b'_'
    then some 63
    else none

-- Six bits at a time, most significant first.
pub sextets : Str → List ℕ
sextets [] = []
sextets (a ∷ []) = (a / 4) ∷ (a % 4 * 16) ∷ []
sextets (a ∷ b ∷ []) = (a / 4) ∷ (a % 4 * 16 + b / 16) ∷ (b % 16 * 4) ∷ []
sextets (a ∷ b ∷ c ∷ s) =
    (a / 4) ∷ (a % 4 * 16 + b / 16) ∷ (b % 16 * 4 + c / 64) ∷ (c % 64) ∷ sextets s

pub push_bytes : ℕ → ℕ → ℕ → Option Str → Option Str
push_bytes a b c none = none
push_bytes a b c (some s) = some (a ∷ b ∷ c ∷ s)

-- The bytes of the quanta; one symbol at the end is an error, and left over bits are ignored.
pub from_sextets : List ℕ → Option Str
unfolding push_bytes
from_sextets [] = some []
from_sextets (w ∷ []) = none
from_sextets (w ∷ x ∷ []) = some ((w * 4 + x / 16) ∷ [])
from_sextets (w ∷ x ∷ y ∷ []) = some ((w * 4 + x / 16) ∷ (x % 16 * 16 + y / 4) ∷ [])
from_sextets (w ∷ x ∷ y ∷ z ∷ ds) =
    push_bytes (w * 4 + x / 16) (x % 16 * 16 + y / 4) (y % 4 * 64 + z) (from_sextets ds)

pub push_value : Option ℕ → Option (List ℕ) → Option (List ℕ)
push_value none vs = none
push_value (some v) none = none
push_value (some v) (some vs) = some (v ∷ vs)

-- The decoder skips line ends.
is_line_end : ℕ → Bool
is_line_end b = b == 10 || b == 13

pub values : Str → Option (List ℕ)
unfolding value push_value is_line_end
values [] = some []
values (b ∷ s) = let rest = values s in if is_line_end b then rest else push_value (value b) rest

pub encode_base64 : Str → Str
unfolding symbol sextets
encode_base64 s = map symbol (sextets s)

from_values : Option (List ℕ) → Option Str
unfolding from_sextets
from_values none = none
from_values (some vs) = from_sextets vs

pub decode_base64 : Str → Option Str
unfolding values from_values
decode_base64 s = from_values (values s)

abbrev pub IsBytes : Str → Type 0
IsBytes s = All (λ b. b < 256) s

value-symbol : (i : ℕ) → i < 64 → value (symbol i) ≡ some i
unfolding value symbol
value-symbol i h = ground arith

symbol-IsSymbol : (i : ℕ) → i < 64 → is_line_end (symbol i) ≡ false
unfolding is_line_end symbol
symbol-IsSymbol i h = ground arith

values-symbol : (ds : List ℕ) → All (λ d. d < 64) ds → values (map symbol ds) ≡ some ds
unfolding values push_value
values-symbol [] h = refl
values-symbol (d ∷ ds) (h, hs) =
    ground (arith, value-symbol d h, symbol-IsSymbol d h, values-symbol ds hs)

sextets-bound : (s : Str) → IsBytes s → All (λ d. d < 64) (sextets s)
unfolding sextets
sextets-bound [] h = tt
sextets-bound (a ∷ []) h = (omega (arith, h.0), (omega arith, tt))
sextets-bound (a ∷ b ∷ []) h = (omega (arith, h.0), (omega (arith, h.1.0), (omega arith, tt)))
sextets-bound (a ∷ b ∷ c ∷ s) h = (
  omega (arith, h.0),
  (omega (arith, h.1.0), (omega (arith, h.1.1.0), (omega arith, sextets-bound s h.1.1.1))),
)

from_sextets-sextets : (s : Str) → IsBytes s → from_sextets (sextets s) ≡ some s
unfolding from_sextets sextets push_bytes
from_sextets-sextets [] h = refl
from_sextets-sextets (a ∷ []) h =
    let first : a / 4 * 4 + a % 4 * 16 / 16 ≡ a = omega arith in ap (λ n. some (n ∷ [])) first
from_sextets-sextets (a ∷ b ∷ []) h =
    let first : a / 4 * 4 + (a % 4 * 16 + b / 16) / 16 ≡ a = omega (arith, h.1.0) in
    let second : (a % 4 * 16 + b / 16) % 16 * 16 + b % 16 * 4 / 4 ≡ b = omega (arith, h.1.0) in
    λ i. some (first i ∷ second i ∷ [])
from_sextets-sextets (a ∷ b ∷ c ∷ s) h =
    let first : a / 4 * 4 + (a % 4 * 16 + b / 16) / 16 ≡ a = omega (arith, h.1.0) in
    let second : (a % 4 * 16 + b / 16) % 16 * 16 + (b % 16 * 4 + c / 64) / 4 ≡ b =
      omega (arith, h.1.0, h.1.1.0) in
    let third : (b % 16 * 4 + c / 64) % 4 * 64 + c % 64 ≡ c = omega (arith, h.1.1.0) in
    λ i. push_bytes (first i) (second i) (third i) (from_sextets-sextets s h.1.1.1 i)

-- What is encoded is decoded as it was.
pub decode_base64-encode_base64 : (s : Str) → IsBytes s → decode_base64 (encode_base64 s) ≡ some s
unfolding decode_base64 encode_base64 from_values
decode_base64-encode_base64 s h =
    ap from_values (values-symbol (sextets s) (sextets-bound s h)) ∙ from_sextets-sextets s h
