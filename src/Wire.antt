-- ===== src/Wire.antt =====
-- internal/wire/frame.go: frames of a 4-byte big-endian length and a payload.
-- A byte is a number; an io.Reader is the list of the bytes that are left to read. An io.Writer is a
-- state with a function, which may refuse a write.
pub mod RoundTrip
mod Examples
use geneza.Base.{
  ℕ, ◌+◌, ◌*◌, ◌/◌, ◌%◌, ◌^◌, Bool, true, false, Option, none, some, List, [], ◌∷◌, ◌++◌, ltb,
  if◌then◌else◌, length, take, drop, Str,
}

abbrev pub max_frame : ℕ
max_frame = 2 ^ 20

pub data Error : Type 0 where
  -- "frame too large", with the length
  too_large : ℕ → Error
  -- the writer's own error
  write_failed : Error
  -- io.ReadFull met the end
  unexpected_eof : Error
  -- json.Marshal or json.Unmarshal failed
  bad_json : Error

pub data Result {ℓ} (A : Type ℓ) : Type ℓ where
  err : Error → Result A
  ok : A → Result A

infixl 5 ◌>>=◌
-- An error ends the computation.
abbrev pub ◌>>=◌ {ℓ ν} : {A : Type ℓ} {B : Type ν} → Result A → (A → Result B) → Result B
err problem >>= next = err problem
ok value >>= next = next value

pub record Writer (S : Type 0) : Type 0 where
  pub write : S → Str → S × Bool

-- binary.BigEndian.PutUint32 of uint32(n)
pub put_uint32 : ℕ → Str
put_uint32 n =
    let w = n % 2 ^ 32 in (w / 2 ^ 24) ∷ (w / 2 ^ 16 % 256) ∷ (w / 2 ^ 8 % 256) ∷ (w % 256) ∷ []

pub uint32 : Str → ℕ
uint32 (a ∷ b ∷ c ∷ d ∷ rest) = a * 2 ^ 24 + b * 2 ^ 16 + c * 2 ^ 8 + d
uint32 _ = 0

after_header : {S : Type 0} → Writer S → Str → S × Bool → S × Option Error
after_header w p (s, false) = (s, some write_failed)
after_header w p (s, true) =
    let (s', done) = w.write s p in (s', if done then none else some write_failed)

pub write_frame : {S : Type 0} → Writer S → S → Str → S × Option Error
unfolding after_header put_uint32
write_frame w s p =
    if ltb max_frame (length p)
    then (s, some (too_large (length p)))
    else after_header w p (w.write s (put_uint32 (length p)))

-- io.ReadFull into n bytes: the bytes read, and the rest of the stream.
pub read_full : ℕ → Str → Result (Str × Str)
read_full n r = if ltb (length r) n then err unexpected_eof else ok (take n r, drop n r)

pub read_frame_limit : ℕ → Str → Result (Str × Str)
unfolding uint32 read_full
read_frame_limit limit r = read_full 4 r >>= λ (h : Str × Str).
    if ltb limit (uint32 h.0) then err (too_large (uint32 h.0)) else read_full (uint32 h.0) h.1

pub read_frame : Str → Result (Str × Str)
unfolding read_frame_limit
read_frame r = read_frame_limit max_frame r

-- encoding/json is a pair of functions.
module _ {V : Type 0} (marshal : V → Option Str) (unmarshal : Str → Option V) where
  pub write_json : {S : Type 0} → Writer S → S → V → S × Option Error
  unfolding write_frame
  write_json w s v = elim (marshal v) [ none ↦ (s, some bad_json) | some b ↦ write_frame w s b ]

  pub read_json : Str → Result (V × Str)
  unfolding read_frame
  read_json r = read_frame r >>= λ (f : Str × Str). elim (unmarshal f.0) [
    | none ↦ err bad_json
    | some v ↦ ok (v, f.1)
  ]
