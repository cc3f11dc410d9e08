-- ===== src/EnrollCode.antt =====
-- internal/enrollcode/enrollcode.go: the code that install.sh takes, a record in base64 behind a prefix.
pub mod Base64
pub mod RoundTrip
mod Examples
use geneza.Base.{
  ℕ, ◌-◌, Bool, true, false, Option, none, some, List, [], ◌∷◌, ◌++◌, ◌==◌, if◌then◌else◌, length,
  replicate, get_or, Str, bytes, cut_prefix, split_on,
}
use geneza.EnrollCode.Base64.{encode_base64, decode_base64}

pub record Fields : Type 0 where
  pub token : Str
  pub root_fp : Str
  pub http : Str
  pub runtime : Str
  pub grpc : Str

abbrev pub prefix : Str
prefix = bytes "gzk_"

-- strings.Join(parts, ";")
pub join : List Str → Str
join [] = []
join (s ∷ []) = s
join (s ∷ t ∷ ts) = s ++ b';' ∷ join (t ∷ ts)

pub encode : Fields → Str
unfolding join
encode f = prefix ++ encode_base64 (join (f.token ∷ f.root_fp ∷ f.http ∷ f.runtime ∷ f.grpc ∷ []))

-- The parts, and empty ones until there are five.
pub padded : List Str → List Str
padded p = p ++ replicate (5 - length p) []

pub fields_of : List Str → Fields
unfolding padded
fields_of p = record {
  token = get_or (padded p) 0 [];
  root_fp = get_or (padded p) 1 [];
  http = get_or (padded p) 2 [];
  runtime = get_or (padded p) 3 [];
  grpc = get_or (padded p) 4 [];
}

pub decoded : Option Str → Option Fields
unfolding fields_of
decoded none = none
decoded (some raw) = let (first, rest) = split_on b';' raw in some (fields_of (first ∷ rest))

pub decode_body : Option Str → Option Fields
unfolding decoded
decode_body none = none
decode_body (some body) = decoded (decode_base64 body)

pub decode : Str → Option Fields
unfolding cut_prefix decode_body
decode code = decode_body (cut_prefix code prefix)
