-- ===== src/Affected/Ecosystem.antt =====
-- internal/affected/ecosystem.go: the parts of an OSV ecosystem, and which components an entry is for.
pub mod Selection
mod Examples
use geneza.Base.{
  split_on, ℕ, ◌≡◌, refl, Bool, true, false, not, ◌&&◌, ◌||◌, List, [], ◌∷◌, ◌++◌, leb, ◌==◌,
  if◌then◌else◌, length, Str, equal_fold, any,
}

pub record EcosystemParts : Type 0 where
  pub family : Str
  pub variants : List Str
  pub release : Str

abbrev is_empty : Str → Bool
is_empty s = length s == 0

trim_v : Str → Str
trim_v [] = []
trim_v (b ∷ s) = if b == b'v' then s else b ∷ s

starts_with_digit : Str → Bool
starts_with_digit [] = false
starts_with_digit (b ∷ s) = leb b'0' b && leb b b'9'

pub looks_like_release : Str → Bool
unfolding trim_v starts_with_digit
looks_like_release token = starts_with_digit (trim_v token)

pub parse_from : EcosystemParts → List Str → EcosystemParts
unfolding looks_like_release
parse_from p [] = p
parse_from p (token ∷ tokens) =
    let rest =
      parse_from
        (record p { variants = if is_empty token then p.variants else p.variants ++ token ∷ [] })
        tokens in
    if looks_like_release token then record p { release = token } else rest

pub parse_ecosystem : Str → EcosystemParts
unfolding parse_from split_on
parse_ecosystem eco =
    let (family, tokens) = split_on b':' eco in
    parse_from (record { family = family; variants = []; release = [] }) tokens

-- Key, and EcosystemKey
pub key : EcosystemParts → Str
key p = if is_empty p.release then p.family else p.family ++ b':' ∷ p.release

pub ecosystem_key : Str → Str
ecosystem_key eco = key (parse_ecosystem eco)

pub has_variant : List Str → Str → Bool
has_variant have want = any (λ h. equal_fold h want) have

pub all_variants : List Str → List Str → Bool
unfolding has_variant
all_variants have [] = true
all_variants have (v ∷ vs) = has_variant have v && all_variants have vs

unfoldable pub ecosystem_applies : Str → Str → Bool
unfolding all_variants
ecosystem_applies advisory component =
    if is_empty advisory
    then true
    else let a = parse_ecosystem advisory in
      let c = parse_ecosystem component in
      if not (equal_fold a.family c.family)
      then false
      else if not (is_empty a.release)
          && not (is_empty c.release)
          && not (equal_fold a.release c.release)
      then false
      else all_variants c.variants a.variants
