-- ===== src/Affected/Ecosystem/Examples.antt =====
-- An advisory of an LTS release, and a host of that release.
use geneza.Base.{split_on, bytes_eq, ◌≡◌, refl, true, bytes, equal_fold}
use geneza.Affected.Ecosystem.{
  parse_ecosystem, parse_from, looks_like_release, trim_v, starts_with_digit, ecosystem_key,
  ecosystem_applies, all_variants,
}
use geneza.Affected.Ecosystem.Selection.{ecosystem_applies-key}

ecosystem_applies-key_lts :
    equal_fold (ecosystem_key (bytes "Ubuntu:22.04:LTS")) (ecosystem_key (bytes "Ubuntu:22.04"))
    ≡ true
unfolding split_on parse_from looks_like_release trim_v starts_with_digit parse_ecosystem equal_fold
    bytes_eq ecosystem_applies all_variants
ecosystem_applies-key_lts =
    ecosystem_applies-key (bytes "Ubuntu:22.04:LTS") (bytes "Ubuntu:22.04") refl refl refl
