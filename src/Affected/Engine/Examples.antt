-- ===== src/Affected/Engine/Examples.antt =====
-- An Ubuntu package and its advisories, with versions of one digit.
use geneza.Base.{
  ◌≡◌, refl, subst, false, Option, none, some, List, [], ◌∷◌, ◌==◌, ltb, if◌then◌else◌, Str, bytes,
  bytes_eq, equal_fold, Distinct, any,
}
use mathlib.Core.Option.{some-injective}
use geneza.Base.Int.{ℤ, pos, negsuc}
use geneza.Policy.Engine.{sort_strings}
use geneza.Affected.Ecosystem.{ecosystem_applies}
use geneza.Affected.Engine.{
  then_more, first_cve, primary_id, with_vex, final_fix, final_status, weigh, compare_version,
  found_status, opened, on_fixed, on_introduced, on_event, sweep, with_range, with_ranges,
  eval_affected, weigh_all, has_distro_suffix, distro_entries, name_matches, applying, judged, keep,
  match_named, is_affected, Comparison, Component, Vulnerability, AffectedEntry, Match, eval_range,
  in_vuln_window, cmp, match_one, match_names, lookup_names, select_affected,
}
use geneza.Affected.Engine.Windows.{
  Window, events, located, first_inside, last_past, in_last, Readable, eval_range-located,
}
use geneza.Affected.Engine.Verdicts.{status_of, ranked_status, match_one-ranked}
use geneza.Affected.Engine.Lookup.{ids, match_names-once}

compare_digits : Str → Str → Option ℤ
compare_digits (a ∷ []) (b ∷ []) =
    some (if a == b then pos 0 else if ltb a b then negsuc 0 else pos 1)
compare_digits _ _ = none

abbrev by_digit : Comparison
by_digit eco a b = compare_digits a b

abbrev jammy : Str
jammy = bytes "Ubuntu:22.04"

abbrev windows : List Window
windows = (bytes "1", bytes "2") ∷ (bytes "3", bytes "4") ∷ []

-- The version is past both windows and in the last one, which has no fix.
eval_range-located_example :
    let e =
      eval_range by_digit jammy
        (bytes "6")
        (events by_digit jammy (bytes "6") windows (some (bytes "5"))) in
    (e.state ≡ in_vuln_window) × (e.fixed_at ≡ bytes "4") × (e.unknown ≡ false)
unfolding located first_inside last_past in_last cmp compare_digits bytes_eq Readable
eval_range-located_example =
    eval_range-located by_digit jammy (bytes "6") windows (some (bytes "5"))
      (((refl, refl), (refl, refl)), (((refl, refl), (refl, refl)), tt))
      (λ b e.
        subst (Readable by_digit jammy (bytes "6")) (some-injective (bytes "5") b e) (refl, refl))

-- libssl3, a binary of the source package openssl.
abbrev libssl : Component
libssl = record {
  purl = bytes "pkg:deb/ubuntu/libssl3@1";
  ecosystem = jammy;
  name = bytes "libssl3";
  version = bytes "1";
  source_name = bytes "openssl";
  source_version = bytes "1";
}

abbrev openssl_fixed_at : Str → AffectedEntry
openssl_fixed_at fix = record {
  ecosystem = [];
  name = bytes "openssl";
  ranges =
      record {
        kind = bytes "ECOSYSTEM";
        events =
            record { introduced = bytes "0"; fixed = [] }
            ∷ record { introduced = []; fixed = fix }
            ∷ [];
      }
      ∷ [];
  versions = [];
}

abbrev advisory : Vulnerability
advisory = record {
  id = bytes "USN-1";
  aliases = [];
  affected = openssl_fixed_at (bytes "1") ∷ openssl_fixed_at (bytes "2") ∷ [];
  severity = bytes "high";
}

match_one-ranked_example :
    status_of by_digit none libssl advisory (match_one by_digit none libssl advisory)
    ≡ ranked_status by_digit none libssl advisory (select_affected libssl advisory)
match_one-ranked_example = match_one-ranked by_digit none libssl advisory

abbrev feed : Str → Str → Option (List Vulnerability)
feed eco name = some (advisory ∷ [])

abbrev verdict : Match
verdict = record {
  component = libssl;
  cve = bytes "USN-1";
  status = is_affected;
  advisory_id = bytes "USN-1";
  fixed_version = bytes "2";
  severity = bytes "high";
  vex_justification = [];
}

match_names-once_feed : Distinct (ids (verdict ∷ []))
unfolding match_names match_named match_one lookup_names keep judged select_affected applying
    name_matches distro_entries has_distro_suffix weigh_all eval_affected with_ranges with_range
    eval_range sweep on_event on_introduced on_fixed opened found_status compare_version weigh
    final_status final_fix with_vex primary_id first_cve sort_strings equal_fold bytes_eq any
    ecosystem_applies then_more cmp compare_digits
match_names-once_feed = match_names-once by_digit none feed libssl (verdict ∷ []) refl
