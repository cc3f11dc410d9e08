-- ===== src/Trust/MultiSigned/Examples.antt =====
-- An envelope that two keys sign, with a verifier that accepts every signature of the right size.
use geneza.Base.{◌≡◌, true, Option, some, [], ◌∷◌, bytes, replicate, Str, ◌↔◌}
use geneza.Base.Int.{pos}
use geneza.Trust.Signed.{Keys, Verifier, ok, signing_input}
use geneza.Trust.MultiSigned.{MultiSigned, required, verify_multi_sig}
use geneza.Trust.MultiSigned.Quorum.{IsQuorum, verify_multi_sig_iff}

abbrev accepts : Verifier
accepts pub_key input sig = true

abbrev decode_any : Str → Option Str
decode_any payload = some payload

abbrev two_keys : Keys
two_keys = (bytes "a", replicate 32 1) ∷ (bytes "b", replicate 32 2) ∷ []

abbrev twice_signed : MultiSigned
twice_signed = record {
  payload = bytes "{}";
  sigs =
      record { key_id = bytes "a"; sig = replicate 64 3 }
      ∷ record { key_id = bytes "b"; sig = replicate 64 4 }
      ∷ [];
}

verify_multi_sig_iff_example :
    (verify_multi_sig accepts decode_any two_keys (pos 2) (bytes "c") (some twice_signed)
      ≡ ok (bytes "{}", bytes "{}"))
    ↔ (IsQuorum accepts two_keys
          (signing_input (bytes "c") (bytes "{}"))
          twice_signed.sigs
          (required (pos 2))
        × (bytes "{}" ≡ bytes "{}")
        × (decode_any (bytes "{}") ≡ some (bytes "{}")))
verify_multi_sig_iff_example =
    verify_multi_sig_iff accepts decode_any two_keys (pos 2) (bytes "c") twice_signed (bytes "{}")
      (bytes "{}")
