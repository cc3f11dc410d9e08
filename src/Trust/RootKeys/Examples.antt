-- ===== src/Trust/RootKeys/Examples.antt =====
-- A release that is accepted: the pinned root signs a signing key, and that key the manifest.
use geneza.Base.{refl, true, bytes_eq, Option, some, [], ◌∷◌, bytes, replicate, Str}
use geneza.Base.Int.{pos}
use geneza.Trust.Signed.{find_key, verify, Keys, Verifier, Signed}
use geneza.Trust.FleetState.{is_expired}
use geneza.Trust.RootKeys.{
  RootKeys, verify_artifact_chain, verify_root_keys, accept_root_keys, signing_keys,
  signing_keys_from, some_signing_keys,
}
use geneza.Trust.RootKeys.Chain.{Chained, verify_artifact_chain-Chained}

abbrev accepts : Verifier
accepts pub_key input sig = true

abbrev release_keys : RootKeys
release_keys = record {
  version = pos 4;
  keys = record { key_id = bytes "r"; public_key = replicate 32 2 } ∷ [];
  expires_at = some (pos 100);
}

abbrev decode_root_keys : Str → Option RootKeys
decode_root_keys s = some release_keys

-- The manifest is its text.
abbrev decode_manifest : Str → Option Str
decode_manifest s = some s

abbrev pinned : Keys
pinned = (bytes "root", replicate 32 1) ∷ []

abbrev root_env : Signed
root_env = record { payload = bytes "K"; sig = replicate 64 3; key_id = bytes "root" }

abbrev manifest_env : Signed
manifest_env = record { payload = bytes "v2"; sig = replicate 64 4; key_id = bytes "r" }

verify_artifact_chain-Chained_example :
    Chained accepts decode_root_keys decode_manifest pinned root_env manifest_env
      (pos 3)
      (pos 50)
      release_keys
      (bytes "v2")
unfolding verify_artifact_chain verify_root_keys accept_root_keys signing_keys signing_keys_from
    some_signing_keys find_key bytes_eq verify is_expired
verify_artifact_chain-Chained_example =
    verify_artifact_chain-Chained accepts decode_root_keys decode_manifest pinned root_env
      manifest_env (pos 3) (pos 50) release_keys (bytes "v2") refl
