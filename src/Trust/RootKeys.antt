-- ===== src/Trust/RootKeys.antt =====
-- internal/types/rootkeys.go: the keys that sign releases, by the pinned root, and the chain to a
-- manifest. An instant is a number, none the zero time; what a manifest decodes to is a parameter.
pub mod Chain
mod Examples
use geneza.Base.{
  ℕ, Bool, not, Option, none, some, List, [], ◌∷◌, ◌==◌, if◌then◌else◌, Str, bytes, length,
}
use geneza.Base.Int.{ℤ, ltb_ℤ}
use geneza.Trust.Signed.{
  Error, bad_key_size, root_keys_rollback, root_keys_expired, no_signing_keys, Result, ok, err,
  ◌>>=◌, Keys, Verifier, Signed, public_key_size, verify,
}
use geneza.Trust.FleetState.{is_expired, guard, ◌>>◌}

pub record ArtifactKey : Type 0 where
  pub key_id : Str
  pub public_key : Str

pub record RootKeys : Type 0 where
  pub version : ℤ
  pub keys : List ArtifactKey
  pub expires_at : Option ℤ

-- The loop of SigningKeys: a later key of the same id replaces an earlier one.
pub signing_keys_from : Keys → List ArtifactKey → Result Keys
signing_keys_from m [] = ok m
signing_keys_from m (k ∷ ks) =
    let rest = signing_keys_from ((k.key_id, k.public_key) ∷ m) ks in
    if not (length k.public_key == public_key_size) then err bad_key_size else rest

pub some_signing_keys : Keys → Result Keys
some_signing_keys [] = err no_signing_keys
some_signing_keys (k ∷ ks) = ok (k ∷ ks)

pub signing_keys : RootKeys → Result Keys
unfolding signing_keys_from some_signing_keys
signing_keys r = signing_keys_from [] r.keys >>= some_signing_keys

abbrev pub context_root_keys : Str
context_root_keys = bytes "artifact-root"

abbrev pub context_manifest : Str
context_manifest = bytes "artifact-manifest"

-- The checks on root keys that verified: no rollback, and not expired.
pub accept_root_keys : ℤ → ℤ → RootKeys → Result RootKeys
accept_root_keys current now r = do
  guard (not (ltb_ℤ r.version current)) root_keys_rollback
  guard (not (is_expired r.expires_at now)) root_keys_expired
  ok r

module _ (ed_verify : Verifier) (decode_root_keys : Str → Option RootKeys) where
  pub verify_root_keys : Keys → Option Signed → ℤ → ℤ → Result RootKeys
  unfolding accept_root_keys
  verify_root_keys root_trusted s current now = do
    (key_id, r) ← verify ed_verify decode_root_keys root_trusted context_root_keys s
    accept_root_keys current now r

  module _ {M : Type 0} (decode_manifest : Str → Option M) where
    pub verify_artifact_chain : Keys → Option Signed → Option Signed → ℤ → ℤ → Result (RootKeys × M)
    unfolding verify_root_keys signing_keys
    verify_artifact_chain root_trusted root_keys manifest root_version now = do
      rk ← verify_root_keys root_trusted root_keys root_version now
      signers ← signing_keys rk
      (key_id, m) ← verify ed_verify decode_manifest signers context_manifest manifest
      ok (rk, m)
