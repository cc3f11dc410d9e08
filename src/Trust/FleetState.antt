-- ===== src/Trust/FleetState.antt =====
-- internal/types/trustanchors.go: the two-step trust decision of a node on the fleet's state.
-- SHA-256, Ed25519 and encoding/json are parameters; an instant is a number, none the zero time.
pub mod Decision
mod Examples
use geneza.Base.{
  ℕ, Bool, true, false, ◌&&◌, not, Option, none, some, List, [], ◌∷◌, if◌then◌else◌, Str, bytes,
  bytes_eq, length, ◌==◌,
}
use geneza.Base.Int.{ℤ, ltb_ℤ, eqb_ℤ}
use geneza.Trust.Signed.{
  Error, bad_key_size, no_grant_keys, anchor_rollback, anchors_expired, map_rollback,
  wrong_anchor_version, wrong_anchor_digest, Result, ok, err, ◌>>=◌, Keys, Verifier, Signed,
  public_key_size, verify,
}
use geneza.Trust.MultiSigned.{MultiSigned, verify_multi_sig}

pub record GrantKey : Type 0 where
  pub key_id : Str
  pub public_key : Str
  pub workspaces : List Str

-- The fields that the decision reads.
pub record TrustAnchors : Type 0 where
  pub anchor_version : ℤ
  pub grant_keys : List GrantKey
  pub expires_at : Option ℤ

pub record RoutineMap : Type 0 where
  pub config_version : ℤ
  pub anchor_version : ℤ
  pub anchor_digest : Str

pub record FleetState : Type 0 where
  pub anchors : TrustAnchors
  pub map : RoutineMap
  pub anchor_payload : Str

-- The loop of TrustedGrantKeys: a later key of the same id replaces an earlier one.
pub grant_keys_from : Keys → List GrantKey → Result Keys
grant_keys_from m [] = ok m
grant_keys_from m (k ∷ ks) =
    let rest = grant_keys_from ((k.key_id, k.public_key) ∷ m) ks in
    if not (length k.public_key == public_key_size) then err bad_key_size else rest

abbrev nonempty : Keys → Result Keys
nonempty [] = err no_grant_keys
nonempty (k ∷ ks) = ok (k ∷ ks)

pub trusted_grant_keys : TrustAnchors → Result Keys
unfolding grant_keys_from
trusted_grant_keys a = grant_keys_from [] a.grant_keys >>= nonempty

unfoldable pub is_expired : Option ℤ → ℤ → Bool
is_expired none now = false
is_expired (some t) now = ltb_ℤ t now

abbrev pub context_trust_anchors : Str
context_trust_anchors = bytes "trust-anchors"

abbrev pub context_routine_map : Str
context_routine_map = bytes "routine-map"

abbrev pub guard : Bool → Error → Result (Unit {0})
guard passes problem = if passes then ok tt else err problem

infixl 5 ◌>>◌
abbrev pub ◌>>◌ {ν} : {A : Type ν} → Result (Unit {0}) → Result A → Result A
check >> rest = check >>= λ done. rest

-- The checks on the anchors, and the grant keys that they authorize.
pub accept_anchors : ℤ → ℤ → TrustAnchors → Result Keys
unfolding trusted_grant_keys is_expired
accept_anchors held_anchor_version now anchors = do
  guard (not (ltb_ℤ anchors.anchor_version held_anchor_version)) anchor_rollback
  guard (not (is_expired anchors.expires_at now)) anchors_expired
  trusted_grant_keys anchors

-- The checks on the map: its rollback floor, and its binding to exactly these anchors.
pub accept_map : (Str → Str) → ℤ → TrustAnchors → Str → RoutineMap → Result (Unit {0})
accept_map sha256 held_config_version anchors anchor_payload rm = do
  guard (not (ltb_ℤ rm.config_version held_config_version)) map_rollback
  guard (eqb_ℤ rm.anchor_version anchors.anchor_version) wrong_anchor_version
  guard (bytes_eq rm.anchor_digest (sha256 anchor_payload)) wrong_anchor_digest

module _ (ed_verify : Verifier) (sha256 : Str → Str) (decode_anchors : Str → Option TrustAnchors)
    (decode_map : Str → Option RoutineMap) where
  pub verify_fleet_state :
      Keys → ℤ → ℤ → ℤ → Option MultiSigned → Option Signed → ℤ → Result FleetState
  unfolding accept_anchors accept_map
  verify_fleet_state pinned threshold held_anchor held_config anchor_env map_env now = do
    (payload, anchors) ←
        verify_multi_sig ed_verify decode_anchors pinned threshold context_trust_anchors anchor_env
    keys ← accept_anchors held_anchor now anchors
    (key_id, rm) ← verify ed_verify decode_map keys context_routine_map map_env
    accept_map sha256 held_config anchors payload rm
    ok (record { anchors = anchors; map = rm; anchor_payload = payload })
