-- ===== src/Trust/FleetState/Examples.antt =====
-- A fleet state that is accepted: the anchors are signed by the pinned key, the map by their grant
-- key.
use geneza.Base.{refl, true, bytes_eq, Option, some, [], ◌∷◌, bytes, replicate, Str}
use geneza.Base.Int.{pos}
use geneza.Trust.Signed.{find_key, verify, Keys, Verifier, Signed}
use geneza.Trust.MultiSigned.{verify_multi_sig, MultiSigned}
use geneza.Trust.FleetState.{TrustAnchors, RoutineMap, FleetState, verify_fleet_state}
use geneza.Trust.FleetState.Decision.{Trusted, verify_fleet_state-Trusted}

abbrev accepts : Verifier
accepts pub_key input sig = true

-- The digest is the text itself.
abbrev no_hash : Str → Str
no_hash s = s

abbrev anchors : TrustAnchors
anchors = record {
  anchor_version = pos 3;
  grant_keys = record { key_id = bytes "g"; public_key = replicate 32 2; workspaces = [] } ∷ [];
  expires_at = some (pos 100);
}

abbrev routine_map : RoutineMap
routine_map = record { config_version = pos 7; anchor_version = pos 3; anchor_digest = bytes "A" }

abbrev decode_anchors : Str → Option TrustAnchors
decode_anchors s = some anchors

abbrev decode_map : Str → Option RoutineMap
decode_map s = some routine_map

abbrev pinned : Keys
pinned = (bytes "a", replicate 32 1) ∷ []

abbrev anchor_env : MultiSigned
anchor_env = record {
  payload = bytes "A";
  sigs = record { key_id = bytes "a"; sig = replicate 64 3 } ∷ [];
}

abbrev map_env : Signed
map_env = record { payload = bytes "M"; sig = replicate 64 4; key_id = bytes "g" }

abbrev accepted : FleetState
accepted = record { anchors = anchors; map = routine_map; anchor_payload = bytes "A" }

verify_fleet_state-Trusted_example :
    Trusted accepts no_hash decode_anchors decode_map pinned
      (pos 1)
      (pos 2)
      (pos 7)
      anchor_env
      map_env
      (pos 50)
      accepted
unfolding verify_fleet_state verify_multi_sig find_key bytes_eq verify
verify_fleet_state-Trusted_example =
    verify_fleet_state-Trusted accepts no_hash decode_anchors decode_map pinned (pos 1) (pos 2)
      (pos 7) anchor_env map_env (pos 50) accepted refl
