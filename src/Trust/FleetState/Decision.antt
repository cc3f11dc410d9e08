-- ===== src/Trust/FleetState/Decision.antt =====
-- What an accepted fleet state guarantees.
use geneza.Base.{
  sym, Any-mono, subst, ◌≡◌, refl, ap, ◌∙◌, ◌⊎◌, inl, inr, Bool, true, false, not, Option, some,
  List, [], ◌∷◌, arith, Str, bytes_eq, bytes_eq_iff, Any,
}
use geneza.Base.Int.{ℤ, ◌≤ℤ◌, ltb_ℤ, eqb_ℤ, eqb_ℤ_iff}
use geneza.Trust.Signed.{
  Error, Result, ok, anchor_rollback, anchors_expired, map_rollback, wrong_anchor_version,
  >>=-eq-ok, Keys, Verifier, Signed, find_key, signing_input, verify, verify-Verified,
}
use geneza.Trust.MultiSigned.{MultiSigned, required, verify_multi_sig}
use geneza.Trust.MultiSigned.Quorum.{IsQuorum, verify_multi_sig_iff}
use geneza.Trust.FleetState.{
  wrong_anchor_digest, GrantKey, TrustAnchors, RoutineMap, FleetState, nonempty, grant_keys_from,
  trusted_grant_keys, is_expired, context_trust_anchors, context_routine_map, guard, ◌>>◌,
  accept_anchors, accept_map, verify_fleet_state,
}

guard-ok : (b : Bool) (e : Error) → guard b e ≡ ok tt → b ≡ true
guard-ok true e h = refl
guard-ok false e h = cc h

pub ok-injective {ℓ} : {A : Type ℓ} (a b : A) → ok a ≡ ok b → a ≡ b
ok-injective a b h = cc h

pub guard-then {ℓ} :
    {B : Type ℓ} (b : Bool) (e : Error) (k : Result B) (x : B)
    → (guard b e >> k) ≡ ok x
    → (b ≡ true) × (k ≡ ok x)
guard-then true e k x h = (refl, h)
guard-then false e k x h = cc h

-- A key that the loop finds is one of the anchors', or was there before.
grant_keys_from_sound :
    (m : Keys) (ks : List GrantKey) (found : Keys) (id pub_key : Str)
    → grant_keys_from m ks ≡ ok found
    → find_key found id ≡ some pub_key
    → (find_key m id ≡ some pub_key) ⊎ Any (λ k. (k.key_id ≡ id) × (k.public_key ≡ pub_key)) ks
unfolding grant_keys_from find_key
grant_keys_from_sound m [] found id pub_key h f = inl (ground arith)
grant_keys_from_sound m (k ∷ ks) found id pub_key h f =
    let later =
      grant_keys_from_sound ((k.key_id, k.public_key) ∷ m) ks found id pub_key (ground arith) f in
    ground (arith, later, bytes_eq_iff k.key_id id)

nonempty-ok : (m found : Keys) → nonempty m ≡ ok found → m ≡ found
nonempty-ok [] found h = cc h
nonempty-ok (k ∷ ks) found h = ground arith

trusted_grant_keys_sound :
    (a : TrustAnchors) (found : Keys) (id pub_key : Str)
    → trusted_grant_keys a ≡ ok found
    → find_key found id ≡ some pub_key
    → Any (λ k. (k.key_id ≡ id) × (k.public_key ≡ pub_key)) a.grant_keys
unfolding trusted_grant_keys find_key
trusted_grant_keys_sound a found id pub_key h f =
    let (m, whole, some_key) = >>=-eq-ok (grant_keys_from [] a.grant_keys) nonempty h in
    let same = nonempty-ok m found some_key in
    elim (grant_keys_from_sound [] a.grant_keys found id pub_key (whole ∙ ap ok same) f) [
      | inl nothing ↦ cc nothing
      | inr key ↦ key
    ]

pub record Trusted (ed_verify : Verifier) (sha256 : Str → Str)
    (decode_anchors : Str → Option TrustAnchors) (decode_map : Str → Option RoutineMap)
    (pinned : Keys) (threshold held_anchor held_config : ℤ) (anchor_env : MultiSigned)
    (map_env : Signed) (now : ℤ) (fs : FleetState) : Type 0 where
  pub quorum :
      IsQuorum ed_verify pinned
        (signing_input context_trust_anchors anchor_env.payload)
        anchor_env.sigs
        (required threshold)
  pub same_payload : fs.anchor_payload ≡ anchor_env.payload
  pub anchors_parsed : decode_anchors anchor_env.payload ≡ some fs.anchors
  pub no_anchor_rollback : held_anchor ≤ℤ fs.anchors.anchor_version
  pub not_expired : (t : ℤ) → fs.anchors.expires_at ≡ some t → now ≤ℤ t
  pub authorized :
      Any
        (λ k.
          (k.key_id ≡ map_env.key_id)
          × (ed_verify k.public_key (signing_input context_routine_map map_env.payload) map_env.sig
              ≡ true))
        fs.anchors.grant_keys
  pub map_parsed : decode_map map_env.payload ≡ some fs.map
  pub no_map_rollback : held_config ≤ℤ fs.map.config_version
  pub bound_version : fs.map.anchor_version ≡ fs.anchors.anchor_version
  pub bound_digest : fs.map.anchor_digest ≡ sha256 anchor_env.payload

accept_anchors_sound :
    (held now : ℤ) (a : TrustAnchors) (keys : Keys)
    → accept_anchors held now a ≡ ok keys
    → (held ≤ℤ a.anchor_version)
      × ((t : ℤ) → a.expires_at ≡ some t → now ≤ℤ t)
      × (trusted_grant_keys a ≡ ok keys)
unfolding accept_anchors
accept_anchors_sound held now a keys h =
    let (newer, h') = guard-then (not (ltb_ℤ a.anchor_version held)) anchor_rollback _ keys h in
    let (fresh, h'') = guard-then (not (is_expired a.expires_at now)) anchors_expired _ keys h' in
    (ground arith, λ t e. ground arith, h'')

accept_map_sound :
    (sha256 : Str → Str) (held : ℤ) (a : TrustAnchors) (payload : Str) (rm : RoutineMap)
    → accept_map sha256 held a payload rm ≡ ok tt
    → (held ≤ℤ rm.config_version)
      × (rm.anchor_version ≡ a.anchor_version)
      × (rm.anchor_digest ≡ sha256 payload)
unfolding accept_map
accept_map_sound sha256 held a payload rm h =
    let (newer, h') = guard-then (not (ltb_ℤ rm.config_version held)) map_rollback _ tt h in
    let (version, h'') =
      guard-then (eqb_ℤ rm.anchor_version a.anchor_version) wrong_anchor_version _ tt h' in
    (
      ground arith,
      (eqb_ℤ_iff rm.anchor_version a.anchor_version).0 version,
      (bytes_eq_iff rm.anchor_digest (sha256 payload)).0
          (guard-ok (bytes_eq rm.anchor_digest (sha256 payload)) wrong_anchor_digest h''),
    )

module _ (ed_verify : Verifier) (sha256 : Str → Str) (decode_anchors : Str → Option TrustAnchors)
    (decode_map : Str → Option RoutineMap) where
  -- A pair that the node accepts is trusted: a quorum of the pinned keys signed these anchors, the
  -- anchors have not been rolled back and have not expired, a grant key that they authorize signed
  -- this map, the map has not been rolled back, and it is bound to exactly these anchors by version
  -- and digest.
  pub verify_fleet_state-Trusted :
      (pinned : Keys) (threshold held_anchor held_config : ℤ) (anchor_env : MultiSigned)
      (map_env : Signed) (now : ℤ) (fs : FleetState)
      → verify_fleet_state ed_verify sha256 decode_anchors decode_map pinned threshold held_anchor
          held_config
          (some anchor_env)
          (some map_env)
          now
        ≡ ok fs
      → Trusted ed_verify sha256 decode_anchors decode_map pinned threshold held_anchor held_config
          anchor_env map_env now fs
  unfolding verify_fleet_state
  verify_fleet_state-Trusted pinned threshold held_anchor held_config anchor_env map_env now fs h =
      let ((payload, anchors), e1, h1) =
        >>=-eq-ok
          (verify_multi_sig ed_verify decode_anchors pinned threshold context_trust_anchors
            (some anchor_env))
          _ h in
      let (keys, e2, h2) = >>=-eq-ok (accept_anchors held_anchor now anchors) _ h1 in
      let ((key_id, rm), e3, h3) =
        >>=-eq-ok (verify ed_verify decode_map keys context_routine_map (some map_env)) _ h2 in
      let (done, e4, h4) = >>=-eq-ok (accept_map sha256 held_config anchors payload rm) _ h3 in
      let same = ok-injective _ fs h4 in
      let (quorum, exact, parsed) =
        (verify_multi_sig_iff ed_verify decode_anchors pinned threshold context_trust_anchors
            anchor_env payload anchors).0
          e1 in
      let (newer, fresh, grant) = accept_anchors_sound held_anchor now anchors keys e2 in
      let signer =
        verify-Verified ed_verify decode_map keys context_routine_map map_env key_id rm e3 in
      let (config, version, digest) = accept_map_sound sha256 held_config anchors payload rm e4 in
      subst
        (Trusted ed_verify sha256 decode_anchors decode_map pinned threshold held_anchor held_config
          anchor_env map_env now)
        same
        (record {
          quorum = quorum;
          same_payload = exact;
          anchors_parsed = parsed;
          no_anchor_rollback = newer;
          not_expired = fresh;
          authorized =
              Any-mono
                (λ k p. (
                  p.0,
                  subst
                      (λ q.
                        ed_verify q (signing_input context_routine_map map_env.payload) map_env.sig
                        ≡ true)
                      (sym p.1) signer.signed,
                ))
                anchors.grant_keys
                (trusted_grant_keys_sound anchors keys map_env.key_id signer.pub_key grant
                  signer.found);
          map_parsed = signer.parsed;
          no_map_rollback = config;
          bound_version = version;
          bound_digest = digest ∙ ap sha256 exact;
        })
