-- ===== src/Trust/RootKeys/Chain.antt =====
-- What an accepted chain from the pinned root to a manifest guarantees.
use geneza.Base.{
  sym, Any-mono, subst, ◌≡◌, ap, ◌∙◌, ◌⊎◌, inl, inr, true, not, Option, some, List, [], ◌∷◌, arith,
  Str, bytes_eq_iff, Any,
}
use geneza.Base.Int.{ℤ, ◌≤ℤ◌, ltb_ℤ}
use geneza.Trust.Signed.{
  ok, root_keys_rollback, root_keys_expired, >>=-eq-ok, Keys, Verifier, Signed, find_key,
  signing_input, verify, verify-Verified,
}
use geneza.Trust.FleetState.{is_expired}
use geneza.Trust.FleetState.Decision.{ok-injective, guard-then}
use geneza.Trust.RootKeys.{
  ArtifactKey, RootKeys, signing_keys_from, some_signing_keys, signing_keys, context_root_keys,
  context_manifest, accept_root_keys, verify_root_keys, verify_artifact_chain,
}

-- A key that the loop finds is one that is listed, or was there before.
signing_keys_from_sound :
    (m : Keys) (ks : List ArtifactKey) (found : Keys) (id pub_key : Str)
    → signing_keys_from m ks ≡ ok found
    → find_key found id ≡ some pub_key
    → (find_key m id ≡ some pub_key) ⊎ Any (λ k. (k.key_id ≡ id) × (k.public_key ≡ pub_key)) ks
unfolding signing_keys_from find_key
signing_keys_from_sound m [] found id pub_key h f = inl (ground arith)
signing_keys_from_sound m (k ∷ ks) found id pub_key h f =
    let later =
      signing_keys_from_sound ((k.key_id, k.public_key) ∷ m) ks found id pub_key (ground arith) f in
    ground (arith, later, bytes_eq_iff k.key_id id)

some_signing_keys-ok : (m found : Keys) → some_signing_keys m ≡ ok found → m ≡ found
unfolding some_signing_keys
some_signing_keys-ok [] found h = cc h
some_signing_keys-ok (k ∷ ks) found h = ground arith

signing_keys_sound :
    (r : RootKeys) (found : Keys) (id pub_key : Str)
    → signing_keys r ≡ ok found
    → find_key found id ≡ some pub_key
    → Any (λ k. (k.key_id ≡ id) × (k.public_key ≡ pub_key)) r.keys
unfolding signing_keys find_key
signing_keys_sound r found id pub_key h f =
    let (m, whole, some_key) = >>=-eq-ok (signing_keys_from [] r.keys) some_signing_keys h in
    let same = some_signing_keys-ok m found some_key in
    elim (signing_keys_from_sound [] r.keys found id pub_key (whole ∙ ap ok same) f) [
      | inl nothing ↦ cc nothing
      | inr key ↦ key
    ]

accept_root_keys_sound :
    (current now : ℤ) (r rk : RootKeys)
    → accept_root_keys current now r ≡ ok rk
    → (current ≤ℤ r.version) × ((t : ℤ) → r.expires_at ≡ some t → now ≤ℤ t) × (r ≡ rk)
unfolding accept_root_keys is_expired
accept_root_keys_sound current now r rk h =
    let (newer, h') = guard-then (not (ltb_ℤ r.version current)) root_keys_rollback _ rk h in
    let (fresh, h'') = guard-then (not (is_expired r.expires_at now)) root_keys_expired _ rk h' in
    (ground arith, λ t e. ground arith, ok-injective r rk h'')

pub record Chained (ed_verify : Verifier) (decode_root_keys : Str → Option RootKeys) {M : Type 0}
    (decode_manifest : Str → Option M) (root_trusted : Keys) (root_env manifest_env : Signed)
    (current now : ℤ) (rk : RootKeys) (m : M) : Type 0 where
  pub root_key : Str
  pub pinned : find_key root_trusted root_env.key_id ≡ some root_key
  pub root_signed :
      ed_verify root_key (signing_input context_root_keys root_env.payload) root_env.sig ≡ true
  pub root_parsed : decode_root_keys root_env.payload ≡ some rk
  pub no_rollback : current ≤ℤ rk.version
  pub not_expired : (t : ℤ) → rk.expires_at ≡ some t → now ≤ℤ t
  pub authorized :
      Any
        (λ k.
          (k.key_id ≡ manifest_env.key_id)
          × (ed_verify k.public_key
                (signing_input context_manifest manifest_env.payload)
                manifest_env.sig
              ≡ true))
        rk.keys
  pub manifest_parsed : decode_manifest manifest_env.payload ≡ some m

module _ (ed_verify : Verifier) (decode_root_keys : Str → Option RootKeys) {M : Type 0}
    (decode_manifest : Str → Option M) where
  -- A release that passes the chain is trusted: a pinned root key signed the root keys, which are no
  -- older than those that the node has accepted and have not expired, and a key that they list signed
  -- this manifest. A manifest that the root signed itself passes only if the root keys list that key.
  pub verify_artifact_chain-Chained :
      (root_trusted : Keys) (root_env manifest_env : Signed) (current now : ℤ) (rk : RootKeys)
      (m : M)
      → verify_artifact_chain ed_verify decode_root_keys decode_manifest root_trusted
          (some root_env)
          (some manifest_env)
          current
          now
        ≡ ok (rk, m)
      → Chained ed_verify decode_root_keys decode_manifest root_trusted root_env manifest_env
          current now rk m
  unfolding verify_artifact_chain verify_root_keys
  verify_artifact_chain-Chained root_trusted root_env manifest_env current now rk m h =
      let (rk', e1, h1) =
        >>=-eq-ok
          (verify_root_keys ed_verify decode_root_keys root_trusted (some root_env) current now) _
          h in
      let (signers, e2, h2) = >>=-eq-ok (signing_keys rk') _ h1 in
      let ((key_id, m'), e3, h3) =
        >>=-eq-ok (verify ed_verify decode_manifest signers context_manifest (some manifest_env)) _
          h2 in
      let ((root_id, r), e4, h4) =
        >>=-eq-ok (verify ed_verify decode_root_keys root_trusted context_root_keys (some root_env))
          _ e1 in
      let root =
        verify-Verified ed_verify decode_root_keys root_trusted context_root_keys root_env root_id r
          e4 in
      let signer =
        verify-Verified ed_verify decode_manifest signers context_manifest manifest_env key_id m'
          e3 in
      let (newer, fresh, taken) = accept_root_keys_sound current now r rk' h4 in
      let same = ok-injective (rk', m') (rk, m) h3 in
      let q : r ≡ rk = taken ∙ ap (λ p. p.0) same in
      record {
        root_key = root.pub_key;
        pinned = root.found;
        root_signed = root.signed;
        root_parsed = root.parsed ∙ ap some q;
        no_rollback = subst (λ (k : RootKeys). current ≤ℤ k.version) q newer;
        not_expired = λ t e. fresh t (ap (λ (k : RootKeys). k.expires_at) q ∙ e);
        authorized =
            Any-mono
              (λ k p. (
                p.0,
                subst
                    (λ key.
                      ed_verify key (signing_input context_manifest manifest_env.payload)
                        manifest_env.sig
                      ≡ true)
                    (sym p.1) signer.signed,
              ))
              rk.keys
              (subst
                (λ (k : RootKeys).
                  Any (λ a. (a.key_id ≡ manifest_env.key_id) × (a.public_key ≡ signer.pub_key))
                    k.keys)
                (ap (λ p. p.0) same)
                (signing_keys_sound rk' signers manifest_env.key_id signer.pub_key e2
                  signer.found));
        manifest_parsed = signer.parsed ∙ ap some (ap (λ p. p.1) same);
      }
