-- ===== src/Trust/MultiSigned.antt =====
-- internal/types/multisigned.go: a threshold of detached signatures over one payload.
pub mod Quorum
mod Examples
use geneza.Base.{
  ℕ, ◌+◌, Bool, true, false, ◌&&◌, not, Option, none, some, List, [], ◌∷◌, ltb, if◌then◌else◌, Str,
  bytes_eq,
}
use geneza.Base.Int.{ℤ, pos, ltb_ℤ, pos_part}
use geneza.Trust.Signed.{
  Error, nil_envelope, no_quorum, Result, ok, err, ◌>>=◌, Keys, find_key, Verifier, sizes_ok,
  signing_input, decoded,
}

pub record OneSig : Type 0 where
  pub key_id : Str
  pub sig : Str

pub record MultiSigned : Type 0 where
  pub payload : Str
  pub sigs : List OneSig

abbrev pub seen_key : List Str → Str → Bool
seen_key [] k = false
seen_key (j ∷ js) k = if bytes_eq j k then true else seen_key js k

-- `want`
pub required : ℤ → ℕ
required threshold = if ltb_ℤ threshold (pos 1) then 1 else pos_part threshold

module _ (ed_verify : Verifier) where
  pub key_signs : Option Str → Str → Str → Bool
  key_signs none input sig = false
  key_signs (some pub_key) input sig = sizes_ok pub_key sig && ed_verify pub_key input sig

  -- The entry is by a trusted key, of the right sizes, and verifies.
  pub signs : Keys → Str → OneSig → Bool
  unfolding key_signs
  signs trusted input one = key_signs (find_key trusted one.key_id) input one.sig

  -- The loop over s.Sigs, with `seen` and `valid`.
  pub count_valid : Keys → Str → List OneSig → List Str → ℕ → ℕ
  unfolding signs
  count_valid trusted input [] seen valid = valid
  count_valid trusted input (one ∷ rest) seen valid =
      let counts = not (seen_key seen one.key_id) && signs trusted input one in
      count_valid trusted input rest (if counts then one.key_id ∷ seen else seen)
        (if counts then valid + 1 else valid)

  module _ {A : Type 0} (decode : Str → Option A) where
    -- VerifyMultiSig: the exact bytes that were verified, and what they decode to.
    unfoldable pub verify_multi_sig : Keys → ℤ → Str → Option MultiSigned → Result (Str × A)
    unfolding count_valid required
    verify_multi_sig trusted threshold context none = err nil_envelope
    verify_multi_sig trusted threshold context (some s) =
        let valid = count_valid trusted (signing_input context s.payload) s.sigs [] 0 in
        let want = required threshold in
        if ltb valid want
        then err (no_quorum valid want)
        else decoded (decode s.payload) >>= λ a. ok (s.payload, a)
