-- ===== src/Trust/Signed.antt =====
-- internal/types/signed.go: one detached signature over the exact payload bytes.
-- Ed25519 and encoding/json are parameters. A map of keys is an association list, read by its first
-- entry of a key.
use geneza.Base.{
  arith, ℕ, ◌≡◌, refl, Bool, true, ◌&&◌, not, Option, none, some, List, [], ◌∷◌, ◌++◌, ◌==◌,
  if◌then◌else◌, length, Str, bytes, bytes_eq,
}

pub record Signed : Type 0 where
  pub payload : Str
  pub sig : Str
  pub key_id : Str

pub data Error : Type 0 where
  nil_envelope unknown_key bad_signature bad_payload : Error
  -- how many valid signatures there are, and how many are required
  no_quorum : ℕ → ℕ → Error
  anchor_rollback anchors_expired bad_key_size no_grant_keys map_rollback wrong_anchor_version
        wrong_anchor_digest root_keys_rollback root_keys_expired no_signing_keys :
      Error

pub data Result {ℓ} (A : Type ℓ) : Type ℓ where
  err : Error → Result A
  ok : A → Result A

infixl 5 ◌>>=◌
-- An error ends the computation.
abbrev pub ◌>>=◌ {ℓ ν} : {A : Type ℓ} {B : Type ν} → Result A → (A → Result B) → Result B
err problem >>= next = err problem
ok value >>= next = next value

-- A bind that succeeds comes from two successes.
pub >>=-eq-ok {ℓ ν} :
    {A : Type ℓ} {B : Type ν} (first : Result A) (next : A → Result B) {result : B}
    → ◌>>=◌ first next ≡ ok result
    → (value : A) × (first ≡ ok value) × (next value ≡ ok result)
>>=-eq-ok (err problem) next h = cc
>>=-eq-ok (ok value) next h = (value, refl, h)

abbrev pub Keys : Type 0
Keys = List (Str × Str)

unfoldable pub find_key : Keys → Str → Option Str
find_key [] k = none
find_key ((j, pub_key) ∷ m) k = if bytes_eq j k then some pub_key else find_key m k

abbrev pub public_key_size : ℕ
public_key_size = 32

abbrev pub signature_size : ℕ
signature_size = 64

unfoldable pub signing_input : Str → Str → Str
signing_input context payload = bytes "geneza:" ++ context ++ bytes ":" ++ payload

-- ed25519.Verify(pub, message, sig)
abbrev pub Verifier : Type 0
Verifier = Str → Str → Str → Bool

abbrev pub sizes_ok : Str → Str → Bool
sizes_ok pub_key sig = length pub_key == public_key_size && length sig == signature_size

-- `out` is filled in by json.Unmarshal, or that fails.
abbrev pub decoded {ℓ} : {A : Type ℓ} → Option A → Result A
decoded none = err bad_payload
decoded (some a) = ok a

module _ {A : Type 0} (ed_verify : Verifier) (decode : Str → Option A) where
  check_signed : Str → Signed → Str → Result (Str × A)
  check_signed context s pub_key =
      if not (sizes_ok pub_key s.sig)
      then err bad_signature
      else if not (ed_verify pub_key (signing_input context s.payload) s.sig)
      then err bad_signature
      else decoded (decode s.payload) >>= λ a. ok (s.key_id, a)

  with_key : Str → Signed → Option Str → Result (Str × A)
  unfolding check_signed
  with_key context s none = err unknown_key
  with_key context s (some pub_key) = check_signed context s pub_key

  -- Verify: the key id that verified, and the payload.
  unfoldable pub verify : Keys → Str → Option Signed → Result (Str × A)
  unfolding with_key
  verify trusted context none = err nil_envelope
  verify trusted context (some s) = with_key context s (find_key trusted s.key_id)

  -- VerifyOne, against one pinned key; an empty key id asks for no match.
  unfoldable pub verify_one : Str → Str → Str → Option Signed → Result A
  verify_one pub_key key_id context none = err nil_envelope
  verify_one pub_key key_id context (some s) =
      if not (sizes_ok pub_key s.sig)
      then err bad_signature
      else if not (bytes_eq key_id []) && not (bytes_eq s.key_id key_id)
      then err unknown_key
      else if not (ed_verify pub_key (signing_input context s.payload) s.sig)
      then err bad_signature
      else decoded (decode s.payload)

  -- The envelope has a trusted key of the right size, whose signature over the context and the
  -- payload verifies, and the payload decodes.
  pub record Verified (trusted : Keys) (context : Str) (s : Signed) (key_id : Str) (a : A)
      : Type 0 where
    pub pub_key : Str
    pub found : find_key trusted s.key_id ≡ some pub_key
    pub signed : ed_verify pub_key (signing_input context s.payload) s.sig ≡ true
    pub named : key_id ≡ s.key_id
    pub parsed : decode s.payload ≡ some a

  parsed_signed :
      (key_id k : Str) (o : Option A) (a : A)
      → ◌>>=◌ {B = Str × A} (decoded o) (λ b. ok (key_id, b)) ≡ ok (k, a)
      → (k ≡ key_id) × (o ≡ some a)
  parsed_signed key_id k none a h = cc
  parsed_signed key_id k (some b) a h = ground arith

  with_key-Verified :
      (trusted : Keys) (context : Str) (s : Signed) (o : Option Str) (key_id : Str) (a : A)
      → find_key trusted s.key_id ≡ o
      → with_key context s o ≡ ok (key_id, a)
      → Verified trusted context s key_id a
  unfolding with_key
  with_key-Verified trusted context s none key_id a e h = cc h
  with_key-Verified trusted context s (some pub_key) key_id a e h =
      let parts = parsed_signed s.key_id key_id (decode s.payload) a in
      let signed : ed_verify pub_key (signing_input context s.payload) s.sig ≡ true =
        ground arith in
      let rest = parts (ground arith) in
      record { pub_key = pub_key; found = e; signed = signed; named = rest.0; parsed = rest.1 }

  pub verify-Verified :
      (trusted : Keys) (context : Str) (s : Signed) (key_id : Str) (a : A)
      → verify trusted context (some s) ≡ ok (key_id, a)
      → Verified trusted context s key_id a
  unfolding verify
  verify-Verified trusted context s key_id a h =
      with_key-Verified trusted context s (find_key trusted s.key_id) key_id a refl h
