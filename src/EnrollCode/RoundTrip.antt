-- ===== src/EnrollCode/RoundTrip.antt =====
-- That a code decodes to the fields it was made of.
use geneza.Base.{
  cut_prefix, ◌<◌, ◌≡◌, refl, ap, ◌∙◌, false, some, List, [], ◌∷◌, ◌++◌, ◌==◌, Str, split_on, All,
  arith,
}
use geneza.EnrollCode.Base64.{IsBytes, decode_base64-encode_base64}
use geneza.EnrollCode.{Fields, join, encode, padded, fields_of, decoded, decode_body, decode}

-- Bytes without the separator.
abbrev pub IsField : Str → Type 0
IsField s = All (λ b. (b < 256) × ((b == b';') ≡ false)) s

abbrev pub IsRecord : Fields → Type 0
IsRecord f =
    IsField f.token × IsField f.root_fp × IsField f.http × IsField f.runtime × IsField f.grpc

split_on-whole : (s : Str) → IsField s → split_on b';' s ≡ (s, [])
unfolding split_on
split_on-whole [] h = refl
split_on-whole (b ∷ s) (h, hs) = rw (h.1, split_on-whole s hs) refl

split_on-first :
    (s t : Str)
    → IsField s
    → split_on b';' (s ++ b';' ∷ t) ≡ (s, (split_on b';' t).0 ∷ (split_on b';' t).1)
unfolding split_on
split_on-first [] t h = refl
split_on-first (b ∷ s) t (h, hs) = rw (h.1, split_on-first s t hs) refl

IsBytes-append : (s t : Str) → IsField s → IsBytes t → IsBytes (s ++ b';' ∷ t)
IsBytes-append [] t h k = (omega arith, k)
IsBytes-append (b ∷ s) t (h, hs) k = (h.0, IsBytes-append s t hs k)

IsField-IsBytes : (s : Str) → IsField s → IsBytes s
IsField-IsBytes [] h = tt
IsField-IsBytes (b ∷ s) (h, hs) = (h.0, IsField-IsBytes s hs)

parts : Fields → List Str
parts f = f.token ∷ f.root_fp ∷ f.http ∷ f.runtime ∷ f.grpc ∷ []

split_on-join :
    (f : Fields)
    → IsRecord f
    → split_on b';' (join (parts f)) ≡ (f.token, f.root_fp ∷ f.http ∷ f.runtime ∷ f.grpc ∷ [])
unfolding join parts
split_on-join f (a, b, c, d, e) =
    split_on-first f.token _ a
    ∙ ap (λ r. (f.token, r.0 ∷ r.1))
        (split_on-first f.root_fp _ b
          ∙ ap (λ r. (f.root_fp, r.0 ∷ r.1))
              (split_on-first f.http _ c
                ∙ ap (λ r. (f.http, r.0 ∷ r.1))
                    (split_on-first f.runtime f.grpc d
                      ∙ ap (λ r. (f.runtime, r.0 ∷ r.1)) (split_on-whole f.grpc e))))

join-IsBytes : (f : Fields) → IsRecord f → IsBytes (join (parts f))
unfolding join parts
join-IsBytes f (a, b, c, d, e) = IsBytes-append f.token _ a (
    IsBytes-append f.root_fp _ b
      (IsBytes-append f.http _ c (IsBytes-append f.runtime f.grpc d (IsField-IsBytes f.grpc e))))

-- A code decodes to the fields that it was made of, if they are bytes and none has the separator in it.
pub decode-encode : (f : Fields) → IsRecord f → decode (encode f) ≡ some f
unfolding decode encode cut_prefix decode_body decoded fields_of padded parts
decode-encode f h =
    ap decoded (decode_base64-encode_base64 (join (parts f)) (join-IsBytes f h))
    ∙ ap (λ r. some (fields_of (r.0 ∷ r.1))) (split_on-join f h)
