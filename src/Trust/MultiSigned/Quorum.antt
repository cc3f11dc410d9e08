-- ===== src/Trust/MultiSigned/Quorum.antt =====
-- An accepted envelope has a quorum of distinct pinned signers, and every quorum is accepted.
use geneza.Base.{
  ℕ, ◌+◌, ◌≤◌, ◌≡◌, refl, sym, subst, ◌↔◌, ◌⊎◌, inl, inr, true, Option, none, some, List, [], ◌∷◌,
  arith, ltb, if◌then◌else◌, Str, bytes_eq, bytes_eq_iff, length, Any, In, Distinct,
  length-Distinct, Bool-cases,
}
use geneza.Base.Int.{ℤ}
use geneza.Trust.Signed.{no_quorum, Result, ok, err, Keys, Verifier, signing_input, decoded, ◌>>=◌}
use geneza.Trust.MultiSigned.{
  OneSig, MultiSigned, seen_key, required, signs, count_valid, verify_multi_sig,
}

seen_key_iff : (js : List Str) (k : Str) → (seen_key js k ≡ true) ↔ In k js
seen_key_iff [] k = ground arith
seen_key_iff (j ∷ js) k =
    let head = bytes_eq_iff j k in
    elim (Bool-cases (bytes_eq j k)) [
      | inl e ↦ rw e (λ _. inl (sym (head.0 e)), λ _. refl)
      | inr e ↦ rw e (
        λ h. inr ((seen_key_iff js k).0 h),
        λ h. elim h [ inl q ↦ cc (e, head.1 (sym q)) | inr m ↦ (seen_key_iff js k).1 m ],
      )
    ]

module _ (ed_verify : Verifier) (trusted : Keys) (input : Str) where
  -- Some entry of the list is a valid signature by the key.
  abbrev pub Signer : List OneSig → Str → Type 0
  Signer sigs k = Any (λ one. (one.key_id ≡ k) × (signs ed_verify trusted input one ≡ true)) sigs

  -- The distinct signers that the loop has found.
  record Counts (sigs : List OneSig) (seen : List Str) (valid total : ℕ) : Type 0 where
    signers : List Str
    distinct : Distinct signers
    exact : (k : Str) → In k signers ↔ (In k seen ⊎ Signer sigs k)
    counted : total + length seen ≡ valid + length signers

  count_valid-Counts :
      (sigs : List OneSig) (seen : List Str) (valid : ℕ)
      → Distinct seen
      → Counts sigs seen valid (count_valid ed_verify trusted input sigs seen valid)
  unfolding count_valid
  count_valid-Counts [] seen valid d = record {
    signers = seen;
    distinct = d;
    exact = λ k. (λ m. inl m, λ h. elim h [ inl m ↦ m | inr n ↦ absurd n ]);
    counted = refl;
  }
  count_valid-Counts (one ∷ rest) seen valid d =
      let held = seen_key_iff seen one.key_id in
      elim (Bool-cases (seen_key seen one.key_id)) [
        | inl old ↦
            let ih = count_valid-Counts rest seen valid d in
            rw old (record {
              signers = ih.signers;
              distinct = ih.distinct;
              exact = λ k. (
                λ m. elim ((ih.exact k).0 m) [ inl a ↦ inl a | inr b ↦ inr (inr b) ],
                λ h. (ih.exact k).1 (elim h [
                  | inl a ↦ inl a
                  | inr b ↦ elim b [
                    | inl p ↦ inl (subst (λ j. In j seen) p.0 (held.0 old))
                    | inr q ↦ inr q
                  ]
                ]),
              );
              counted = ih.counted;
            })
        | inr new ↦ elim (Bool-cases (signs ed_verify trusted input one)) [
          | inr bad ↦
              let ih = count_valid-Counts rest seen valid d in
              rw (new, bad)
                (record {
                  signers = ih.signers;
                  distinct = ih.distinct;
                  exact = λ k. (
                    λ m. elim ((ih.exact k).0 m) [ inl a ↦ inl a | inr b ↦ inr (inr b) ],
                    λ h. (ih.exact k).1 (elim h [
                      | inl a ↦ inl a
                      | inr b ↦ elim b [ inl p ↦ cc (bad, p.1) | inr q ↦ inr q ]
                    ]),
                  );
                  counted = ih.counted;
                })
          | inl good ↦
              let fresh : Distinct (one.key_id ∷ seen) = (λ m. cc (new, held.1 m), d) in
              let ih = count_valid-Counts rest (one.key_id ∷ seen) (valid + 1) fresh in
              rw (new, good)
                (record {
                  signers = ih.signers;
                  distinct = ih.distinct;
                  exact = λ k. (
                    λ m. elim ((ih.exact k).0 m) [
                      | inl a ↦ elim a [ inl e ↦ inr (inl (sym e, good)) | inr b ↦ inl b ]
                      | inr b ↦ inr (inr b)
                    ],
                    λ h. (ih.exact k).1 (elim h [
                      | inl a ↦ inl (inr a)
                      | inr b ↦ elim b [ inl p ↦ inl (inl (sym p.0)) | inr q ↦ inr q ]
                    ]),
                  );
                  counted = omega (arith, ih.counted);
                })
        ]
      ]

-- So many distinct keys, each pinned and each with a valid signature over the payload.
pub record IsQuorum (ed_verify : Verifier) (trusted : Keys) (input : Str) (sigs : List OneSig)
    (want : ℕ) : Type 0 where
  pub signers : List Str
  pub distinct : Distinct signers
  pub valid : (k : Str) → In k signers → Signer ed_verify trusted input sigs k
  pub enough : want ≤ length signers

module _ (ed_verify : Verifier) {A : Type 0} (decode : Str → Option A) where
  count_valid_iff :
      (trusted : Keys) (input : Str) (sigs : List OneSig) (want : ℕ)
      → (want ≤ count_valid ed_verify trusted input sigs [] 0)
        ↔ IsQuorum ed_verify trusted input sigs want
  count_valid_iff trusted input sigs want =
      let c = count_valid-Counts ed_verify trusted input sigs [] 0 tt in
      (
        λ h. record {
          signers = c.signers;
          distinct = c.distinct;
          valid = λ k m. elim ((c.exact k).0 m) [ inl n ↦ absurd n | inr s ↦ s ];
          enough = omega (arith, c.counted);
        },
        λ q.
            let fewer =
              length-Distinct q.signers c.signers q.distinct
                (λ k m. (c.exact k).1 (inr (q.valid k m))) in
            omega (arith, c.counted, q.enough),
      )

  accepts_iff :
      (valid want : ℕ) (o : Option A) (signed payload : Str) (a : A)
      → let parsed : Result (Str × A) = decoded o >>= λ b. ok (signed, b) in
        ((if ltb valid want then err (no_quorum valid want) else parsed) ≡ ok (payload, a))
        ↔ ((want ≤ valid) × (payload ≡ signed) × (o ≡ some a))
  accepts_iff valid want none signed payload a = (λ h. ground arith, λ h. cc (h.2))
  accepts_iff valid want (some b) signed payload a = (λ h. ground arith, λ h. ground arith)

  -- An envelope is accepted exactly when at least max(1, threshold) distinct pinned keys have a valid
  -- signature in it over these payload bytes, and the payload decodes; the bytes returned are the
  -- bytes that were signed. A key that signs twice counts once.
  pub verify_multi_sig_iff :
      (trusted : Keys) (threshold : ℤ) (context : Str) (s : MultiSigned) (payload : Str) (a : A)
      → (verify_multi_sig ed_verify decode trusted threshold context (some s) ≡ ok (payload, a)) ↔ (
          IsQuorum ed_verify trusted (signing_input context s.payload) s.sigs (required threshold)
          × (payload ≡ s.payload)
          × (decode s.payload ≡ some a))
  unfolding verify_multi_sig
  verify_multi_sig_iff trusted threshold context s payload a =
      let quorum =
        count_valid_iff trusted (signing_input context s.payload) s.sigs (required threshold) in
      let accepts =
        accepts_iff (count_valid ed_verify trusted (signing_input context s.payload) s.sigs [] 0)
          (required threshold) (decode s.payload) s.payload payload a in
      (
        λ h. let (enough, same, parsed) = accepts.0 h in (quorum.0 enough, same, parsed),
        λ h. accepts.1 (quorum.1 h.0, h.1, h.2),
      )
