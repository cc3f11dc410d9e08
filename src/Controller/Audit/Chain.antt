-- ===== src/Controller/Audit/Chain.antt =====
-- What the scan accepts: lines that are records, each linked to the one before it.
use geneza.Base.{
  ◌+◌, ◌<◌, ◌↔◌, sym, ap, ◌∙◌, subst, false, ◌≡◌, refl, Option, none, some, List, [], ◌∷◌, ◌++◌,
  leb, if◌then◌else◌, length, Str, bytes_eq_iff, arith, ◌⊎◌, inl, inr, Bool-cases, Option-cases,
}
use geneza.Base.Int.{ℤ, pos, ◌+ℤ◌, eqb_ℤ_iff, +ℤ_zero, +ℤ_suc}
use mathlib.Core.Option.{some-injective, none-ne-some}
use geneza.Controller.Audit.{
  AuditEvent, AuditError, ok, err, Codec, audit_mac, check_mac, check_record, Scan, max_line,
  is_empty, drop_cr, scan_record, scan_line, scan_lines,
}

abbrev pub last_hash : Str → List AuditEvent → Str
last_hash h [] = h
last_hash h (e ∷ es) = last_hash e.hash es

-- What the scan of the records leaves.
pub record Summary (s : Scan) (es : List AuditEvent) (t : Scan) : Type 0 where
  pub last : t.prev ≡ last_hash s.prev es
  pub numbered : t.seq ≡ s.seq +ℤ pos (length es)
  pub counted : t.count ≡ s.count + length es

module _ (c : Codec) (key : Str) where
  -- Each record names the hash of the one before it and the next number, and carries its MAC.
  abbrev pub Linked : Str → ℤ → List AuditEvent → Type 0
  Linked prev seq [] = Unit
  Linked prev seq (e ∷ es) =
      (e.prev ≡ prev)
      × (e.seq ≡ seq +ℤ pos 1)
      × (audit_mac c key e ≡ some e.hash)
      × Linked e.hash e.seq es

  cons_record : Option AuditEvent → Option (List AuditEvent) → Option (List AuditEvent)
  cons_record none o = none
  cons_record (some e) none = none
  cons_record (some e) (some es) = some (e ∷ es)

  -- The records of the lines, if each line is within the limit, and is blank or a record.
  unfoldable pub records : List Str → Option (List AuditEvent)
  unfolding cons_record drop_cr
  records [] = some []
  records (l ∷ ls) =
      let rest = records ls in
      if leb max_line (length l)
      then none
      else if is_empty (drop_cr l)
      then rest
      else cons_record (c.unmarshal (drop_cr l)) rest

  cons_record-some :
      (e : AuditEvent) (o : Option (List AuditEvent)) (es : List AuditEvent)
      → cons_record (some e) o ≡ some es
      → (rest : List AuditEvent) × (o ≡ some rest) × (es ≡ e ∷ rest)
  unfolding cons_record
  cons_record-some e none es h = absurd (none-ne-some es h)
  cons_record-some e (some rest) es h = (rest, refl, sym (some-injective (e ∷ rest) es h))

  pub records-nil : records [] ≡ some []
  unfolding records
  records-nil = refl

  pub records-cons :
      (l : Str) (ls : List Str) (e : AuditEvent) (es : List AuditEvent)
      → length l < max_line
      → 0 < length l
      → drop_cr l ≡ l
      → c.unmarshal l ≡ some e
      → records ls ≡ some es
      → records (l ∷ ls) ≡ some (e ∷ es)
  unfolding records cons_record
  records-cons l ls e es short full bare u r =
      let in_limit : leb max_line (length l) ≡ false = ground arith in
      let not_blank : is_empty l ≡ false = ground arith in rw (in_limit, bare, not_blank, u, r) refl

  pub check_record_iff :
      (prev : Str) (seq : ℤ) (e : AuditEvent)
      → (check_record c key prev seq e ≡ none)
        ↔ ((e.prev ≡ prev) × (e.seq ≡ seq +ℤ pos 1) × (audit_mac c key e ≡ some e.hash))
  unfolding check_record check_mac
  check_record_iff prev seq e = elim (Option-cases (audit_mac c key e)) [
    | inl n ↦ rw n (ground (arith, bytes_eq_iff e.prev prev, eqb_ℤ_iff e.seq (seq +ℤ pos 1)))
    | inr (h, m) ↦ rw m (
        ground
          (arith, bytes_eq_iff e.prev prev, bytes_eq_iff e.hash h, eqb_ℤ_iff e.seq (seq +ℤ pos 1)))
  ]

  abbrev scanned : Scan → Str → AuditEvent → Scan
  scanned s l e = record {
    prev = e.hash;
    seq = e.seq;
    count = s.count + 1;
    seen = s.seen ++ (drop_cr l, e) ∷ [];
  }

  scan_line-cases :
      (s : Scan) (l : Str) (ls : List Str)
      → ((scan_line c key s l ≡ ok s) × (records (l ∷ ls) ≡ records ls))
        ⊎ ((e : AuditEvent) × (records (l ∷ ls) ≡ cons_record (some e) (records ls))
            × (scan_line c key s l ≡ elim (check_record c key s.prev s.seq e) [
              | some problem ↦ err problem
              | none ↦ ok (scanned s l e)
            ]))
        ⊎ ((problem : AuditError) × (scan_line c key s l ≡ err problem) × (records (l ∷ ls) ≡ none))
  unfolding scan_line scan_record records cons_record
  scan_line-cases s l ls = elim (Bool-cases (leb max_line (length l))) [
    | inl long ↦ rw long (inr (inr (AuditError.too_long, refl, refl)))
    | inr short ↦ elim (Bool-cases (is_empty (drop_cr l))) [
      | inl blank ↦ rw (short, blank) (inl (refl, refl))
      | inr full ↦ elim (Option-cases (c.unmarshal (drop_cr l))) [
        | inl n ↦ rw (short, full, n) (inr (inr (AuditError.malformed, refl, refl)))
        | inr (e, u) ↦ rw (short, full, u) (inr (inl (e, refl, refl)))
      ]
    ]
  ]

  scan_lines-ok :
      (l : Str) (ls : List Str) (s s' : Scan)
      → scan_line c key s l ≡ ok s'
      → scan_lines c key (l ∷ ls) s ≡ scan_lines c key ls s'
  unfolding scan_lines
  scan_lines-ok l ls s s' e = rw (e, scan_lines) refl

  scan_lines-err :
      (l : Str) (ls : List Str) (s : Scan) (p : AuditError)
      → scan_line c key s l ≡ err p
      → scan_lines c key (l ∷ ls) s ≡ (s, some p)
  unfolding scan_lines
  scan_lines-err l ls s p e = rw (e, scan_lines) refl

  pub scan_lines-Linked :
      (ls : List Str) (s t : Scan)
      → scan_lines c key ls s ≡ (t, none)
      → (es : List AuditEvent) × (records ls ≡ some es) × Linked s.prev s.seq es × Summary s es t
  unfolding scan_lines records cons_record
  scan_lines-Linked [] s t h =
      let e : s ≡ t = ap (λ p. p.0) h in
      (
        [],
        refl,
        tt,
        rw (← e) (record { last = refl; numbered = sym (+ℤ_zero s.seq); counted = omega arith }),
      )
  scan_lines-Linked (l ∷ ls) s t h = elim (scan_line-cases s l ls) [
    | inl (e, r) ↦ rw r (scan_lines-Linked ls s t (sym (scan_lines-ok l ls s s e) ∙ h))
    | inr (inl (e, r, q)) ↦ elim (Option-cases (check_record c key s.prev s.seq e)) [
      | inr (p, w) ↦
          absurd (
            none-ne-some p
              (sym (ap (λ r. r.1) (sym (scan_lines-err l ls s p (q ∙ rw w refl)) ∙ h))))
      | inl w ↦
          let (es, rs, k, sum) =
            scan_lines-Linked ls (scanned s l e) t
              (sym (scan_lines-ok l ls s (scanned s l e) (q ∙ rw w refl)) ∙ h) in
          let checks = (check_record_iff s.prev s.seq e).0 w in
          (
            e ∷ es,
            r ∙ rw rs refl,
            (checks.0, checks.1, checks.2, k),
            record {
              last = sum.last;
              numbered =
                  sum.numbered ∙ ap (λ z. z +ℤ pos (length es)) checks.1 ∙ +ℤ_suc s.seq (length es);
              counted = omega (arith, sum.counted);
            },
          )
    ]
    | inr (inr (p, q, n)) ↦
        absurd (none-ne-some p (sym (ap (λ r. r.1) (sym (scan_lines-err l ls s p q) ∙ h))))
  ]

  pub Linked-scan_lines :
      (ls : List Str) (es : List AuditEvent) (s : Scan)
      → records ls ≡ some es
      → Linked s.prev s.seq es
      → (t : Scan) × (scan_lines c key ls s ≡ (t, none))
  unfolding scan_lines
  Linked-scan_lines [] es s r k = (s, refl)
  Linked-scan_lines (l ∷ ls) es s r k = elim (scan_line-cases s l ls) [
    | inl (e, q) ↦
        let (t, h) = Linked-scan_lines ls es s (sym q ∙ r) k in (t, scan_lines-ok l ls s s e ∙ h)
    | inr (inl (e, q, line)) ↦
        let (es', rs, whole) = cons_record-some e (records ls) es (sym q ∙ r) in
        let k' : Linked s.prev s.seq (e ∷ es') = subst (Linked s.prev s.seq) whole k in
        let w = (check_record_iff s.prev s.seq e).1 (k'.0, k'.1, k'.2) in
        let (t, h) = Linked-scan_lines ls es' (scanned s l e) rs k'.3 in
        (t, scan_lines-ok l ls s (scanned s l e) (line ∙ rw w refl) ∙ h)
    | inr (inr (p, q, n)) ↦ absurd (none-ne-some es (sym n ∙ r))
  ]
