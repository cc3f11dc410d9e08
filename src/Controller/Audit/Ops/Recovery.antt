-- ===== src/Controller/Audit/Ops/Recovery.antt =====
-- Opening a file of whole records with a torn one behind them.
use geneza.Base.{
  ℕ, ◌+◌, ◌≤◌, ◌<◌, sym, ap, ◌∙◌, subst, false, ◌≡◌, refl, none, some, List, [], ◌∷◌, ◌++◌, length,
  Str, arith, All, if◌then◌else◌, take, take-append, length-append,
}
use geneza.Base.Int.{pos}
use mathlib.Core.Option.{some-injective}
use mathlib.Core.List.{append-nil, append_assoc}
use geneza.Controller.Audit.{
  AuditEvent, AuditError, Codec, Result, ok, err, ◌>>=◌, audit_mac, check_record, Scan, start,
  Repair, repair_start, split_lines, unfinished, drop_cr, is_empty, max_line, scan_audit_file,
  repair_record, repair_line, repair_lines, repair_torn_tail, CheckpointFile, absent,
  malformed_file, saved,
}
use geneza.Controller.Audit.Lines.{OneLine, split_lines-tail, split_lines-cons}
use geneza.Controller.Audit.Chain.{
  Summary, Linked, check_record_iff, records, records-nil, records-cons, scan_lines-Linked,
  Linked-scan_lines,
}
use geneza.Controller.Audit.Ops.Tamper.{lines_of, scan_audit_file-lines}

-- What JSON writes: a text without control characters, and not an empty one.
pub record IsLine (l : Str) : Type 0 where
  pub printable : All (λ b. 32 ≤ b) l
  pub full : 0 < length l
  pub short : length l < max_line

abbrev pub join : List Str → Str
join [] = []
join (l ∷ ls) = l ++ b'\n' ∷ join ls

pub OneLine-printable : (l : Str) → All (λ b. 32 ≤ b) l → OneLine l
OneLine-printable [] h = tt
OneLine-printable (b ∷ l) h = (ground (arith, h.0), OneLine-printable l h.1)

drop_cr-printable : (l : Str) → All (λ b. 32 ≤ b) l → drop_cr l ≡ l
unfolding drop_cr
drop_cr-printable [] h = refl
drop_cr-printable (b ∷ []) h = ground (arith, h.0)
drop_cr-printable (b ∷ d ∷ l) h = ap (◌∷◌ b) (drop_cr-printable (d ∷ l) h.1)

split_lines-join :
    (ls : List Str) (torn : Str)
    → All IsLine ls
    → OneLine torn
    → split_lines (join ls ++ torn) ≡ (ls, torn)
split_lines-join [] torn h o = split_lines-tail torn o
split_lines-join (l ∷ ls) torn h o =
    ap split_lines (append_assoc l (b'\n' ∷ join ls) torn)
    ∙ split_lines-cons l (join ls ++ torn) (OneLine-printable l h.0.printable)
    ∙ ap (λ r. (l ∷ r.0, r.1)) (split_lines-join ls torn h.1 o)

pub join-append : (ls : List Str) (l : Str) → join (ls ++ l ∷ []) ≡ join ls ++ (l ++ b'\n' ∷ [])
join-append [] l = refl
join-append (k ∷ ls) l =
    ap (λ s. k ++ b'\n' ∷ s) (join-append ls l)
    ∙ sym (append_assoc k (b'\n' ∷ join ls) (l ++ b'\n' ∷ []))

pub lines_of-join : (ls : List Str) → All IsLine ls → lines_of (join ls) ≡ ls
unfolding lines_of unfinished
lines_of-join ls h =
    let whole = ap split_lines (sym (append-nil (join ls))) ∙ split_lines-join ls [] h tt in
    ap (λ (r : List Str × Str). r.0 ++ unfinished r.1) whole ∙ append-nil ls

module _ (c : Codec) where
  abbrev pub Parses : List Str → List AuditEvent → Type 0
  Parses [] [] = Unit
  Parses [] (e ∷ es) = ⊥
  Parses (l ∷ ls) [] = ⊥
  Parses (l ∷ ls) (e ∷ es) = (c.unmarshal l ≡ some e) × Parses ls es

  pub Parses-append :
      (ls : List Str) (es : List AuditEvent) (l : Str) (e : AuditEvent)
      → Parses ls es
      → c.unmarshal l ≡ some e
      → Parses (ls ++ l ∷ []) (es ++ e ∷ [])
  Parses-append [] [] l e h p = (p, tt)
  Parses-append [] (x ∷ es) l e h p = absurd h
  Parses-append (k ∷ ls) [] l e h p = absurd h
  Parses-append (k ∷ ls) (x ∷ es) l e h p = (h.0, Parses-append ls es l e h.1 p)

module _ (c : Codec) (key : Str) where
  pub Parses-records :
      (ls : List Str) (es : List AuditEvent)
      → All IsLine ls
      → Parses c ls es
      → records c key ls ≡ some es
  Parses-records [] [] h p = records-nil c key
  Parses-records [] (e ∷ es) h p = absurd p
  Parses-records (l ∷ ls) [] h p = absurd p
  Parses-records (l ∷ ls) (e ∷ es) h p =
      records-cons c key l ls e es h.0.short h.0.full (drop_cr-printable l h.0.printable) p.0
        (Parses-records ls es h.1 p.1)

  repair_record-ok :
      (e : AuditEvent) (r : Repair) (good_end : ℕ)
      → check_record c key r.prev r.seq e ≡ none
      → repair_record c key r good_end (some e)
        ≡ ok (record { prev = e.hash; seq = e.seq; last_good_end = good_end })
  unfolding repair_record
  repair_record-ok e r good_end w = rw (w, repair_record) refl

  repair_line-ok :
      (l : Str) (e : AuditEvent) (r : Repair)
      → IsLine l
      → c.unmarshal l ≡ some e
      → check_record c key r.prev r.seq e ≡ none
      → repair_line c key r l
        ≡ ok (record { prev = e.hash; seq = e.seq; last_good_end = r.last_good_end + length l + 1 })
  unfolding repair_line
  repair_line-ok l e r h u w =
      let not_blank : is_empty l ≡ false = ground (arith, h.full) in
      rw (not_blank, u) (repair_record-ok e r (r.last_good_end + length l + 1) w)

  repair_lines-Parses :
      (ls : List Str) (es : List AuditEvent) (r : Repair)
      → All IsLine ls
      → Parses c ls es
      → Linked c key r.prev r.seq es
      → (t : Repair) × (repair_lines c key ls r ≡ ok t)
        × (t.last_good_end ≡ r.last_good_end + length (join ls))
  unfolding repair_lines
  repair_lines-Parses [] [] r h p k = (r, refl, omega arith)
  repair_lines-Parses [] (e ∷ es) r h p k = absurd p
  repair_lines-Parses (l ∷ ls) [] r h p k = absurd p
  repair_lines-Parses (l ∷ ls) (e ∷ es) r h p k =
      let w = (check_record_iff c key r.prev r.seq e).1 (k.0, k.1, k.2) in
      let next : Repair = record {
        prev = e.hash;
        seq = e.seq;
        last_good_end = r.last_good_end + length l + 1;
      } in
      let (t, q, end) = repair_lines-Parses ls es next h.1 p.1 k.3 in
      (
        t,
        ap (λ (m : Result Repair). m >>= λ s. repair_lines c key ls s)
              (repair_line-ok l e r h.0 p.0 w)
            ∙ q,
        omega (arith, end, length-append l (b'\n' ∷ join ls)),
      )

  pub repair_torn_tail-join :
      (ls : List Str) (es : List AuditEvent) (torn : Str)
      → All IsLine ls
      → Parses c ls es
      → Linked c key [] (pos 0) es
      → OneLine torn
      → repair_torn_tail c key (join ls ++ torn) ≡ ok (join ls)
  unfolding repair_torn_tail
  repair_torn_tail-join ls es torn h p k o =
      let (t, q, end) = repair_lines-Parses ls es repair_start h p k in
      ap
        (λ (r : List Str × Str). repair_lines c key r.0 repair_start >>= λ (t : Repair).
          ok (if is_empty r.1 then join ls ++ torn else take t.last_good_end (join ls ++ torn)))
        (split_lines-join ls torn h o)
      ∙ ap
          (λ (m : Result Repair). m >>= λ (t : Repair).
            ok (if is_empty torn then join ls ++ torn else take t.last_good_end (join ls ++ torn)))
          q
      ∙ ap ok (kept torn t end)
    where
      kept :
          (torn : Str) (t : Repair)
          → t.last_good_end ≡ 0 + length (join ls)
          → (if is_empty torn then join ls ++ torn else take t.last_good_end (join ls ++ torn))
            ≡ join ls
      kept [] t e = append-nil (join ls)
      kept (b ∷ rest) t e =
          let n : t.last_good_end ≡ length (join ls) = omega (arith, e) in
          let full : is_empty (b ∷ rest) ≡ false = ground arith in
          rw (full, n) (take-append (join ls) (b ∷ rest))

  pub scan_audit_file-join :
      (ls : List Str) (es : List AuditEvent)
      → All IsLine ls
      → Parses c ls es
      → Linked c key [] (pos 0) es
      → (s : Scan) × (scan_audit_file c key (join ls) ≡ (s, none)) × Summary start es s
  scan_audit_file-join ls es h p k =
      let r = Parses-records ls es h p in
      let (t, q) = Linked-scan_lines c key ls es start r k in
      let (es', r', k', sum) = scan_lines-Linked c key ls start t q in
      let same : es' ≡ es = some-injective es' es (sym r' ∙ r) in
      (
        t,
        scan_audit_file-lines c key (join ls)
            ∙ ap (λ ls. geneza.Controller.Audit.scan_lines c key ls start) (lines_of-join ls h)
            ∙ q,
        subst (λ es. Summary start es t) same sum,
      )
