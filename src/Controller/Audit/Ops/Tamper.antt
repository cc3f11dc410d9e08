-- ===== src/Controller/Audit/Ops/Tamper.antt =====
-- What a chain that verifies shows of its file.
use geneza.Base.{
  ℕ, ◌↔◌, sym, ap, ◌∙◌, subst, false, ◌≡◌, refl, none, some, List, [], ◌∷◌, ◌++◌, length, Str,
  arith, inl, inr, Bool-cases, Option-cases, In,
}
use geneza.Base.Int.{ℤ, pos, ◌+ℤ◌, ltb_ℤ, +ℤ_parts, eq_of_parts}
use mathlib.Core.Option.{some-injective, none-ne-some}
use geneza.Controller.Audit.{
  AuditEvent, AuditError, Codec, audit_mac, Scan, start, split_lines, unfinished, scan_audit_file,
  CheckpointFile, absent, malformed_file, saved, truncated,
}
use geneza.Controller.Audit.Chain.{
  last_hash, Summary, Linked, records, scan_lines-Linked, Linked-scan_lines,
}
use geneza.Controller.Audit.Ops.{Audit, is_truncated, verify}

-- The lines of a file, with the last if no newline ends it.
unfoldable pub lines_of : Str → List Str
lines_of file = let (ls, rest) = split_lines file in ls ++ unfinished rest

-- The checkpoint does not remember more records than these.
abbrev pub Remembered : CheckpointFile → ℕ → Type 0
Remembered absent n = Unit
Remembered malformed_file n = Unit
Remembered (saved k) n = ltb_ℤ (pos n) k.seq ≡ false

is_truncated_iff :
    (k : CheckpointFile) (s : Scan) (n : ℕ)
    → s.seq ≡ pos n
    → (is_truncated k s ≡ none) ↔ Remembered k n
unfolding is_truncated
is_truncated_iff absent s n e = (λ h. tt, λ h. refl)
is_truncated_iff malformed_file s n e = (λ h. tt, λ h. refl)
is_truncated_iff (saved k) s n e = rw e (elim (Bool-cases (ltb_ℤ (pos n) k.seq)) [
  | inl t ↦ rw t (λ h. absurd (none-ne-some truncated (sym h)), λ h. cc)
  | inr f ↦ rw f (λ h. refl, λ h. refl)
])

pub record Intact (c : Codec) (key : Str) (file : Str) (k : CheckpointFile) : Type 0 where
  pub es : List AuditEvent
  pub read : records c key (lines_of file) ≡ some es
  pub linked : Linked c key [] (pos 0) es
  pub remembered : Remembered k (length es)

module _ (c : Codec) (key : Str) where
  pub start_seq : (t : Scan) (es : List AuditEvent) → Summary start es t → t.seq ≡ pos (length es)
  start_seq t es k =
      k.numbered
      ∙ eq_of_parts (pos 0 +ℤ pos (length es)) (pos (length es))
          (omega (arith, +ℤ_parts (pos 0) (pos (length es))))

  pub scan_audit_file-lines :
      (file : Str)
      → scan_audit_file c key file ≡ geneza.Controller.Audit.scan_lines c key (lines_of file) start
  unfolding scan_audit_file lines_of
  scan_audit_file-lines file = refl

  verify-err :
      (a : Audit) (s : Scan) (p : AuditError)
      → scan_audit_file c key a.file ≡ (s, some p)
      → (verify c key a).1 ≡ some p
  unfolding verify
  verify-err a s p h = rw (h, verify) refl

  verify-none :
      (a : Audit) (s : Scan)
      → scan_audit_file c key a.file ≡ (s, none)
      → (verify c key a).1 ≡ is_truncated a.checkpoint s
  unfolding verify
  verify-none a s h = rw (h, verify) refl

  verify-Intact : (a : Audit) → (verify c key a).1 ≡ none → Intact c key a.file a.checkpoint
  verify-Intact a h =
      let (s, o) = scan_audit_file c key a.file in
      elim (Option-cases (scan_audit_file c key a.file).1) [
        | inr (p, e) ↦ absurd (
            none-ne-some p
              (sym h ∙ verify-err a (scan_audit_file c key a.file).0 p (λ i. (s, e i))))
        | inl e ↦
            let whole : scan_audit_file c key a.file ≡ (s, none) = λ i. (s, e i) in
            let (es, read, linked, sum) =
              scan_lines-Linked c key (lines_of a.file) start s
                (sym (scan_audit_file-lines a.file) ∙ whole) in
            record {
              es = es;
              read = read;
              linked = linked;
              remembered =
                  (is_truncated_iff a.checkpoint s (length es) (start_seq s es sum)).0
                    (sym (verify-none a s whole) ∙ h);
            }
      ]

  Intact-verify : (a : Audit) → Intact c key a.file a.checkpoint → (verify c key a).1 ≡ none
  Intact-verify a i =
      let (t, h) = Linked-scan_lines c key (lines_of a.file) i.es start i.read i.linked in
      let (es, read, linked, sum) = scan_lines-Linked c key (lines_of a.file) start t h in
      let same : es ≡ i.es = some-injective es i.es (sym read ∙ i.read) in
      verify-none a t (scan_audit_file-lines a.file ∙ h)
      ∙ (is_truncated_iff a.checkpoint t (length i.es)
            (start_seq t es sum ∙ ap (λ x. pos (length x)) same)).1
          i.remembered

  -- Verify finds no error exactly when every line of the file is blank or a record within the limit,
  -- each record carries its MAC, the hash of the record before it and the next number from 1 on, and
  -- the checkpoint does not remember more records than the file has.
  pub verify_iff : (a : Audit) → ((verify c key a).1 ≡ none) ↔ Intact c key a.file a.checkpoint
  unfolding verify
  verify_iff a = (λ h. verify-Intact a h, λ i. Intact-verify a i)

  -- Two chains of as many records that end in the same hash have the same records, unless two of
  -- their records that differ have the same MAC.
  pub Linked-unique :
      (ds es : List AuditEvent) (p p' : Str) (q q' : ℤ)
      → ((d e : AuditEvent)
          → In d ds
          → In e es
          → audit_mac c key d ≡ audit_mac c key e
          → record d { hash = [] } ≡ record e { hash = [] })
      → length ds ≡ length es
      → Linked c key p q ds
      → Linked c key p' q' es
      → last_hash p ds ≡ last_hash p' es
      → (ds ≡ es) × (p ≡ p')
  Linked-unique [] [] p p' q q' free n k k' h = (refl, h)
  Linked-unique [] (e ∷ es) p p' q q' free n k k' h = absurd (omega (arith, n))
  Linked-unique (d ∷ ds) [] p p' q q' free n k k' h = absurd (omega (arith, n))
  Linked-unique (d ∷ ds) (e ∷ es) p p' q q' free n k k' h =
      let (rest, hashes) =
        Linked-unique ds es d.hash e.hash d.seq e.seq (λ a b m m'. free a b (inr m) (inr m'))
          (omega (arith, n)) k.3 k'.3 h in
      let macs : audit_mac c key d ≡ audit_mac c key e = k.2 ∙ ap some hashes ∙ sym k'.2 in
      let cleared = free d e (inl refl) (inl refl) macs in
      let same : d ≡ e = λ i. record (cleared i) { hash = hashes i } in
      (λ i. same i ∷ rest i, sym k.0 ∙ ap (λ (x : AuditEvent). x.prev) same ∙ k'.0)

  -- Two files that scan without an error, to as many records and the same last hash, hold the same
  -- records, if no two of their records that differ in more than the hash have the same MAC: what a
  -- checkpoint remembers of a chain pins down all of its records.
  pub scan_audit_file_unique :
      (file file' : Str) (s t : Scan) (ds es : List AuditEvent)
      → scan_audit_file c key file ≡ (s, none)
      → scan_audit_file c key file' ≡ (t, none)
      → s.count ≡ t.count
      → s.prev ≡ t.prev
      → records c key (lines_of file) ≡ some ds
      → records c key (lines_of file') ≡ some es
      → ((d e : AuditEvent)
          → In d ds
          → In e es
          → audit_mac c key d ≡ audit_mac c key e
          → record d { hash = [] } ≡ record e { hash = [] })
      → ds ≡ es
  scan_audit_file_unique file file' s t ds es h h' n l r r' free =
      let (ds', q, k, sum) =
        scan_lines-Linked c key (lines_of file) start s (sym (scan_audit_file-lines file) ∙ h) in
      let (es', q', k', sum') =
        scan_lines-Linked c key (lines_of file') start t (sym (scan_audit_file-lines file') ∙ h') in
      let d : ds' ≡ ds = some-injective ds' ds (sym q ∙ r) in
      let e : es' ≡ es = some-injective es' es (sym q' ∙ r') in
      (Linked-unique ds es [] [] (pos 0) (pos 0) free
        (omega (arith, n, sum.counted, sum'.counted, ap length d, ap length e))
        (subst (Linked c key [] (pos 0)) d k) (subst (Linked c key [] (pos 0)) e k')
        (sym (ap (last_hash []) d) ∙ sym sum.last ∙ l ∙ sum'.last ∙ ap (last_hash []) e)).0
