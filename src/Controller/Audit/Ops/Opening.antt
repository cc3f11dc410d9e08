-- ===== src/Controller/Audit/Ops/Opening.antt =====
-- Opening an audit log whose file has whole records, and one more record of it.
use geneza.Base.{
  ℕ, suc, ◌+◌, sym, ap, ◌∙◌, Bool, true, false, ◌≡◌, refl, none, some, List, [], ◌∷◌, ◌++◌, length,
  Str, arith, inl, inr, Bool-cases, All, bytes_eq_iff,
}
use geneza.Base.Int.{ℤ, pos, ◌+ℤ◌, ltb_ℤ, eqb_ℤ, eqb_ℤ_iff, pos-add_one}
use geneza.Controller.Audit.{
  AuditEvent, Codec, Result, ok, ◌>>=◌, audit_mac, Scan, scan_audit_file, repair_torn_tail,
  CheckpointFile, absent, malformed_file, saved,
}
use geneza.Controller.Audit.Lines.{OneLine}
use geneza.Controller.Audit.Chain.{last_hash, Linked}
use geneza.Controller.Audit.Ops.{
  Audit, Request, next_event, saved_checkpoint, check_checkpoint, opened, open_audit,
}
use geneza.Controller.Audit.Ops.Tamper.{start_seq}
use geneza.Controller.Audit.Ops.Recovery.{
  IsLine, join, Parses, repair_torn_tail-join, scan_audit_file-join,
}

-- The checkpoint is not ahead of the records, and one at the last of them has its hash.
abbrev pub Behind : CheckpointFile → List AuditEvent → Type 0
Behind absent es = Unit
Behind malformed_file es = ⊥
Behind (saved k) es =
    (ltb_ℤ (pos (length es)) k.seq ≡ false) × (k.seq ≡ pos (length es) → k.hash ≡ last_hash [] es)

-- A file of whole records that are linked, with a checkpoint that is not ahead of them.
pub record Records (c : Codec) (key : Str) (file : Str) (k : CheckpointFile) : Type 0 where
  pub lines : List Str
  pub es : List AuditEvent
  pub file_is : file ≡ join lines
  pub clean : All IsLine lines
  pub parsed : Parses c lines es
  pub linked : Linked c key [] (pos 0) es
  pub behind : Behind k es

-- The log stands at the last record of its file.
pub record Sound (c : Codec) (key : Str) (a : Audit) : Type 0 where
  pub records : Records c key a.file a.checkpoint
  pub last : a.last ≡ last_hash [] records.es
  pub seq : a.seq ≡ pos (length records.es)
  pub count : a.count ≡ length records.es

-- The record of a request: its MAC, its line, and that JSON reads the line back.
pub record Written (c : Codec) (key : Str) (a : Audit) (q : Request) (ts : ℤ) (line : Str)
    : Type 0 where
  pub mac : Str
  pub mac_is : audit_mac c key (next_event a q ts) ≡ some mac
  pub marshals : c.marshal (record (next_event a q ts) { hash = mac }) ≡ some line
  pub parses : c.unmarshal line ≡ some (record (next_event a q ts) { hash = mac })
  pub is_line : IsLine line

check_checkpoint-Behind :
    (k : CheckpointFile) (s : Scan) (es : List AuditEvent)
    → s.seq ≡ pos (length es)
    → s.prev ≡ last_hash [] es
    → Behind k es
    → check_checkpoint k s ≡ none
unfolding check_checkpoint
check_checkpoint-Behind absent s es q l b = refl
check_checkpoint-Behind malformed_file s es q l b = absurd b
check_checkpoint-Behind (saved k) s es q l b =
    rw (q, l, b.0)
      (elim (Bool-cases (eqb_ℤ k.seq (pos (length es)))) [
        | inr f ↦ rw f refl
        | inl t ↦
            let e = (bytes_eq_iff k.hash (last_hash [] es)).1 (b.1 ((eqb_ℤ_iff _ _).0 t)) in
            rw (t, e) refl
      ])

pub not_ahead : (n : ℕ) → ltb_ℤ (pos n) (pos n) ≡ false
not_ahead n = ground arith

module _ (c : Codec) (key : Str) where
  -- The log stands at the last record of a file.
  abbrev pub Stands : (file : Str) (es : List AuditEvent) → Audit → Type 0
  Stands file es b =
      (b.file ≡ file)
      × (b.last ≡ last_hash [] es)
      × (b.seq ≡ pos (length es))
      × (b.count ≡ length es)

  opened-Records :
      (file : Str) (k : CheckpointFile) (saves : Bool) (r : Records c key file k) (s : Scan)
      → s.seq ≡ pos (length r.es)
      → s.prev ≡ last_hash [] r.es
      → s.count ≡ length r.es
      → (b : Audit) × (opened c key file k saves (s, none) ≡ ok b)
        × Stands file r.es b
        × Sound c key b
  unfolding opened saved_checkpoint
  opened-Records file k false r s q l n = (
    record { file = file; checkpoint = k; last = s.prev; seq = s.seq; count = s.count },
    rw (check_checkpoint-Behind k s r.es q l r.behind, opened) refl,
    (refl, l, q, n),
    record { records = r; last = l; seq = q; count = n },
  )
  opened-Records file k true r s q l n = (
    record {
      file = file;
      checkpoint = saved (record { seq = s.seq; hash = s.prev; count = s.count });
      last = s.prev;
      seq = s.seq;
      count = s.count;
    },
    rw (check_checkpoint-Behind k s r.es q l r.behind, opened) refl,
    (refl, l, q, n),
    record {
      records = record {
        lines = r.lines;
        es = r.es;
        file_is = r.file_is;
        clean = r.clean;
        parsed = r.parsed;
        linked = r.linked;
        behind = (rw q (not_ahead (length r.es)), λ _. l);
      };
      last = l;
      seq = q;
      count = n;
    },
  )

  -- Opening a file of records with a torn one behind them.
  pub open_audit-Records :
      (file torn : Str) (k : CheckpointFile) (saves : Bool)
      → OneLine torn
      → (r : Records c key file k)
      → (b : Audit) × (open_audit c key (file ++ torn) k saves ≡ ok b)
        × Stands file r.es b
        × Sound c key b
  unfolding open_audit
  open_audit-Records file torn k saves o r =
      let repaired =
        ap (λ f. repair_torn_tail c key (f ++ torn)) r.file_is
        ∙ repair_torn_tail-join c key r.lines r.es torn r.clean r.parsed r.linked o
        ∙ ap ok (sym r.file_is) in
      let (s, q, sum) = scan_audit_file-join c key r.lines r.es r.clean r.parsed r.linked in
      let scanned = ap (scan_audit_file c key) r.file_is ∙ q in
      let (b, e, stands, sound) =
        opened-Records file k saves r s (start_seq c key s r.es sum) sum.last
          (omega (arith, sum.counted)) in
      (
        b,
        ap (λ (m : Result Str). m >>= λ f. opened c key f k saves (scan_audit_file c key f))
              repaired
            ∙ ap (λ r. opened c key file k saves r) scanned
            ∙ e,
        stands,
        sound,
      )

  -- One more record.
  pub last_hash-append :
      (h : Str) (es : List AuditEvent) (e : AuditEvent) → last_hash h (es ++ e ∷ []) ≡ e.hash
  last_hash-append h [] e = refl
  last_hash-append h (x ∷ es) e = last_hash-append x.hash es e

  pub Linked-append :
      (prev : Str) (seq : ℤ) (n : ℕ) (es : List AuditEvent) (e : AuditEvent)
      → seq ≡ pos n
      → Linked c key prev seq es
      → e.prev ≡ last_hash prev es
      → e.seq ≡ pos (n + length es) +ℤ pos 1
      → audit_mac c key e ≡ some e.hash
      → Linked c key prev seq (es ++ e ∷ [])
  Linked-append prev seq n [] e q k p s m =
      (p, s ∙ ap (λ (x : ℕ). pos x +ℤ pos 1) (omega arith) ∙ ap (λ z. z +ℤ pos 1) (sym q), m, tt)
  Linked-append prev seq n (x ∷ es) e q k p s m = (
    k.0,
    k.1,
    k.2,
    Linked-append x.hash x.seq (suc n) es e (k.1 ∙ ap (λ z. z +ℤ pos 1) q ∙ pos-add_one n) k.3 p
        (s ∙ ap (λ (x : ℕ). pos x +ℤ pos 1) (omega arith)) m,
  )
