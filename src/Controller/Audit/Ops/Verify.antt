-- ===== src/Controller/Audit/Ops/Verify.antt =====
-- What Verify says of a log that was appended to, and of one whose sync failed once.
use geneza.Base.{
  All, some, ◌≢◌, sym, ap, ◌∙◌, subst, ◌≡◌, refl, none, List, [], ◌∷◌, ◌++◌, length, Str, arith,
}
use geneza.Base.Int.{ℤ, pos, pos_part, neg_part, ◌+ℤ◌, +ℤ_parts}
use mathlib.Core.Option.{some-injective}
use mathlib.Core.List.{append-nil, append_assoc}
use geneza.Controller.Audit.{
  AuditEvent, Codec, scan_audit_file, CheckpointFile, absent, malformed_file, saved, Scan,
}
use geneza.Controller.Audit.Chain.{Linked, records}
use geneza.Controller.Audit.Ops.{
  Audit, Request, sync_fails, appends, next_event, append_ws, put_line, verdict, verify,
  is_truncated,
}
use geneza.Controller.Audit.Ops.Tamper.{lines_of, start_seq, verify_iff, Intact}
use geneza.Controller.Audit.Ops.Recovery.{
  Parses, IsLine, join, join-append, Parses-append, Parses-records, lines_of-join,
  scan_audit_file-join,
}
use geneza.Controller.Audit.Ops.Opening.{Behind, Written}
use geneza.Controller.Audit.Ops.History.{
  All-append, append_ws-put, append_ws-after, event, History, History-Sound,
}

is_truncated-Behind :
    (k : CheckpointFile) (s : Scan) (es : List AuditEvent)
    → s.seq ≡ pos (length es)
    → Behind k es
    → is_truncated k s ≡ none
unfolding is_truncated
is_truncated-Behind absent s es q b = refl
is_truncated-Behind malformed_file s es q b = refl
is_truncated-Behind (saved k) s es q b = rw (q, b.0) refl

not_own_suc : (z : ℤ) → z ≢ z +ℤ pos 1
not_own_suc z e = omega (arith, +ℤ_parts z (pos 1), ap pos_part e, ap neg_part e)

pre_last :
    (c : Codec) (key prev : Str) (seq : ℤ) (es : List AuditEvent) (d e : AuditEvent)
    (more : List AuditEvent)
    → Linked c key prev seq (es ++ d ∷ e ∷ more)
    → e.seq ≡ d.seq +ℤ pos 1
pre_last c key prev seq [] d e more k = k.3.1
pre_last c key prev seq (x ∷ es) d e more k = pre_last c key x.hash x.seq es d e more k.3

module _ (c : Codec) (key : Str) where
  -- Whatever appends that succeed, failed checkpoints, crashes and openings after them a log has been
  -- through, Verify finds no error in it and counts as many records as the log has. A process that
  -- goes on after a write or a sync that failed has no such log.
  pub History-verify : {a : Audit} → History c key a → verify c key a ≡ (a.count, none)
  unfolding verify verdict
  History-verify {a} h =
      let s = History-Sound c key h in
      let r = s.records in
      let (t, q, sum) = scan_audit_file-join c key r.lines r.es r.clean r.parsed r.linked in
      let n : t.count ≡ a.count = omega (arith, sum.counted, s.count) in
      ap (verdict a.checkpoint) (ap (scan_audit_file c key) r.file_is ∙ q)
      ∙ ap (λ k. (t.count, k))
          (is_truncated-Behind a.checkpoint t r.es (start_seq c key t r.es sum) r.behind)
      ∙ ap (λ k. (k, none)) n

  synced-fields :
      (a : Audit) (q : Request) (ts : ℤ) (line : Str)
      → Written c key a q ts line
      → ((append_ws c key a q ts sync_fails).0.file ≡ a.file ++ (line ++ b'\n' ∷ []))
        × ((append_ws c key a q ts sync_fails).0.seq ≡ a.seq)
  unfolding put_line
  synced-fields a q ts line w =
      let e = append_ws-put c key a q ts line w sync_fails in
      (ap (λ r. r.0.file) e, ap (λ r. r.0.seq) e)

  -- Appends that succeed one after another, with the lines and the records that they write.
  pub data Appended : Audit → List Str → List AuditEvent → Audit → Type 0 where
    no_more : (a : Audit) → Appended a [] [] a
    one_more :
        (a b : Audit) (q : Request) (ts : ℤ) (line : Str) (ls : List Str) (es : List AuditEvent)
        → (w : Written c key a q ts line) → Appended (append_ws c key a q ts appends).0 ls es b
        → Appended a (line ∷ ls) (event c key a q ts line w ∷ es) b

  -- The records of a file, whose links are another matter.
  record Holds (a : Audit) (lines : List Str) (es : List AuditEvent) : Type 0 where
    file_is : a.file ≡ join lines
    clean : All IsLine lines
    parsed : Parses c lines es

  Holds-snoc :
      (a b : Audit) (lines : List Str) (es : List AuditEvent) (q : Request) (ts : ℤ) (line : Str)
      → (w : Written c key a q ts line) → Holds a lines es
      → (e : AuditEvent) → c.unmarshal line ≡ some e
      → b.file ≡ a.file ++ (line ++ b'\n' ∷ [])
      → Holds b (lines ++ line ∷ []) (es ++ e ∷ [])
  Holds-snoc a b lines es q ts line w h e p f = record {
    file_is = f ∙ ap (λ s. s ++ (line ++ b'\n' ∷ [])) h.file_is ∙ sym (join-append lines line);
    clean = All-append IsLine lines (line ∷ []) h.clean (w.is_line, tt);
    parsed = Parses-append c lines es line e h.parsed p;
  }

  Holds-Appended :
      (a b : Audit) (lines ls : List Str) (es more : List AuditEvent)
      → Holds a lines es
      → Appended a ls more b
      → Holds b (lines ++ ls) (es ++ more)
  Holds-Appended a b lines ls es more h (no_more _) =
      subst (λ xs. Holds a xs (es ++ [])) (sym (append-nil lines))
        (subst (λ xs. Holds a lines xs) (sym (append-nil es)) h)
  Holds-Appended a b lines ls es more h (one_more _ _ q ts line rest later w k) =
      let next = (append_ws c key a q ts appends).0 in
      let here =
        Holds-snoc a next lines es q ts line w h (event c key a q ts line w) w.parses
          (ap (λ r. r.0.file) (append_ws-after c key a q ts line w)) in
      subst (λ xs. Holds b xs (es ++ event c key a q ts line w ∷ later))
        (append_assoc lines (line ∷ []) rest)
        (subst (λ xs. Holds b ((lines ++ line ∷ []) ++ rest) xs)
          (append_assoc es (event c key a q ts line w ∷ []) later)
          (Holds-Appended next b (lines ++ line ∷ []) rest (es ++ event c key a q ts line w ∷ [])
            later here k))

  -- Verify finds no error only in linked records.
  Holds-Linked :
      (b : Audit) (lines : List Str) (es : List AuditEvent)
      → Holds b lines es
      → (verify c key b).1 ≡ none
      → Linked c key [] (pos 0) es
  Holds-Linked b lines es h v =
      let i : Intact c key b.file b.checkpoint = (verify_iff c key b).0 v in
      let same : i.es ≡ es = some-injective i.es es (
        sym i.read
        ∙ ap (records c key) (ap lines_of h.file_is ∙ lines_of-join lines h.clean)
        ∙ Parses-records c key lines es h.clean h.parsed) in
      subst (Linked c key [] (pos 0)) same i.linked

  next_breaks :
      (a d b : Audit) (lines ls : List Str) (es more : List AuditEvent) (e : AuditEvent)
      → Holds d lines (es ++ e ∷ [])
      → e.seq ≡ a.seq +ℤ pos 1
      → d.seq ≡ a.seq
      → Appended d ls more b
      → ls ≢ []
      → (verify c key b).1 ≢ none
  unfolding next_event
  next_breaks a d b lines ls es more e h n m (no_more _) some_more = absurd (some_more refl)
  next_breaks a d b lines ls es more e h n m (one_more _ _ q ts line rest later w k) some_more =
      λ v.
        let f = event c key d q ts line w in
        let linked = subst (Linked c key [] (pos 0)) (append_assoc es (e ∷ []) (f ∷ later)) (
          Holds-Linked b (lines ++ line ∷ rest) ((es ++ e ∷ []) ++ f ∷ later)
            (Holds-Appended d b lines (line ∷ rest) (es ++ e ∷ []) (f ∷ later) h
              (one_more d b q ts line rest later w k))
            v) in
        not_own_suc (a.seq +ℤ pos 1) (
          sym (ap (λ z. z +ℤ pos 1) m)
          ∙ pre_last c key [] (pos 0) es e f later linked
          ∙ ap (λ z. z +ℤ pos 1) n)

  -- After an append whose sync failed, in a process that goes on, the next append that succeeds breaks
  -- the chain for good: Verify finds an error after it and after any appends that succeed later, since
  -- two records carry the same number.
  pub append_ws-sync_fails :
      {a : Audit} (q : Request) (ts : ℤ) (line : Str) (ls : List Str) (more : List AuditEvent)
      (b : Audit)
      → History c key a
      → Written c key a q ts line
      → Appended (append_ws c key a q ts sync_fails).0 ls more b
      → ls ≢ []
      → (verify c key b).1 ≢ none
  unfolding next_event
  append_ws-sync_fails {a} q ts line ls more b h w k some_more =
      let d = (append_ws c key a q ts sync_fails).0 in
      let synced = synced-fields a q ts line w in
      let r = (History-Sound c key h).records in
      let held : Holds a r.lines r.es = record {
        file_is = r.file_is;
        clean = r.clean;
        parsed = r.parsed;
      } in
      next_breaks a d b (r.lines ++ line ∷ []) ls r.es more (event c key a q ts line w)
        (Holds-snoc a d r.lines r.es q ts line w held (event c key a q ts line w) w.parses synced.0)
        refl synced.1 k some_more
