-- ===== src/Controller/Audit/Ops/History.antt =====
-- The life of an audit log: appends, crashes and openings.
use geneza.Base.{
  ℕ, zero, suc, ◌+◌, ◌⊎◌, sym, ap, ◌∙◌, subst, Bool, ◌≡◌, refl, none, some, List, [], ◌∷◌, ◌++◌,
  length, Str, arith, inl, inr, All, take, take_all, length-append,
}
use geneza.Base.Int.{ℤ, pos, ◌+ℤ◌, ltb_ℤ, pos-add_one}
use mathlib.Core.List.{append-nil}
use geneza.Controller.Audit.{
  AuditEvent, Codec, ok, audit_mac, CheckpointFile, absent, malformed_file, saved,
}
use geneza.Controller.Audit.Lines.{OneLine}
use geneza.Controller.Audit.Chain.{last_hash}
use geneza.Controller.Audit.Ops.{
  Audit, Request, Outcome, write_stops, sync_fails, save_fails, appends, next_event, open_audit,
  append_ws, put_event, put_record, put_line, recorded, saved_checkpoint,
}
use geneza.Controller.Audit.Ops.Recovery.{IsLine, OneLine-printable, join-append, Parses-append}
use geneza.Controller.Audit.Ops.Opening.{
  Behind, Records, Sound, Written, not_ahead, open_audit-Records, last_hash-append, Linked-append,
}

pub All-append {ℓ κ} :
    {A : Type ℓ} (P : A → Type κ) (xs ys : List A) → All P xs → All P ys → All P (xs ++ ys)
All-append P [] ys h k = k
All-append P (x ∷ xs) ys h k = (h.0, All-append P xs ys h.1 k)

-- What a crash leaves of a line is all of it, or has no newline.
take-OneLine :
    (n : ℕ) (l : Str)
    → OneLine l
    → (take n (l ++ b'\n' ∷ []) ≡ l ++ b'\n' ∷ []) ⊎ OneLine (take n (l ++ b'\n' ∷ []))
take-OneLine zero l h = inr tt
take-OneLine (suc n) [] h = inl (ap (◌∷◌ b'\n') (take_all n [] (omega arith)))
take-OneLine (suc n) (b ∷ l) h = elim (take-OneLine n l h.1) [
  | inl e ↦ inl (ap (◌∷◌ b) e)
  | inr o ↦ inr (h.0, o)
]

Behind-append :
    (k : CheckpointFile) (es : List AuditEvent) (e : AuditEvent)
    → Behind k es
    → Behind k (es ++ e ∷ [])
Behind-append absent es e b = tt
Behind-append malformed_file es e b = b
Behind-append (saved k) es e b =
    let n = length-append es (e ∷ []) in
    (rw n (ground (arith, b.0)), λ q. absurd (ground (arith, b.0, n, q)))

-- The two logs hold the same records and go on from the same one.
pub record SameLog (b a : Audit) : Type 0 where
  pub file : b.file ≡ a.file
  pub last : b.last ≡ a.last
  pub seq : b.seq ≡ a.seq
  pub count : b.count ≡ a.count

module _ (c : Codec) (key : Str) where
  module _ (a : Audit) (q : Request) (ts : ℤ) (line : Str) (w : Written c key a q ts line) where
    abbrev pub event : AuditEvent
    event = record (next_event a q ts) { hash = w.mac }

    pub append_ws-put :
        (o : Outcome) → append_ws c key a q ts o ≡ put_line a event (line ++ b'\n' ∷ []) o
    unfolding append_ws put_event put_record
    append_ws-put o = rw (w.mac_is, put_event, w.marshals, put_record) refl

    audit_mac-event : audit_mac c key event ≡ some w.mac
    unfolding audit_mac next_event
    audit_mac-event = w.mac_is

    abbrev pub full_line : Str
    full_line = line ++ b'\n' ∷ []

    -- The file with the record, under any checkpoint that is not ahead of it.
    Records-append :
        (s : Sound c key a) (k : CheckpointFile)
        → Behind k (s.records.es ++ event ∷ [])
        → (r : Records c key (a.file ++ full_line) k) × (r.es ≡ s.records.es ++ event ∷ [])
    unfolding next_event
    Records-append s k b = (
      record {
        lines = s.records.lines ++ line ∷ [];
        es = s.records.es ++ event ∷ [];
        file_is =
            ap (λ f. f ++ full_line) s.records.file_is ∙ sym (join-append s.records.lines line);
        clean = All-append IsLine s.records.lines (line ∷ []) s.records.clean (w.is_line, tt);
        parsed = Parses-append c s.records.lines s.records.es line event s.records.parsed w.parses;
        linked =
            Linked-append c key [] (pos 0) 0 s.records.es event refl s.records.linked s.last
              (ap (λ z. z +ℤ pos 1) s.seq ∙ ap (λ (n : ℕ). pos n +ℤ pos 1) (omega arith))
              audit_mac-event;
        behind = b;
      },
      refl,
    )

    event_seq : (s : Sound c key a) → event.seq ≡ pos (length (s.records.es ++ event ∷ []))
    unfolding next_event
    event_seq s =
        ap (λ z. z +ℤ pos 1) s.seq
        ∙ pos-add_one (length s.records.es)
        ∙ ap pos (omega (arith, length-append s.records.es (event ∷ [])))

    abbrev pub after : Audit
    after = record {
      file = a.file ++ full_line;
      checkpoint = saved (record { seq = event.seq; hash = event.hash; count = a.count + 1 });
      last = event.hash;
      seq = event.seq;
      count = a.count + 1;
    }

    after-Behind : (s : Sound c key a) → Behind after.checkpoint (s.records.es ++ event ∷ [])
    after-Behind s = (
      ap (λ z. ltb_ℤ (pos (length (s.records.es ++ event ∷ []))) z) (event_seq s)
          ∙ not_ahead (length (s.records.es ++ event ∷ [])),
      λ _. sym (last_hash-append c key [] s.records.es event),
    )

    pub append_ws-after : append_ws c key a q ts appends ≡ (after, none)
    unfolding put_line recorded saved_checkpoint
    append_ws-after = append_ws-put appends

    full-opens :
        (s : Sound c key a) (k : CheckpointFile) (saves : Bool)
        → Behind k (s.records.es ++ event ∷ [])
        → (b : Audit) × (open_audit c key (a.file ++ full_line) k saves ≡ ok b)
          × SameLog b after
          × Sound c key b
    unfolding next_event
    full-opens s k saves behind =
        let (r, e) = Records-append s k behind in
        let (b, q, stands, sound) =
          open_audit-Records c key (a.file ++ full_line) [] k saves tt r in
        let n : length r.es ≡ suc (length s.records.es) =
          omega (arith, ap length e, length-append s.records.es (event ∷ [])) in
        (
          b,
          ap (λ f. open_audit c key f k saves) (sym (append-nil (a.file ++ full_line))) ∙ q,
          record {
            file = stands.0;
            last = stands.1 ∙ ap (last_hash []) e ∙ last_hash-append c key [] s.records.es event;
            seq =
                stands.2
                ∙ ap pos n
                ∙ sym (pos-add_one (length s.records.es))
                ∙ ap (λ z. z +ℤ pos 1) (sym s.seq);
            count = omega (arith, stands.3, n, s.count);
          },
          sound,
        )

    -- What a disk with this file and this checkpoint opens as.
    abbrev Opens : Audit → Bool → Type 0
    Opens disk saves =
        (b : Audit) × (open_audit c key disk.file disk.checkpoint saves ≡ ok b)
        × (SameLog b a ⊎ SameLog b after)
        × Sound c key b

    full-Opens :
        (s : Sound c key a) (k : CheckpointFile) (saves : Bool)
        → Behind k (s.records.es ++ event ∷ [])
        → Opens (record a { file = a.file ++ full_line; checkpoint = k }) saves
    full-Opens s k saves behind =
        let (b, q, same, sound) = full-opens s k saves behind in (b, q, inr same, sound)

    torn-Opens :
        (s : Sound c key a) (torn : Str) (saves : Bool)
        → OneLine torn
        → Opens (record a { file = a.file ++ torn }) saves
    torn-Opens s torn saves o =
        let (b, q, stands, sound) =
          open_audit-Records c key a.file torn a.checkpoint saves o s.records in
        (
          b,
          q,
          inl (record {
            file = stands.0;
            last = stands.1 ∙ sym s.last;
            seq = stands.2 ∙ sym s.seq;
            count = stands.3 ∙ sym s.count;
          }),
          sound,
        )

    put_line-Opens :
        (s : Sound c key a) (o : Outcome) (saves : Bool)
        → Opens (put_line a event full_line o).0 saves
    unfolding put_line recorded saved_checkpoint
    put_line-Opens s (write_stops n) saves =
        elim (take-OneLine n line (OneLine-printable line w.is_line.printable)) [
          | inl e ↦
              subst (λ f. Opens (record a { file = a.file ++ f }) saves) (sym e)
                (full-Opens s a.checkpoint saves
                  (Behind-append a.checkpoint s.records.es event s.records.behind))
          | inr o ↦ torn-Opens s (take n full_line) saves o
        ]
    put_line-Opens s sync_fails saves =
        full-Opens s a.checkpoint saves
          (Behind-append a.checkpoint s.records.es event s.records.behind)
    put_line-Opens s save_fails saves =
        full-Opens s a.checkpoint saves
          (Behind-append a.checkpoint s.records.es event s.records.behind)
    put_line-Opens s appends saves = full-Opens s after.checkpoint saves (after-Behind s)

    after-Sound :
        (s : Sound c key a) (k : CheckpointFile)
        → Behind k (s.records.es ++ event ∷ [])
        → Sound c key (record after { checkpoint = k })
    after-Sound s k behind =
        let (r, e) = Records-append s k behind in
        record {
          records = r;
          last = sym (ap (last_hash []) e ∙ last_hash-append c key [] s.records.es event);
          seq = event_seq s ∙ ap (λ es. pos (length es)) (sym e);
          count = omega (arith, s.count, ap length e, length-append s.records.es (event ∷ []));
        }

    -- An append that records, with or without its checkpoint.
    pub append_ws-Sound : Sound c key a → Sound c key (append_ws c key a q ts appends).0
    append_ws-Sound s =
        subst (λ r. Sound c key r.0) (sym append_ws-after)
          (after-Sound s after.checkpoint (after-Behind s))

    pub append_ws-unsaved-Sound : Sound c key a → Sound c key (append_ws c key a q ts save_fails).0
    unfolding put_line recorded
    append_ws-unsaved-Sound s =
        subst (λ r. Sound c key r.0) (sym (append_ws-put save_fails))
          (after-Sound s a.checkpoint
            (Behind-append a.checkpoint s.records.es event s.records.behind))

    pub append_ws-opens :
        (s : Sound c key a) (o : Outcome) (saves : Bool)
        → let disk = (append_ws c key a q ts o).0 in
          (b : Audit) × (open_audit c key disk.file disk.checkpoint saves ≡ ok b)
          × (SameLog b a ⊎ SameLog b (append_ws c key a q ts appends).0)
          × Sound c key b
    append_ws-opens s o saves =
        subst
          (λ (d : Audit × Audit).
            (b : Audit) × (open_audit c key d.0.file d.0.checkpoint saves ≡ ok b)
            × (SameLog b a ⊎ SameLog b d.1)
            × Sound c key b)
          (λ i. ((sym (append_ws-put o) i).0, (sym append_ws-after i).0)) (put_line-Opens s o saves)

  -- The logs of a history: an empty file is opened, requests are appended, with or without their
  -- checkpoint, and the log is opened again after a crash in the middle of an append.
  pub data History : Audit → Type 0 where
    begins : {b : Audit} (saves : Bool) → open_audit c key [] absent saves ≡ ok b → History b
    grows :
        {a b : Audit} (q : Request) (ts : ℤ) (line : Str)
        → History a
        → Written c key a q ts line
        → b ≡ (append_ws c key a q ts appends).0
        → History b
    unsaved :
        {a b : Audit} (q : Request) (ts : ℤ) (line : Str)
        → History a
        → Written c key a q ts line
        → b ≡ (append_ws c key a q ts save_fails).0
        → History b
    reopens :
        {a d b : Audit} (q : Request) (ts : ℤ) (line : Str) (o : Outcome) (saves : Bool)
        → History a
        → Written c key a q ts line
        → d ≡ (append_ws c key a q ts o).0
        → open_audit c key d.file d.checkpoint saves ≡ ok b
        → History b

  ok-injective : {a b : Audit} → ok a ≡ ok b → a ≡ b
  ok-injective h = cc

  empty : Records c key [] absent
  empty = record {
    lines = [];
    es = [];
    file_is = refl;
    clean = tt;
    parsed = tt;
    linked = tt;
    behind = tt;
  }

  pub History-Sound : {a : Audit} → History a → Sound c key a
  History-Sound (begins saves h) =
      let (b, q, stands, sound) = open_audit-Records c key [] [] absent saves tt empty in
      subst (Sound c key) (ok-injective (sym q ∙ h)) sound
  History-Sound (grows q ts line h w e) =
      subst (Sound c key) (sym e) (append_ws-Sound _ q ts line w (History-Sound h))
  History-Sound (unsaved q ts line h w e) =
      subst (Sound c key) (sym e) (append_ws-unsaved-Sound _ q ts line w (History-Sound h))
  History-Sound (reopens q ts line o saves h w e r) =
      let (b, opens, same, sound) = append_ws-opens _ q ts line w (History-Sound h) o saves in
      subst (Sound c key)
        (ok-injective
          (sym opens ∙ ap (λ d. open_audit c key d.file d.checkpoint saves) (sym e) ∙ r))
        sound

  -- Whatever appends that succeed, failed checkpoints and crashes with an opening after them a log has
  -- been through, a crash at any point of the next append leaves a disk that opens again, with the log as it was before the append or as a
  -- whole append leaves it, if JSON reads back the record as it writes it.
  pub History-recovers :
      {a : Audit} (q : Request) (ts : ℤ) (line : Str) (o : Outcome) (saves : Bool)
      → History a
      → Written c key a q ts line
      → let disk = (append_ws c key a q ts o).0 in
        (b : Audit) × (open_audit c key disk.file disk.checkpoint saves ≡ ok b)
        × (SameLog b a ⊎ SameLog b (append_ws c key a q ts appends).0)
  History-recovers q ts line o saves h w =
      let (b, opens, same, sound) = append_ws-opens _ q ts line w (History-Sound h) o saves in
      (b, opens, same)
