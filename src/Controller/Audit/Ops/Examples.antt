-- ===== src/Controller/Audit/Ops/Examples.antt =====
-- An audit log of one record, with a codec that writes the kind of an event only.
use geneza.Base.{
  ℕ, ◌+◌, ◌≤◌, ◌↔◌, ◌⊎◌, ◌≢◌, ◌≡◌, refl, true, false, Option, none, some, List, [], ◌∷◌, ◌++◌,
  length, Str, bytes, bytes_eq, inl, inr, ap, sym, ◌∙◌, if◌then◌else◌, arith,
}
use geneza.Base.Int.{ℤ, pos}
use geneza.Controller.Audit.{
  AuditEvent, Codec, audit_mac, CheckpointFile, absent, saved, ok, hex, scan_audit_file, Scan,
}
use geneza.Controller.Audit.Chain.{records}
use geneza.Controller.Audit.Ops.{
  Audit, Request, write_stops, sync_fails, appends, next_event, open_audit, append_ws, verify,
}
use geneza.Controller.Audit.Ops.Tamper.{lines_of, Intact, verify_iff, scan_audit_file_unique}
use geneza.Controller.Audit.Ops.Opening.{Written}
use geneza.Controller.Audit.Ops.History.{event, SameLog, History, begins, History-recovers}
use geneza.Controller.Audit.Ops.Verify.{no_more, one_more, History-verify, append_ws-sync_fails}
use geneza.Controller.Audit.Query.{AuditQuery, AuditPage, matched, query_page, query_page-tiles}

abbrev login : Request
login = record {
  workspace = bytes "w";
  kind = bytes "a";
  actor = bytes "ann";
  node = [];
  session = [];
  detail = [];
}

abbrev logout : Request
logout = record login { kind = bytes "c" }

abbrev fresh : Audit
fresh = record {
  file = [];
  checkpoint = saved (record { seq = pos 0; hash = []; count = 0 });
  last = [];
  seq = pos 0;
  count = 0;
}

abbrev logged_in : AuditEvent
logged_in = record {
  seq = pos 1;
  ts = pos 5;
  workspace = bytes "w";
  kind = bytes "a";
  actor = bytes "ann";
  node = [];
  session = [];
  detail = [];
  prev = [];
  hash = bytes "6d61";
}

abbrev logged_out : AuditEvent
logged_out = record logged_in { ts = pos 6; kind = bytes "c"; hash = bytes "6d63" }

abbrev codec : Codec
codec = record {
  marshal = λ e. some ((if bytes_eq e.hash [] then b'm' else b'r') ∷ e.kind);
  unmarshal = λ l.
      if bytes_eq l (bytes "ra")
      then some logged_in
      else if bytes_eq l (bytes "rc")
      then some logged_out
      else none;
  hmac = λ key text. text;
}

abbrev one_record : Str
one_record = bytes "ra" ++ b'\n' ∷ []

abbrev one_logged : Audit
one_logged = record fresh { file = one_record; last = bytes "6d61"; seq = pos 1; count = 1 }

fresh-opens : open_audit codec [] [] absent true ≡ ok fresh
unfolding open_audit scan_audit_file geneza.Controller.Audit.repair_torn_tail
    geneza.Controller.Audit.repair_lines geneza.Controller.Audit.repair_line
    geneza.Controller.Audit.Ops.check_checkpoint geneza.Controller.Audit.scan_lines
    geneza.Controller.Audit.split_lines geneza.Controller.Audit.push_byte
    geneza.Controller.Audit.scan_line geneza.Controller.Audit.check_record
    geneza.Controller.Audit.drop_cr bytes_eq geneza.Base.Int.◌+ℤ◌ audit_mac
fresh-opens = refl

login-Written : Written codec [] fresh login (pos 5) (bytes "ra")
unfolding next_event audit_mac bytes_eq geneza.Base.Int.◌+ℤ◌
login-Written = record {
  mac = bytes "6d61";
  mac_is = refl;
  marshals = refl;
  parses = refl;
  is_line = record { printable = omega arith; full = omega arith; short = omega arith };
}

fresh-History : History codec [] fresh
fresh-History = begins true fresh-opens

History-recovers_example :
    let disk = (append_ws codec [] fresh login (pos 5) (write_stops 2)).0 in
    (b : Audit) × (open_audit codec [] disk.file disk.checkpoint false ≡ ok b)
    × (SameLog b fresh ⊎ SameLog b (append_ws codec [] fresh login (pos 5) appends).0)
History-recovers_example =
    History-recovers codec [] login (pos 5) (bytes "ra") (write_stops 2) false fresh-History
      login-Written

History-verify_example : verify codec [] fresh ≡ (0, none)
History-verify_example = History-verify codec [] fresh-History

logout-Written :
    Written codec []
      (append_ws codec [] fresh login (pos 5) sync_fails).0
      logout
      (pos 6)
      (bytes "rc")
unfolding append_ws next_event audit_mac bytes_eq geneza.Base.Int.◌+ℤ◌
logout-Written = record {
  mac = bytes "6d63";
  mac_is = refl;
  marshals = refl;
  parses = refl;
  is_line = record { printable = omega arith; full = omega arith; short = omega arith };
}

append_ws-sync_fails_example :
    (verify codec []
      (append_ws codec []
        (append_ws codec [] fresh login (pos 5) sync_fails).0
        logout
        (pos 6)
        appends).0).1
    ≢ none
append_ws-sync_fails_example =
    append_ws-sync_fails codec [] login (pos 5) (bytes "ra") (bytes "rc" ∷ [])
      (event codec [] (append_ws codec [] fresh login (pos 5) sync_fails).0 logout (pos 6)
          (bytes "rc") logout-Written
        ∷ [])
      _ fresh-History login-Written
      (one_more _ _ logout (pos 6) (bytes "rc") [] [] logout-Written (no_more _)) (λ e. cc)

verify_iff_example :
    ((verify codec [] one_logged).1 ≡ none) ↔ Intact codec [] one_logged.file one_logged.checkpoint
verify_iff_example = verify_iff codec [] one_logged

abbrev scanned_one : Scan
scanned_one = record {
  prev = bytes "6d61";
  seq = pos 1;
  count = 1;
  seen = (bytes "ra", logged_in) ∷ [];
}

one_record-scans : scan_audit_file codec [] one_record ≡ (scanned_one, none)
unfolding scan_audit_file geneza.Controller.Audit.scan_lines geneza.Controller.Audit.split_lines
    geneza.Controller.Audit.push_byte geneza.Controller.Audit.scan_line
    geneza.Controller.Audit.check_record geneza.Controller.Audit.drop_cr bytes_eq
    geneza.Base.Int.◌+ℤ◌ audit_mac
one_record-scans = refl

scan_audit_file_unique_example : logged_in ∷ [] ≡ logged_in ∷ []
unfolding records lines_of geneza.Controller.Audit.split_lines geneza.Controller.Audit.push_byte
    bytes_eq geneza.Controller.Audit.unfinished
scan_audit_file_unique_example =
    scan_audit_file_unique codec [] one_record one_record scanned_one scanned_one (logged_in ∷ [])
      (logged_in ∷ []) one_record-scans one_record-scans refl refl refl refl
      (λ d e m m' h. elim m [
        | inr n ↦ absurd n
        | inl p ↦ elim m' [
          | inr n ↦ absurd n
          | inl p' ↦ ap (λ (x : AuditEvent). record x { hash = [] }) (p ∙ sym p')
        ]
      ])

abbrev all_logins : AuditQuery
all_logins = record {
  since_unix = pos 0;
  until_unix = pos 0;
  kind = bytes "a";
  workspace = [];
  actor = [];
  node = [];
  limit = pos 10;
  offset = pos 0;
}

query_page-tiles_logins :
    let at = λ (n l : ℕ).
      query_page codec [] one_record (record all_logins { offset = pos n; limit = pos l }) in
    let all = matched all_logins (scan_audit_file codec [] one_record).0.seen in
    (newer older both : AuditPage) × (at 0 1 ≡ some newer)
    × (at 1 2 ≡ some older)
    × (at 0 3 ≡ some both)
    × (both.lines ≡ older.lines ++ newer.lines)
    × (both.total ≡ length all)
    × (◌≡◌ {A = ℕ} 0 0 → length all ≤ 1 → newer.lines ≡ all)
query_page-tiles_logins =
    query_page-tiles codec [] one_record all_logins 0 1 2 (omega arith) (omega arith)
