-- ===== src/Controller/Audit/Ops.antt =====
-- internal/controller/audit.go: OpenAudit, AppendWS, Verify and QueryPage.
pub mod Tamper
pub mod Recovery
pub mod Opening
pub mod History
pub mod Verify
mod Examples
use geneza.Base.{
  ℕ, ◌+◌, ◌-◌, Bool, true, false, not, ◌&&◌, ◌||◌, Option, none, some, List, [], ◌∷◌, ◌++◌, map,
  ltb, leb, ◌==◌, if◌then◌else◌, length, take, drop, Str, bytes_eq, ◌≤◌,
}
use geneza.Base.Int.{ℤ, pos, ◌+ℤ◌, ◌-ℤ◌, ltb_ℤ, leb_ℤ, eqb_ℤ, pos_part}
use geneza.Base.Dict.{Dict}
use geneza.Controller.Audit.{
  AuditEvent, Checkpoint, CheckpointFile, absent, malformed_file, saved, AuditError, bad_json,
  truncated, checkpoint_mismatch, bad_checkpoint, write_failed, sync_failed, save_failed, Result,
  ok, err, ◌>>=◌, Codec, audit_mac, Scan, scan_audit_file, repair_torn_tail,
}

-- The audit log with what it has on the disk.
pub record Audit : Type 0 where
  pub file : Str
  pub checkpoint : CheckpointFile
  pub last : Str
  pub seq : ℤ
  pub count : ℕ

-- What the caller of AppendWS asks to record.
pub record Request : Type 0 where
  pub workspace : Str
  pub kind : Str
  pub actor : Str
  pub node : Str
  pub session : Str
  pub detail : Dict Str

-- What the disk does with an append: the write stops after some bytes, the sync fails, the checkpoint
-- is not written, or all goes well.
pub data Outcome : Type 0 where
  write_stops : ℕ → Outcome
  sync_fails save_fails appends : Outcome

pub saved_checkpoint : Audit → CheckpointFile
saved_checkpoint a = saved (record { seq = a.seq; hash = a.last; count = a.count })

-- The cross-check of the checkpoint with the last record of the file.
pub check_checkpoint : CheckpointFile → Scan → Option AuditError
check_checkpoint absent s = none
check_checkpoint malformed_file s = some bad_checkpoint
check_checkpoint (saved k) s =
    if ltb_ℤ s.seq k.seq
    then some truncated
    else if eqb_ℤ k.seq s.seq && not (bytes_eq k.hash s.prev)
    then some checkpoint_mismatch
    else none

pub is_truncated : CheckpointFile → Scan → Option AuditError
is_truncated absent s = none
is_truncated malformed_file s = none
is_truncated (saved k) s = if ltb_ℤ s.seq k.seq then some truncated else none

pub verdict : CheckpointFile → Scan × Option AuditError → ℕ × Option AuditError
unfolding is_truncated
verdict k (s, some problem) = (s.count, some problem)
verdict k (s, none) = (s.count, is_truncated k s)

-- The event of a request at a time, as the next record before its hash is set.
pub next_event : Audit → Request → ℤ → AuditEvent
next_event a q ts = record {
  seq = a.seq +ℤ pos 1;
  ts = ts;
  workspace = q.workspace;
  kind = q.kind;
  actor = q.actor;
  node = q.node;
  session = q.session;
  detail = q.detail;
  prev = a.last;
  hash = [];
}

-- a.last, a.seq and a.count after a write.
recorded : Audit → AuditEvent → Audit
recorded a e = record a { last = e.hash; seq = e.seq; count = a.count + 1 }

pub put_line : Audit → AuditEvent → Str → Outcome → Audit × Option AuditError
unfolding recorded saved_checkpoint
put_line a e line (write_stops n) = (record a { file = a.file ++ take n line }, some write_failed)
put_line a e line sync_fails = (record a { file = a.file ++ line }, some sync_failed)
put_line a e line save_fails = (recorded (record a { file = a.file ++ line }) e, some save_failed)
put_line a e line appends =
    let b = recorded (record a { file = a.file ++ line }) e in
    (record b { checkpoint = saved_checkpoint b }, none)

module _ (c : Codec) (key : Str) where
  put_record : Audit → AuditEvent → Outcome → Option Str → Audit × Option AuditError
  unfolding put_line
  put_record a e o none = (a, some bad_json)
  put_record a e o (some line) = put_line a e (line ++ b'\n' ∷ []) o

  put_event : Audit → AuditEvent → Outcome → Option Str → Audit × Option AuditError
  unfolding put_record
  put_event a e o none = (a, some bad_json)
  put_event a e o (some h) = let e' = record e { hash = h } in put_record a e' o (c.marshal e')

  -- AppendWS.
  pub append_ws : Audit → Request → ℤ → Outcome → Audit × Option AuditError
  unfolding put_event
  append_ws a q ts o = let e = next_event a q ts in put_event a e o (audit_mac c key e)

  opened : Str → CheckpointFile → Bool → Scan × Option AuditError → Result Audit
  unfolding saved_checkpoint
  opened file k saves (s, some problem) = err problem
  opened file k saves (s, none) = elim (check_checkpoint k s) [
    | some problem ↦ err problem
    | none ↦
        let a : Audit = record {
          file = file;
          checkpoint = k;
          last = s.prev;
          seq = s.seq;
          count = s.count;
        } in
        ok (if saves then record a { checkpoint = saved_checkpoint a } else a)
  ]

  -- OpenAudit, on the file and the checkpoint that it finds; `saves` says that the checkpoint could be
  -- written, which is only a warning if not.
  pub open_audit : Str → CheckpointFile → Bool → Result Audit
  unfolding opened
  open_audit file k saves =
      repair_torn_tail c key file >>= λ (f : Str). opened f k saves (scan_audit_file c key f)

  -- verifyLocked: the count, and the error.
  pub verify : Audit → ℕ × Option AuditError
  unfolding verdict
  verify a = verdict a.checkpoint (scan_audit_file c key a.file)
