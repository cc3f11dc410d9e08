-- ===== src/Controller/Audit.antt =====
-- internal/controller/audit.go: the keyed, append-only chain of audit records in a file of lines.
-- The file is the list of its bytes. encoding/json and HMAC-SHA256 are the fields of a `Codec`, an
-- int64 is an integer, and a nil error is `none`. The path of the checkpoint is set, and writing it
-- replaces it as a whole (a rename). The mirror off the host, which may fail without an error, and the
-- cached verdict of VerifyCached are left out.
pub mod Ops
pub mod Lines
pub mod Chain
pub mod Query
use geneza.Base.{
  ℕ, ◌+◌, ◌-◌, ◌/◌, ◌%◌, ◌^◌, Bool, true, false, not, ◌&&◌, Option, none, some, List, [], ◌∷◌, ◌++◌,
  ◌≡◌, refl, ltb, leb, ◌==◌, if◌then◌else◌, length, take, drop, Str, bytes_eq,
}
use geneza.Base.Int.{ℤ, pos, ◌+ℤ◌, ◌-ℤ◌, ltb_ℤ, leb_ℤ, eqb_ℤ, pos_part}
use geneza.Base.Dict.{Dict}

pub record AuditEvent : Type 0 where
  pub seq : ℤ
  pub ts : ℤ
  pub workspace : Str
  pub kind : Str
  pub actor : Str
  pub node : Str
  pub session : Str
  pub detail : Dict Str
  pub prev : Str
  pub hash : Str

pub record Checkpoint : Type 0 where
  pub seq : ℤ
  pub hash : Str
  pub count : ℕ

-- What loadCheckpoint meets.
pub data CheckpointFile : Type 0 where
  absent malformed_file : CheckpointFile
  saved : Checkpoint → CheckpointFile

pub data AuditError : Type 0 where
  malformed chain_break gap bad_json mac_mismatch too_long truncated checkpoint_mismatch
        bad_checkpoint write_failed sync_failed save_failed :
      AuditError

pub data Result {ℓ} (A : Type ℓ) : Type ℓ where
  err : AuditError → Result A
  ok : A → Result A

infixl 5 ◌>>=◌
-- An error ends the computation.
abbrev pub ◌>>=◌ {ℓ ν} : {A : Type ℓ} {B : Type ν} → Result A → (A → Result B) → Result B
err problem >>= next = err problem
ok value >>= next = next value

-- A bind that succeeds comes from two successes.
pub >>=-eq-ok {ℓ ν} :
    {A : Type ℓ} {B : Type ν} (first : Result A) (next : A → Result B) {result : B}
    → ◌>>=◌ first next ≡ ok result
    → (value : A) × (first ≡ ok value) × (next value ≡ ok result)
>>=-eq-ok (err problem) next h = cc
>>=-eq-ok (ok value) next h = (value, refl, h)

-- What the file is read with: JSON, and HMAC-SHA256 under a key.
pub record Codec : Type 0 where
  pub marshal : AuditEvent → Option Str
  pub unmarshal : Str → Option AuditEvent
  pub hmac : Str → Str → Str

-- hex.EncodeToString
abbrev hex_digit : ℕ → ℕ
hex_digit n = if ltb n 10 then b'0' + n else b'a' + (n - 10)

unfoldable pub hex : Str → Str
hex [] = []
hex (b ∷ s) = hex_digit (b / 16) ∷ hex_digit (b % 16) ∷ hex s

-- bufio.Scanner's limit on a line, as the code sets it.
abbrev pub max_line : ℕ
max_line = 2 ^ 22

-- The lines that a newline ends, and what follows the last newline.
pub push_byte : ℕ → List Str × Str → List Str × Str
push_byte b ([], rest) = ([], b ∷ rest)
push_byte b (l ∷ ls, rest) = ((b ∷ l) ∷ ls, rest)

pub split_lines : Str → List Str × Str
split_lines [] = ([], [])
split_lines (b ∷ s) = let r = split_lines s in if b == b'\n' then ([] ∷ r.0, r.1) else push_byte b r

-- What bufio.ScanLines makes of a line that ends in a carriage return.
pub drop_cr : Str → Str
drop_cr [] = []
drop_cr (b ∷ []) = if b == b'\r' then [] else b ∷ []
drop_cr (b ∷ c ∷ s) = b ∷ drop_cr (c ∷ s)

-- The scan of a file: the hash and the number of the last record, how many there were, and the lines
-- that the callback saw.
pub record Scan : Type 0 where
  pub prev : Str
  pub seq : ℤ
  pub count : ℕ
  pub seen : List (Str × AuditEvent)

abbrev pub start : Scan
start = record { prev = []; seq = pos 0; count = 0; seen = [] }

-- repairTornTail: the records that are complete, up to the byte where the last of them ends.
pub record Repair : Type 0 where
  pub prev : Str
  pub seq : ℤ
  pub last_good_end : ℕ

abbrev pub repair_start : Repair
repair_start = record { prev = []; seq = pos 0; last_good_end = 0 }

abbrev is_empty : Str → Bool
is_empty s = length s == 0

pub unfinished : Str → List Str
unfinished [] = []
unfinished (b ∷ s) = (b ∷ s) ∷ []

module _ (c : Codec) (key : Str) where
  pub audit_mac : AuditEvent → Option Str
  unfolding hex
  audit_mac e = elim (c.marshal (record e { hash = [] })) [
    | none ↦ none
    | some b ↦ some (hex (c.hmac key b))
  ]

  check_mac : AuditEvent → Option Str → Option AuditError
  check_mac e none = some bad_json
  check_mac e (some want) = if bytes_eq e.hash want then none else some mac_mismatch

  -- The checks of one record after a record with the hash `prev` and the number `seq`.
  pub check_record : Str → ℤ → AuditEvent → Option AuditError
  unfolding check_mac
  check_record prev seq e =
      if not (bytes_eq e.prev prev)
      then some chain_break
      else if not (eqb_ℤ e.seq (seq +ℤ pos 1))
      then some gap
      else check_mac e (audit_mac e)

  pub scan_record : Scan → Str → Option AuditEvent → Result Scan
  scan_record s line none = err malformed
  scan_record s line (some e) = elim (check_record s.prev s.seq e) [
    | some problem ↦ err problem
    | none ↦ ok (record {
      prev = e.hash;
      seq = e.seq;
      count = s.count + 1;
      seen = s.seen ++ (line, e) ∷ [];
    })
  ]

  pub scan_line : Scan → Str → Result Scan
  unfolding scan_record drop_cr
  scan_line s l =
      if leb max_line (length l)
      then err too_long
      else if is_empty (drop_cr l)
      then ok s
      else scan_record s (drop_cr l) (c.unmarshal (drop_cr l))

  pub scan_lines : List Str → Scan → Scan × Option AuditError
  scan_lines [] s = (s, none)
  scan_lines (l ∷ ls) s = elim (scan_line s l) [
    | err problem ↦ (s, some problem)
    | ok s' ↦ scan_lines ls s'
  ]

  -- scanAuditFile, with every call of the callback in `seen`.
  pub scan_audit_file : Str → Scan × Option AuditError
  unfolding unfinished
  scan_audit_file file =
      let (ls, rest) = split_lines file in scan_lines (ls ++ unfinished rest) start

  pub repair_record : Repair → ℕ → Option AuditEvent → Result Repair
  repair_record r good_end none = err malformed
  repair_record r good_end (some e) = elim (check_record r.prev r.seq e) [
    | some problem ↦ err problem
    | none ↦ ok (record { prev = e.hash; seq = e.seq; last_good_end = good_end })
  ]

  pub repair_line : Repair → Str → Result Repair
  unfolding repair_record
  repair_line r l =
      let good_end = r.last_good_end + length l + 1 in
      if is_empty l
      then ok (record r { last_good_end = good_end })
      else repair_record r good_end (c.unmarshal l)

  pub repair_lines : List Str → Repair → Result Repair
  repair_lines [] r = ok r
  repair_lines (l ∷ ls) r = repair_line r l >>= λ r'. repair_lines ls r'

  pub repair_torn_tail : Str → Result Str
  repair_torn_tail file =
      let (ls, rest) = split_lines file in
      repair_lines ls repair_start >>= λ (r : Repair).
      ok (if is_empty rest then file else take r.last_good_end file)
