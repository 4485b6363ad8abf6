-- ===== src/Audit/Log.antt =====
-- The log file of src/audit.rs: reading it back with all its checks, and appending to it. The file is
-- its bytes; `append` is given what the system supplies.
use inference_io.Prelude.{
  ℕ, zero, suc, ◌+◌, ◌*◌, Bool, true, false, ◌&&◌, ◌||◌, [], ◌∷◌, ◌++◌, Option, none, some, Result,
  ok, err, ◌>>=◌, ◌>>◌, ensure, saturating_add, u64_max, ltb, leb, ◌==◌, if◌then◌else◌, length,
}
use inference_io.Bytes.{Bytes, ascii, bytes_eq}
use inference_io.Bytes.Lines.{newline, Line, read_until, at_end}
use inference_io.Json.{Value, get, as_str}
use inference_io.Input.{InputError, validate_json_complexity}
use inference_io.Audit.Record.{
  AuditRecord, AuditError, incomplete_record, bad_record_size, malformed, complexity,
  too_many_records, not_contiguous, broken_chain, hash_mismatch, sequence_overflow,
  record_too_large, Codec, validate_label, validate_record, record_hash,
}

abbrev pub max_audit_record_bytes : ℕ
max_audit_record_bytes = 16 * 1024

abbrev pub max_audit_records : ℕ
max_audit_records = 10_000_000

pub data AuditMatch : Type 0 where
  request : Bytes → Bytes → Bytes → AuditMatch
  run : Bytes → Bytes → Bytes → AuditMatch

unfoldable pub request_id : Option Value → Option Bytes
request_id none = none
request_id (some details) = elim (get (ascii "request_id") details) [
  | none ↦ none
  | some value ↦ as_str value
]

unfoldable pub option_eq : Option Bytes → Option Bytes → Bool
option_eq none none = true
option_eq (some a) (some b) = bytes_eq a b
option_eq _ _ = false

unfoldable pub matches : AuditMatch → AuditRecord → Bool
matches (request action outcome id) r =
    bytes_eq r.action action
    && (bytes_eq r.outcome outcome && option_eq (request_id r.details) (some id))
matches (run action outcome run_id) r =
    bytes_eq r.action action && (bytes_eq r.outcome outcome && bytes_eq r.run_id run_id)

abbrev pub matches_target : Option AuditMatch → AuditRecord → Bool
matches_target none r = false
matches_target (some target) r = matches target r

-- The loop's variables.
pub record Scan : Type 0 where
  pub previous_hash : Option Bytes
  pub records : ℕ
  pub last_record : Option AuditRecord
  pub matched : Bool

abbrev pub fresh : Scan
fresh = record { previous_hash = none; records = 0; last_record = none; matched = false }

-- `?` on the error of another module, and on `serde_json::from_slice`.
abbrev pub lift_input : Result InputError (Unit {0}) → Result AuditError (Unit {0})
lift_input (ok u) = ok u
lift_input (err e) = err (complexity e)

abbrev pub parsed : Option AuditRecord → Result AuditError AuditRecord
parsed none = err malformed
parsed (some r) = ok r

unfoldable pub check_record :
    Codec → Option AuditMatch → AuditRecord → Scan → Result AuditError Scan
check_record c target r s = do
  validate_record r
  let records = saturating_add s.records 1
  ensure (leb records max_audit_records) too_many_records
  ensure (r.sequence == records) not_contiguous
  ensure (option_eq r.previous_sha256 s.previous_hash) broken_chain
  ensure (bytes_eq r.record_sha256 (record_hash c r)) hash_mismatch
  ok (record {
    previous_hash = some r.record_sha256;
    records = records;
    last_record = some r;
    matched = s.matched || matches_target target r;
  })

unfoldable pub check_line : Codec → Option AuditMatch → Line → Scan → Result AuditError Scan
check_line c target line s = do
  ensure line.terminated incomplete_record
  ensure (leb 1 (length line.text) && leb (length line.text) max_audit_record_bytes) bad_record_size
  lift_input (validate_json_complexity line.text)
  r ← parsed (c.from_slice line.text)
  check_record c target r s

-- The loop, on fuel: each round takes at least a byte off the file, so that its length is enough.
unfoldable pub scan_from : ℕ → Codec → Option AuditMatch → Scan → Bytes → Result AuditError Scan
scan_from zero c target s file = ok s
scan_from (suc fuel) c target s file =
    let line = read_until (max_audit_record_bytes + 2) file in
    let go = (do t ← check_line c target line s; scan_from fuel c target t line.rest) in
    if at_end line then ok s else go

unfoldable pub verify_locked_file_matching :
    Codec → Option AuditMatch → Bytes → Result AuditError Scan
verify_locked_file_matching c target file = scan_from (length file) c target fresh file

unfoldable pub verify_locked_file : Codec → Bytes → Result AuditError Scan
verify_locked_file c file = verify_locked_file_matching c none file

pub record AuditVerification : Type 0 where
  pub valid : Bool
  pub records : ℕ
  pub last_sequence : ℕ
  pub last_sha256 : Option Bytes

abbrev pub hash_of : Option AuditRecord → Option Bytes
hash_of none = none
hash_of (some r) = some r.record_sha256

abbrev pub report : Scan → AuditVerification
report scan = record {
  valid = true;
  records = scan.records;
  last_sequence = scan.records;
  last_sha256 = hash_of scan.last_record;
}

unfoldable pub verify : Codec → Bytes → Result AuditError AuditVerification
verify c file = do scan ← verify_locked_file c file; ok (report scan)

-- `none` stands for a log that does not exist.
unfoldable pub has_record : Codec → AuditMatch → Option Bytes → Result AuditError Bool
has_record c target none = ok false
has_record c target (some file) = do
  scan ← verify_locked_file_matching c (some target) file
  ok scan.matched

unfoldable pub has_request_record :
    Codec → Bytes → Bytes → Bytes → Option Bytes → Result AuditError Bool
has_request_record c action outcome id file = do
  validate_label action
  validate_label outcome
  validate_label id
  has_record c (request action outcome id) file

unfoldable pub has_run_record :
    Codec → Bytes → Bytes → Bytes → Option Bytes → Result AuditError Bool
has_run_record c action outcome run_id file = do
  validate_label action
  validate_label outcome
  validate_label run_id
  has_record c (run action outcome run_id) file

-- What the system supplies to `append`.
pub record Ambient : Type 0 where
  pub event_id : ℕ
  pub wall_time : ℕ
  pub effective_uid : ℕ
  pub process_id : ℕ

unfoldable pub next_sequence : Option AuditRecord → Result AuditError ℕ
next_sequence none = ok 1
next_sequence (some r) =
    if ltb r.sequence u64_max then ok (r.sequence + 1) else err sequence_overflow

unfoldable pub new_record :
    Codec → Ambient → Bytes → Bytes → Bytes → Option Value → ℕ → Option AuditRecord → AuditRecord
new_record c now action outcome run_id details sequence previous =
    let draft : AuditRecord = record {
      schema_version = 1;
      sequence = sequence;
      event_id = now.event_id;
      wall_time = now.wall_time;
      effective_uid = now.effective_uid;
      process_id = now.process_id;
      action = action;
      outcome = outcome;
      run_id = run_id;
      details = details;
      previous_sha256 = hash_of previous;
      record_sha256 = [];
    } in
    record draft { record_sha256 = record_hash c draft }

-- The new file and the record; on an error the file stays as it was.
unfoldable pub append :
    Codec
    → Ambient
    → Bytes
    → Bytes
    → Bytes
    → Bytes
    → Option Value
    → Result AuditError (Bytes × AuditRecord)
append c now file action outcome run_id details = do
  validate_label action
  validate_label outcome
  validate_label run_id
  scan ← verify_locked_file c file
  sequence ← next_sequence scan.last_record
  let r = new_record c now action outcome run_id details sequence scan.last_record
  validate_record r
  let bytes = c.to_vec r
  lift_input (validate_json_complexity bytes)
  ensure (leb (length bytes) max_audit_record_bytes) record_too_large
  ok (file ++ (bytes ++ newline ∷ []), r)
