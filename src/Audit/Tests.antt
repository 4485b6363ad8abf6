-- ===== src/Audit/Tests.antt =====
-- Runs of the audit log of src/audit.rs, and its theorems at concrete inputs.
use inference_io.Prelude.{
  ℕ, ◌+◌, ◌≡◌, refl, ◌⊎◌, true, List, [], ◌∷◌, ◌++◌, Option, none, some, ok, err, arith,
  if◌then◌else◌, replicate, saturating_add,
}
use inference_io.Bytes.{Bytes, ascii, bytes_eq}
use inference_io.Input.{
  validate_json_complexity, validate_json_complexity_with_limits, step, plain_byte, string_byte,
}
use inference_io.Bytes.Lines.{read_until}
use inference_io.Audit.Record.{
  AuditRecord, Codec, sha256_prefix, validate_label, validate_hash, validate_previous,
  validate_record, record_hash, incomplete_record, not_contiguous,
}
use inference_io.Audit.Log.{
  run, request, matches, AuditVerification, verify, Ambient, append, has_record, has_run_record,
  has_request_record, scan_from, verify_locked_file, verify_locked_file_matching, check_line,
  check_record, option_eq, next_sequence, new_record,
}
use inference_io.Audit.Chain.{Collision}
use inference_io.Audit.Verify.{Holds}
use inference_io.Audit.Tamper.{IsSound, verify-IsSound, head_fixes_log}
use inference_io.Audit.Append.{IsRoundTrip}
use inference_io.Audit.Extend.{verify-append}
use inference_io.Audit.Search.{IsAnswer, search-IsAnswer}

-- A stand-in for JSON and SHA-256: a record's text is its number, and its digest that digit.
abbrev digest_of : ℕ → Bytes
digest_of n = replicate 64 (48 + n)

abbrev entry : ℕ → Option Bytes → AuditRecord
entry n previous = record {
  schema_version = 1;
  sequence = n;
  event_id = 7;
  wall_time = 5;
  effective_uid = 0;
  process_id = 42;
  action = ascii "prune_run";
  outcome = ascii "completed";
  run_id = ascii "run-1";
  details = none;
  previous_sha256 = previous;
  record_sha256 = sha256_prefix ++ digest_of n;
}

abbrev first : AuditRecord
first = entry 1 none

abbrev second : AuditRecord
second = entry 2 (some first.record_sha256)

abbrev codec : Codec
codec = record {
  to_vec = λ r. (48 + r.sequence) ∷ [];
  from_slice = λ text.
      if bytes_eq text (ascii "1")
      then some first
      else if bytes_eq text (ascii "2")
      then some second
      else none;
  hex_digest = λ r. digest_of r.sequence;
}

abbrev log_1 : Bytes
log_1 = ascii "1" ++ 10 ∷ []

abbrev log_2 : Bytes
log_2 = log_1 ++ ascii "2" ++ 10 ∷ []

abbrev verified_1 : AuditVerification
verified_1 = record {
  valid = true;
  records = 1;
  last_sequence = 1;
  last_sha256 = some first.record_sha256;
}

-- Names what a run of the log computes with.
engine : Unit {0}
unfolding verify verify_locked_file verify_locked_file_matching append has_run_record has_record
    scan_from read_until check_line check_record validate_record validate_label validate_hash
    validate_previous record_hash option_eq matches next_sequence new_record
    validate_json_complexity validate_json_complexity_with_limits inference_io.Input.run step
    plain_byte string_byte saturating_add
engine = tt

verify_1 : verify codec log_1 ≡ ok verified_1
unfolding engine
verify_1 = refl

abbrev now : Ambient
now = record { event_id = 7; wall_time = 5; effective_uid = 0; process_id = 42 }

append_2 :
    append codec now log_1 (ascii "prune_run") (ascii "completed") (ascii "run-1") none
    ≡ ok (log_2, second)
unfolding engine
append_2 = refl

-- A log cut inside its last record is refused.
cut_log : verify codec (log_1 ++ ascii "2") ≡ err incomplete_record
unfolding engine
cut_log = refl

-- So is a log without its first record.
headless_log : verify codec (ascii "2" ++ 10 ∷ []) ≡ err not_contiguous
unfolding engine
headless_log = refl

has_run :
    has_run_record codec (ascii "prune_run") (ascii "completed") (ascii "run-1") (some log_2)
    ≡ ok true
unfolding engine
has_run = refl

verify-IsSound_example : (rs : List AuditRecord) × IsSound codec log_1 verified_1 rs
verify-IsSound_example = verify-IsSound codec log_1 verified_1 verify_1

head_fixes_log_example :
    ((rs : List AuditRecord) × Holds codec log_1 rs × Holds codec log_1 rs) ⊎ Collision codec
head_fixes_log_example =
    head_fixes_log codec log_1 log_1 verified_1 verified_1 verify_1 verify_1 refl

second-IsRoundTrip : IsRoundTrip codec second
second-IsRoundTrip = record { one_line = refl; not_empty = omega arith; read_back = refl }

verify-append_example :
    verify codec log_2
    ≡ ok (record {
      valid = true;
      records = 2;
      last_sequence = 2;
      last_sha256 = some second.record_sha256;
    })
verify-append_example =
    verify-append codec now log_1 (ascii "prune_run") (ascii "completed") (ascii "run-1") none log_2
      second verified_1 append_2 second-IsRoundTrip verify_1 (omega arith)

search-IsAnswer_example :
    (has_run_record codec (ascii "prune_run") (ascii "completed") (ascii "run-1") (some log_2)
        ≡ ok true
      → (rs : List AuditRecord) × IsAnswer codec
          (run (ascii "prune_run") (ascii "completed") (ascii "run-1"))
          log_2
          true
          rs)
    × (has_request_record codec (ascii "prune_run") (ascii "completed") (ascii "run-1") (some log_2)
          ≡ ok true
        → (rs : List AuditRecord) × IsAnswer codec
            (request (ascii "prune_run") (ascii "completed") (ascii "run-1"))
            log_2
            true
            rs)
search-IsAnswer_example =
    search-IsAnswer codec (ascii "prune_run") (ascii "completed") (ascii "run-1") log_2 true
