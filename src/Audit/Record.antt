-- ===== src/Audit/Record.antt =====
-- `AuditRecord` of src/audit.rs and the checks of one record.
use inference_io.Prelude.{
  ℕ, Bool, not, ◌&&◌, ◌||◌, [], ◌++◌, Option, none, some, Result, ok, ◌>>◌, ensure, ltb, leb, ◌==◌,
  length, drop,
}
use inference_io.Bytes.{Bytes, ascii, starts_with, contains, all}
use native.Mathlib.Decide.{ℕ_discrete}
use inference_io.Json.{Value, Value-discrete}
use inference_io.Input.{InputError}

-- A UUID and a time are numbers; the nil UUID is 0.
pub record AuditRecord : Type 0 where
  pub schema_version : ℕ
  pub sequence : ℕ
  pub event_id : ℕ
  pub wall_time : ℕ
  pub effective_uid : ℕ
  pub process_id : ℕ
  pub action : Bytes
  pub outcome : Bytes
  pub run_id : Bytes
  pub details : Option Value
  pub previous_sha256 : Option Bytes
  pub record_sha256 : Bytes

pub data AuditError : Type 0 where
  bad_label bad_hash bad_schema bad_sequence nil_event_id : AuditError
  incomplete_record bad_record_size malformed : AuditError
  complexity : InputError → AuditError
  too_many_records not_contiguous broken_chain hash_mismatch : AuditError
  sequence_overflow record_too_large : AuditError

-- What `serde_json`, `sha2` and `hex` do for the source: the JSON text of a record, the record that a
-- text stands for, and the hexadecimal digest of a record's text.
pub record Codec : Type 0 where
  pub to_vec : AuditRecord → Bytes
  pub from_slice : Bytes → Option AuditRecord
  pub hex_digest : AuditRecord → Bytes

unfoldable pub validate_label : Bytes → Result AuditError (Unit {0})
validate_label value =
    ensure
      (leb 1 (length value)
        && leb (length value) 256
        && not (contains 0 value || contains 13 value || contains 10 value))
      bad_label

abbrev pub is_hex_digit : ℕ → Bool
is_hex_digit c = leb b'0' c && leb c b'9' || (leb b'a' c && leb c b'f' || leb b'A' c && leb c b'F')

abbrev pub sha256_prefix : Bytes
sha256_prefix = ascii "sha256:"

-- `strip_prefix("sha256:")`, and then 64 hexadecimal digits.
unfoldable pub validate_hash : Bytes → Result AuditError (Unit {0})
validate_hash value =
    let hash = drop 7 value in
    ensure (starts_with sha256_prefix value && (length hash == 64 && all is_hex_digit hash))
      bad_hash

unfoldable pub validate_previous : Option Bytes → Result AuditError (Unit {0})
validate_previous none = ok tt
validate_previous (some previous) = validate_hash previous

unfoldable pub validate_record : AuditRecord → Result AuditError (Unit {0})
validate_record record_ = do
  ensure (record_.schema_version == 1) bad_schema
  ensure (ltb 0 record_.sequence) bad_sequence
  ensure (not (record_.event_id == 0)) nil_event_id
  validate_label record_.action
  validate_label record_.outcome
  validate_label record_.run_id
  validate_hash record_.record_sha256
  validate_previous record_.previous_sha256

-- The hash of the record with its own hash cleared.
unfoldable pub record_hash : Codec → AuditRecord → Bytes
record_hash c r = sha256_prefix ++ c.hex_digest (record r { record_sha256 = [] })

pub AuditRecord-discrete : Discrete AuditRecord
AuditRecord-discrete = hlevel (ℕ_discrete, Value-discrete)
