-- ===== src/EventLog/Recover.antt =====
-- recover_jsonl_records and recover_events_with_key of src/storage.rs, for a log that is not in the
-- block format. The file is its bytes.
use inference_io.Prelude.{
  ℕ, zero, suc, ◌+◌, ◌-◌, Bool, not, ◌&&◌, [], ◌∷◌, ◌++◌, Option, none, some, ltb, ◌==◌,
  if◌then◌else◌, length, take, drop, saturating_add, Result, err, ok, ◌>>=◌, ◌>>◌, ensure,
}
use inference_io.Bytes.{Bytes, ascii, starts_with}
use inference_io.Bytes.Lines.{newline, Line, read_until, at_end}
use inference_io.Policy.Capture.{EventLogFormat, jsonl, zstd_blocks}
use inference_io.EventLog.Record.{
  StorageError, event_record_too_large, invalid_sequence, max_event_record_bytes, decode_event,
}
use inference_io.EventLog.Cipher.{EncryptionKey, Codec}

-- What has been read so far.
pub record Recovered : Type 0 where
  pub count : ℕ
  pub last_sequence : ℕ
  pub valid_bytes : ℕ

abbrev pub nothing_recovered : Recovered
nothing_recovered = record { count = 0; last_sequence = 0; valid_bytes = 0 }

-- `bytes_read`, and the bytes read.
abbrev pub bytes_read : Line → ℕ
bytes_read line = length line.text + (if line.terminated then 1 else 0)

abbrev pub buffer_of : Line → Bytes
buffer_of line = if line.terminated then line.text ++ newline ∷ [] else line.text

-- A whole line.
unfoldable pub recover_line :
    Codec → Option EncryptionKey → Line → Recovered → Result StorageError Recovered
recover_line c encryption line s = do
  envelope ← decode_event c encryption (buffer_of line)
  let expected = saturating_add s.last_sequence 1
  ensure (envelope.sequence == expected) (invalid_sequence expected envelope.sequence)
  ok (record {
    count = saturating_add s.count 1;
    last_sequence = envelope.sequence;
    valid_bytes = saturating_add s.valid_bytes (bytes_read line);
  })

-- The loop, on fuel: each round takes at least a byte off the file, so that its length is enough.
unfoldable pub recover_from :
    ℕ → Codec → Option EncryptionKey → Recovered → Bytes → Result StorageError Recovered
recover_from zero c encryption s file = ok s
recover_from (suc fuel) c encryption s file =
    let line = read_until (max_event_record_bytes + 1) file in
    let go = (do
      t ← recover_line c encryption line s
      recover_from fuel c encryption t line.rest) in
    if at_end line
    then ok s
    else if ltb max_event_record_bytes (bytes_read line)
    then err (event_record_too_large (saturating_add s.count 1))
    else if not line.terminated
    then ok s
    else go

unfoldable pub recover_jsonl_records :
    Codec → Option EncryptionKey → Bytes → Result StorageError Recovered
recover_jsonl_records c encryption file =
    recover_from (length file) c encryption nothing_recovered file

abbrev pub event_block_header : Bytes
event_block_header = ascii "IOREC-EVENTS-ZSTD-BLOCKS-V1" ++ newline ∷ []

-- The format of a file that exists.
unfoldable pub detect_event_log_format : Bytes → Option EventLogFormat
detect_event_log_format [] = none
detect_event_log_format (b ∷ file) =
    if starts_with (take (length event_block_header) (b ∷ file)) event_block_header
    then some zstd_blocks
    else some jsonl

pub record RecoveryReport : Type 0 where
  pub valid_events : ℕ
  pub last_sequence : ℕ
  pub valid_bytes : ℕ
  pub discarded_tail_bytes : ℕ
  pub quarantine : Option Bytes

abbrev pub report_of : Recovered → ℕ → Option Bytes → RecoveryReport
report_of s discarded quarantine = record {
  valid_events = s.count;
  last_sequence = s.last_sequence;
  valid_bytes = s.valid_bytes;
  discarded_tail_bytes = discarded;
  quarantine = quarantine;
}

-- The rest of recover_events_with_key, once the records are read: the report, with the bytes put in
-- quarantine, and the file that is left.
unfoldable pub settle : Bool → Bytes → Recovered → RecoveryReport × Bytes
settle repair file s =
    let discarded = length file - s.valid_bytes in
    if ltb 0 discarded && repair
    then (report_of s discarded (some (drop s.valid_bytes file)), take s.valid_bytes file)
    else (report_of s discarded none, file)

-- `recover_blocks` stands for recover_zstd_blocks.
unfoldable pub recover_events_with_key :
    (Bytes → Result StorageError Recovered)
    → Codec
    → Option EncryptionKey
    → Bool
    → Bytes
    → Result StorageError (RecoveryReport × Bytes)
recover_events_with_key recover_blocks c encryption repair file = do
  s ← (elim (detect_event_log_format file) [
    | some zstd_blocks ↦ recover_blocks file
    | _ ↦ recover_jsonl_records c encryption file
  ])
  ok (settle repair file s)
