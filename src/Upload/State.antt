-- ===== src/Upload/State.antt =====
-- The state of the upload of a segment, and its check, of src/upload.rs. Times are nanoseconds, and
-- the version of a configuration is its 64 bits.
use inference_io.Prelude.{
  ℕ, ◌+◌, ◌-◌, ◌*◌, Bool, false, not, ◌&&◌, ◌||◌, List, [], ◌∷◌, ◌++◌, Option, none, some, leb, ltb,
  ◌==◌, if◌then◌else◌, length, replicate, saturating_add, u64_max, Result, ok, ◌>>=◌, ◌>>◌, ensure,
}
use inference_io.Bytes.{Bytes, ascii, bytes_eq, all, any}
use inference_io.Bytes.Decimal.{show_u64}
use inference_io.Model.{Uuid}
use inference_io.Audit.Log.{option_eq}

abbrev pub state_schema_version : ℕ
state_schema_version = 1

abbrev pub max_recording_segments : ℕ
max_recording_segments = 10000

abbrev pub max_platform_sequence : ℕ
max_platform_sequence = 9223372036854775807

abbrev pub default_batch_events : ℕ
default_batch_events = 2000

abbrev pub default_batch_bytes : ℕ
default_batch_bytes = 4 * 1024 * 1024

abbrev pub max_batch_plans : ℕ
max_batch_plans = 100000

abbrev pub max_blob_plans : ℕ
max_blob_plans = 250000

abbrev pub pcap_media_type : Bytes
pcap_media_type = ascii "application/vnd.tcpdump.pcap"

abbrev pub tls_secrets_media_type : Bytes
tls_secrets_media_type = ascii "application/x-nss-key-log"

pub record BlobPlan : Type 0 where
  pub sha256 : Bytes
  pub size : ℕ
  pub media_type : Option Bytes

pub record BatchPlan : Type 0 where
  pub first_seq : ℕ
  pub last_seq : ℕ
  pub event_count : ℕ
  pub byte_length : ℕ
  pub sha256 : Bytes
  pub prev_sha256 : Option Bytes
  pub blobs : List BlobPlan
  pub created_at : ℕ

pub record UploadState : Type 0 where
  pub schema_version : ℕ
  pub api_origin : Bytes
  pub run_id : Bytes
  pub recording_id : Bytes
  pub segment_no : ℕ
  pub first_seq : ℕ
  pub batch_max_events : ℕ
  pub batch_max_bytes : ℕ
  pub acked_seq : ℕ
  pub sealed : Bool
  pub collector_id : Option Uuid
  pub config_version : ℕ
  pub batches : List BatchPlan
  pub created_at : ℕ
  pub updated_at : ℕ

pub data UploadError : Type 0 where
  unsupported_state : UploadError
  origin_mismatch : UploadError
  run_mismatch : UploadError
  invalid_segment_identity : UploadError
  invalid_creation_time : UploadError
  recording_mismatch : UploadError
  batch_policy_mismatch : UploadError
  too_many_batches : UploadError
  sequence_gap : UploadError
  invalid_batch_range : UploadError
  invalid_batch_size : UploadError
  invalid_sha256 : UploadError
  hash_chain_mismatch : UploadError
  sensitive_blob : UploadError
  sequence_overflow : UploadError
  exceeds_evidence : UploadError
  too_many_blobs : UploadError
  not_a_batch_boundary : UploadError
  not_acknowledged : UploadError
  does_not_cover_log : UploadError
  malformed_state : UploadError
  state_too_large : UploadError
  invalid_segment_number : UploadError
  segment_limit_exceeded : UploadError
  identity_mismatch : UploadError
  segment_gap : UploadError
  open_segment : UploadError
  exceeds_boundary : UploadError
  not_uploadable : UploadError
  invalid_ack : UploadError
  missing_blobs : UploadError
  invalid_planning_range : UploadError
  event_too_large : UploadError
  conflicting_sizes : UploadError
  empty_range : UploadError
  unreadable_event : UploadError
  too_many_states : UploadError
  too_many_targets : UploadError
  no_target : UploadError
  no_sha256_prefix : UploadError
  sealed_plan : UploadError
  size_overflow : UploadError

abbrev pub Check : Type 0
Check = Result UploadError (Unit {0})

-- `format!("{n:04}")`.
unfoldable pub four_digits : ℕ → Bytes
four_digits n = replicate (4 - length (show_u64 n)) b'0' ++ show_u64 n

-- `digest` is the hexadecimal SHA-256.
unfoldable pub recording_id_for_segment : (Bytes → Bytes) → Bytes → ℕ → Bytes
recording_id_for_segment digest run_id segment_no =
    let direct = run_id ++ (b'#' ∷ four_digits segment_no) in
    if leb (length direct) 240
    then direct
    else ascii "run-" ++ (digest run_id ++ (b'#' ∷ four_digits segment_no))

unfoldable pub last_batch : List BatchPlan → Option BatchPlan
last_batch [] = none
last_batch (b ∷ []) = some b
last_batch (b ∷ c ∷ batches) = last_batch (c ∷ batches)

-- `batches.last().map_or(before, |batch| batch.last_seq)`.
abbrev pub last_seq_or : ℕ → List BatchPlan → ℕ
last_seq_or before batches = elim (last_batch batches) [ none ↦ before | some b ↦ b.last_seq ]

unfoldable pub planned_sequence : UploadState → ℕ
planned_sequence s = last_seq_or (s.first_seq - 1) s.batches

unfoldable pub is_batch_boundary : UploadState → ℕ → Bool
is_batch_boundary s sequence =
    (sequence == s.first_seq - 1) || any (λ b. b.last_seq == sequence) s.batches

unfoldable pub is_sensitive_upload_media_type : Option Bytes → Bool
is_sensitive_upload_media_type none = false
is_sensitive_upload_media_type (some media_type) =
    bytes_eq media_type pcap_media_type || bytes_eq media_type tls_secrets_media_type

abbrev pub without_sensitive : List BlobPlan → List BlobPlan
without_sensitive [] = []
without_sensitive (blob ∷ blobs) =
    let rest = without_sensitive blobs in
    if is_sensitive_upload_media_type blob.media_type then rest else blob ∷ rest

abbrev pub omit_in_batches : List BatchPlan → List BatchPlan
omit_in_batches [] = []
omit_in_batches (b ∷ batches) =
    record b { blobs = without_sensitive b.blobs } ∷ omit_in_batches batches

unfoldable pub omit_sensitive_blob_plans : UploadState → UploadState
omit_sensitive_blob_plans s = record s { batches = omit_in_batches s.batches }

abbrev is_lower_hex : ℕ → Bool
is_lower_hex c = (leb b'0' c && leb c b'9') || (leb b'a' c && leb c b'f')

unfoldable pub validate_sha : Bytes → Check
validate_sha value = ensure ((length value == 64) && all is_lower_hex value) invalid_sha256

-- The variables of the loop over the batches.
pub record Checked : Type 0 where
  pub next : ℕ
  pub previous : Option Bytes
  pub blob_count : ℕ

unfoldable pub validate_blobs : List BlobPlan → Check
validate_blobs [] = ok tt
validate_blobs (blob ∷ blobs) =
    validate_sha blob.sha256
    >> ensure (not (is_sensitive_upload_media_type blob.media_type)) sensitive_blob
    >> validate_blobs blobs

unfoldable pub validate_batch : BatchPlan → Checked → Result UploadError Checked
validate_batch b s = do
  ensure (b.first_seq == s.next) sequence_gap
  ensure
      (leb b.first_seq b.last_seq
        && (leb b.last_seq max_platform_sequence
            && (b.event_count == (b.last_seq - b.first_seq) + 1)))
      invalid_batch_range
  ensure (ltb 0 b.byte_length && leb b.byte_length default_batch_bytes) invalid_batch_size
  validate_sha b.sha256
  ensure (option_eq b.prev_sha256 s.previous) hash_chain_mismatch
  validate_blobs b.blobs
  ensure (ltb b.last_seq u64_max) sequence_overflow
  ok (record {
    next = b.last_seq + 1;
    previous = some b.sha256;
    blob_count = saturating_add s.blob_count (length b.blobs);
  })

unfoldable pub validate_batches : List BatchPlan → Checked → Result UploadError Checked
validate_batches [] s = ok s
validate_batches (b ∷ batches) s = do t ← validate_batch b s; validate_batches batches t

abbrev pub five_minutes : ℕ
five_minutes = 5 * 60 * 1000000000

abbrev pub validate_identity : UploadState → Bytes → Bytes → Bytes → Check
validate_identity s run_id recording_id api_origin =
    ensure (s.schema_version == state_schema_version) unsupported_state
    >> ensure (bytes_eq s.api_origin api_origin) origin_mismatch
    >> ensure (bytes_eq s.run_id run_id) run_mismatch
    >> ensure
        (ltb s.segment_no max_recording_segments
          && (ltb 0 s.first_seq && leb s.first_seq max_platform_sequence))
        invalid_segment_identity
    >> ensure (leb s.created_at (s.updated_at + five_minutes)) invalid_creation_time
    >> ensure (bytes_eq s.recording_id recording_id) recording_mismatch
    >> ensure
        ((s.batch_max_events == default_batch_events) && (s.batch_max_bytes == default_batch_bytes))
        batch_policy_mismatch
    >> ensure (leb (length s.batches) max_batch_plans) too_many_batches

-- What the acknowledged sequence number must be.
abbrev pub validate_progress : UploadState → ℕ → Check
validate_progress s planned_seq =
    ensure (leb s.acked_seq planned_seq && is_batch_boundary s s.acked_seq) not_a_batch_boundary
    >> ensure (not s.sealed || (s.acked_seq == planned_seq)) not_acknowledged

unfoldable pub validate_state_prefix :
    UploadState → Bytes → Bytes → Bytes → ℕ → Result UploadError ℕ
validate_state_prefix s run_id recording_id api_origin available_seq = do
  validate_identity s run_id recording_id api_origin
  c ← validate_batches s.batches (record { next = s.first_seq; previous = none; blob_count = 0 })
  ensure (leb (c.next - 1) available_seq) exceeds_evidence
  ensure (leb c.blob_count max_blob_plans) too_many_blobs
  validate_progress s (c.next - 1)
  ok (c.next - 1)

unfoldable pub validate_state : UploadState → Bytes → Bytes → Bytes → ℕ → Check
validate_state s run_id recording_id api_origin final_seq = do
  planned_seq ← validate_state_prefix s run_id recording_id api_origin final_seq
  ensure (planned_seq == final_seq) does_not_cover_log
