-- ===== src/Policy/Capture.antt =====
-- `CapturePolicy` of src/policy.rs and its checks. The test of http::header::HeaderName::from_bytes
-- is a parameter.
use inference_io.Prelude.{
  ℕ, ◌*◌, Bool, true, false, not, ◌&&◌, ◌||◌, List, [], ◌∷◌, ltb, leb, length, Result, ◌>>◌, ensure,
}
use inference_io.Bytes.{Bytes, ascii, starts_with, any}
use inference_io.Metadata.{has_control}
use inference_io.Policy.Secrets.{always_secret_headers}

abbrev pub max_capture_body_bytes : ℕ
max_capture_body_bytes = 64 * 1024 * 1024

abbrev pub max_allowed_paths : ℕ
max_allowed_paths = 1_024

abbrev pub max_allowed_path_bytes : ℕ
max_allowed_path_bytes = 2_048

abbrev pub max_redact_headers : ℕ
max_redact_headers = 1_024

pub data BodyCaptureMode : Type 0 where
  full : BodyCaptureMode
  metadata_only : BodyCaptureMode

pub data EventLogFormat : Type 0 where
  jsonl : EventLogFormat
  zstd_blocks : EventLogFormat

pub record CapturePolicy : Type 0 where
  pub name : Bytes
  pub body_mode : BodyCaptureMode
  pub event_log_format : EventLogFormat
  pub max_event_storage_bytes : ℕ
  pub max_blob_bytes : ℕ
  pub max_run_blob_storage_bytes : ℕ
  pub allowed_paths : List Bytes
  pub redact_headers : List Bytes

abbrev pub default : CapturePolicy
default = record {
  name = ascii "default";
  body_mode = full;
  event_log_format = jsonl;
  max_event_storage_bytes = 4 * 1024 * 1024 * 1024;
  max_blob_bytes = 64 * 1024 * 1024;
  max_run_blob_storage_bytes = 2 * 1024 * 1024 * 1024;
  allowed_paths = [];
  redact_headers = always_secret_headers;
}

abbrev pub is_ascii_uppercase : ℕ → Bool
is_ascii_uppercase c = leb b'A' c && leb c b'Z'

abbrev pub is_bad_path : Bytes → Bool
is_bad_path path =
    not (starts_with (ascii "/") path)
    || (ltb max_allowed_path_bytes (length path) || has_control path)

-- Why a policy is refused.
pub data PolicyError : Type 0 where
  invalid_name : PolicyError
  body_limit : PolicyError
  too_many_paths : PolicyError
  invalid_path : PolicyError
  too_many_headers : PolicyError
  invalid_header : PolicyError

module _ (is_header_name : Bytes → Bool) where
  abbrev pub is_bad_header : Bytes → Bool
  is_bad_header name = any is_ascii_uppercase name || not (is_header_name name)

  unfoldable pub validate : CapturePolicy → Result PolicyError (Unit {0})
  validate policy =
      ensure
        (not
          (leb (length policy.name) 0 || (ltb 128 (length policy.name) || has_control policy.name)))
        invalid_name
      >> ensure (leb policy.max_blob_bytes max_capture_body_bytes) body_limit
      >> ensure (leb (length policy.allowed_paths) max_allowed_paths) too_many_paths
      >> ensure (not (any is_bad_path policy.allowed_paths)) invalid_path
      >> ensure (leb (length policy.redact_headers) max_redact_headers) too_many_headers
      >> ensure (not (any is_bad_header policy.redact_headers)) invalid_header

abbrev is_full : BodyCaptureMode → Bool
is_full full = true
is_full metadata_only = false

abbrev is_empty : List Bytes → Bool
is_empty [] = true
is_empty (_ ∷ _) = false

unfoldable pub permits_body : CapturePolicy → Bytes → Bool
permits_body policy path =
    is_full policy.body_mode
    && (is_empty policy.allowed_paths
        || any (λ prefix. starts_with prefix path) policy.allowed_paths)
