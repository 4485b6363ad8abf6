-- ===== src/Model.antt =====
-- src/model.rs: the events of a run, pending and in their envelopes, and when an envelope is valid.
-- A UUID is its number and its version; a confidence is the 32 bits of its IEEE 754 representation;
-- times are numbers.
use inference_io.Prelude.{
  ℕ, Bool, true, not, ◌&&◌, ◌||◌, List, [], ◌∷◌, Option, none, some, leb, ◌==◌, length, drop,
  Result, ok, ◌>>◌, ensure,
}
use inference_io.Bytes.{Bytes, ascii, starts_with, contains, all}
use inference_io.Json.{Value}
use inference_io.Metadata.{has_control}

abbrev pub schema_version : ℕ
schema_version = 1

pub record PayloadRef : Type 0 where
  pub sha256 : Bytes
  pub size : ℕ
  pub media_type : Option Bytes
  pub truncated : Bool

pub record EventIds : Type 0 where
  pub task_id : Option Bytes
  pub session_id : Option Bytes
  pub turn_id : Option Bytes
  pub inference_id : Option Bytes
  pub attempt_id : Option Bytes
  pub connection_id : Option Bytes
  pub parent_id : Option Bytes
  pub pid : Option ℕ
  pub container_id : Option Bytes

pub data TerminalState : Type 0 where
  complete : TerminalState
  error : TerminalState
  cancelled : TerminalState
  incomplete : TerminalState

pub record RedactionRecord : Type 0 where
  pub policy : Bytes
  pub fields : List Bytes
  pub omitted : List Bytes

pub record PendingEvent : Type 0 where
  pub run_id : Bytes
  pub source : Bytes
  pub kind : Bytes
  pub ids : EventIds
  pub observed_at : ℕ
  pub monotonic_ns : ℕ
  pub raw : Option PayloadRef
  pub normalized : Option Value
  pub redaction : RedactionRecord
  pub confidence : Option ℕ
  pub evidence : List Bytes
  pub terminal_state : Option TerminalState

pub record Uuid : Type 0 where
  pub number : ℕ
  pub version : ℕ

pub record EventEnvelope : Type 0 where
  pub schema_version : ℕ
  pub event_id : Uuid
  pub sequence : ℕ
  pub run_id : Bytes
  pub ids : EventIds
  pub source : Bytes
  pub event : Bytes
  pub monotonic_ns : ℕ
  pub wall_time : ℕ
  pub raw : Option PayloadRef
  pub normalized : Option Value
  pub redaction : RedactionRecord
  pub confidence : Option ℕ
  pub evidence : List Bytes
  pub terminal_state : Option TerminalState

-- `from_pending`, given the UUID that `Uuid::now_v7` makes.
abbrev pub from_pending : ℕ → Uuid → PendingEvent → EventEnvelope
from_pending sequence event_id event = record {
  schema_version = schema_version;
  event_id = event_id;
  sequence = sequence;
  run_id = event.run_id;
  ids = event.ids;
  source = event.source;
  event = event.kind;
  monotonic_ns = event.monotonic_ns;
  wall_time = event.observed_at;
  raw = event.raw;
  normalized = event.normalized;
  redaction = event.redaction;
  confidence = event.confidence;
  evidence = event.evidence;
  terminal_state = event.terminal_state;
}

pub data InvalidEnvelope : Type 0 where
  unsupported_schema : InvalidEnvelope
  zero_sequence : InvalidEnvelope
  nil_event_id : InvalidEnvelope
  wrong_uuid_version : InvalidEnvelope
  invalid_text : InvalidEnvelope
  too_many_items : InvalidEnvelope
  zero_pid : InvalidEnvelope
  invalid_confidence : InvalidEnvelope
  invalid_payload_hash : InvalidEnvelope
  invalid_media_type : InvalidEnvelope

abbrev Check : Type 0
Check = Result InvalidEnvelope (Unit {0})

unfoldable pub validate_text : Bytes → ℕ → Check
validate_text value max_bytes =
    ensure (leb 1 (length value) && (leb (length value) max_bytes && not (has_control value)))
      invalid_text

abbrev validate_optional : Option Bytes → ℕ → Check
validate_optional none max_bytes = ok tt
validate_optional (some value) max_bytes = validate_text value max_bytes

unfoldable pub validate_texts : List Bytes → ℕ → Check
validate_texts [] maximum_bytes = ok tt
validate_texts (value ∷ values) maximum_bytes =
    validate_text value maximum_bytes >> validate_texts values maximum_bytes

abbrev pub validate_text_list : List Bytes → ℕ → ℕ → Check
validate_text_list values maximum_items maximum_bytes =
    ensure (leb (length values) maximum_items) too_many_items >> validate_texts values maximum_bytes

abbrev is_positive_pid : Option ℕ → Bool
is_positive_pid none = true
is_positive_pid (some pid) = leb 1 pid

-- `EventIds::validate`.
unfoldable pub validate_ids : EventIds → Check
validate_ids ids =
    validate_optional ids.task_id 1024
    >> validate_optional ids.session_id 1024
    >> validate_optional ids.turn_id 1024
    >> validate_optional ids.inference_id 1024
    >> validate_optional ids.attempt_id 1024
    >> validate_optional ids.connection_id 1024
    >> validate_optional ids.parent_id 1024
    >> validate_optional ids.container_id 1024
    >> ensure (is_positive_pid ids.pid) zero_pid

-- `(0.0..=1.0).contains(&confidence)` on the bits: from +0.0 to 1.0, and -0.0.
abbrev pub is_confidence : Option ℕ → Bool
is_confidence none = true
is_confidence (some bits) = leb bits 0x3F80_0000 || bits == 0x8000_0000

abbrev is_lower_hex : ℕ → Bool
is_lower_hex c = (leb b'0' c && leb c b'9') || (leb b'a' c && leb c b'f')

abbrev pub is_payload_hash : Bytes → Bool
is_payload_hash sha256 =
    starts_with (ascii "sha256:") sha256
    && ((length (drop 7 sha256) == 64) && all is_lower_hex (drop 7 sha256))

abbrev pub is_media_type : Option Bytes → Bool
is_media_type none = true
is_media_type (some media_type) =
    leb 1 (length media_type)
    && (leb (length media_type) 1024
        && not (contains 0 media_type || (contains 13 media_type || contains 10 media_type)))

abbrev pub validate_payload : Option PayloadRef → Check
validate_payload none = ok tt
validate_payload (some raw) =
    ensure (is_payload_hash raw.sha256) invalid_payload_hash
    >> ensure (is_media_type raw.media_type) invalid_media_type

-- `EventEnvelope::validate`.
unfoldable pub validate_envelope : EventEnvelope → Check
validate_envelope e =
    ensure (e.schema_version == schema_version) unsupported_schema
    >> ensure (leb 1 e.sequence) zero_sequence
    >> ensure (leb 1 e.event_id.number) nil_event_id
    >> ensure (e.event_id.version == 7) wrong_uuid_version
    >> validate_text e.run_id 256
    >> validate_text e.source 128
    >> validate_text e.event 256
    >> validate_ids e.ids
    >> ensure (is_confidence e.confidence) invalid_confidence
    >> validate_payload e.raw
    >> validate_text e.redaction.policy 128
    >> validate_text_list e.redaction.fields 1024 1024
    >> validate_text_list e.redaction.omitted 1024 1024
    >> validate_text_list e.evidence 256 1024
