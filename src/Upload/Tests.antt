-- ===== src/Upload/Tests.antt =====
-- Runs of the uploads of src/upload.rs, and their theorems at concrete inputs.
use inference_io.Prelude.{
  ℕ, ◌≡◌, refl, sym, subst, List, Exists, Result, true, false, [], ◌∷◌, ◌++◌, Option, none, some,
  ok, arith, replicate, saturating_add, All,
}
use inference_io.Bytes.{Bytes, ascii}
use inference_io.Bytes.Map.{Map, insert, lookup}
use inference_io.Metadata.{has_control}
use inference_io.Model.{
  EventEnvelope, validate_envelope, validate_text, validate_texts, validate_ids,
}
use inference_io.Bytes.Decimal.{show_u64}
use inference_io.Audit.Log.{option_eq}
use inference_io.Input.{
  validate_json_complexity, validate_json_complexity_with_limits, run, step, plain_byte,
}
use inference_io.Upload.State.{
  BatchPlan, UploadState, UploadError, Check, four_digits, recording_id_for_segment, last_batch,
  planned_sequence, is_batch_boundary, is_sensitive_upload_media_type, omit_sensitive_blob_plans,
  validate_sha, validate_blobs, validate_batch, validate_batches, validate_state_prefix,
}
use inference_io.Upload.Follows.{select_segment_cursor-IsAcked}
use inference_io.Upload.Acked.{IsAcked}
use inference_io.Upload.Chain.{
  SegmentState, SegmentCursor, cursor_after, select_segment_cursor, Spool, last_segment,
  check_chain, segment_of, load_segment, load_segments, load_segment_chain, all_complete,
  segment_chain_complete,
}
use inference_io.Upload.Gate.{
  origin_of, list_origins, list_upload_origins, check_origins, verify_retention_gate,
  is_none_listed,
}
use inference_io.Upload.Remote.{
  RemoteRecording, BatchAck, reconcile_remote, validate_ack, whole_run, upload_batch,
  upload_batches,
}
use inference_io.Upload.Progress.{IsValid, IsTarget, IsAfter, reconcile_remote-IsValid}
use inference_io.Upload.Finish.{upload_batches-whole}
use inference_io.Upload.Plan.{
  build_batch_plans_range, plan_events, plan_event, gather, add_blob_plan, all_batches, finish_plan,
  extend_state_to,
}
use inference_io.Upload.Range.{IsValidEvent}
use inference_io.Upload.Built.{IsCovering, build_batch_plans_range-IsCovering}
use inference_io.Upload.Extend.{IsExtended, extend_state_to-IsValid}
use inference_io.Upload.Retained.{IsUploaded, verify_retention_gate-IsUploaded}

-- A stand-in for SHA-256.
abbrev digest : Bytes → Bytes
digest _ = replicate 64 b'a'

abbrev batch : BatchPlan
batch = record {
  first_seq = 1;
  last_seq = 2;
  event_count = 2;
  byte_length = 30;
  sha256 = replicate 64 b'b';
  prev_sha256 = none;
  blobs = [];
  created_at = 5;
}

abbrev next_batch : BatchPlan
next_batch = record batch {
  first_seq = 3;
  last_seq = 3;
  event_count = 1;
  prev_sha256 = some (replicate 64 b'b');
}

abbrev sealed_state : UploadState
sealed_state = record {
  schema_version = 1;
  api_origin = ascii "https://a";
  run_id = ascii "run";
  recording_id = ascii "run#0000";
  segment_no = 0;
  first_seq = 1;
  batch_max_events = 2000;
  batch_max_bytes = 4194304;
  acked_seq = 3;
  sealed = true;
  collector_id = none;
  config_version = 0;
  batches = batch ∷ next_batch ∷ [];
  created_at = 5;
  updated_at = 6;
}

abbrev from_slice : Bytes → Option UploadState
from_slice _ = some sealed_state

abbrev spool : Spool
spool = (ascii "state-" ++ (digest [] ++ ascii ".json"), ascii "1") ∷ []

gate_passes : verify_retention_gate digest from_slice some (some spool) (ascii "run") 3 ≡ ok tt
unfolding verify_retention_gate list_upload_origins list_origins origin_of validate_json_complexity
    validate_json_complexity_with_limits run step insert check_origins load_segment_chain
    load_segments segment_of load_segment omit_sensitive_blob_plans validate_state_prefix
    recording_id_for_segment four_digits option_eq show_u64 plain_byte saturating_add all_complete
    check_chain last_segment segment_chain_complete is_batch_boundary is_sensitive_upload_media_type
    last_batch planned_sequence validate_batch validate_batches validate_blobs validate_sha
gate_passes = refl

verify_retention_gate-IsUploaded_example :
    (origins : Map (Unit {0})) × (list_upload_origins digest from_slice some spool (ascii "run")
      ≡ ok origins)
    × (is_none_listed digest from_slice some origins ≡ false)
    × All (IsUploaded digest from_slice some spool (ascii "run") 3) origins
verify_retention_gate-IsUploaded_example =
    verify_retention_gate-IsUploaded digest from_slice some spool (ascii "run") 3 gate_passes

abbrev open_state : UploadState
open_state = record sealed_state { acked_seq = 0; sealed = false }

open-IsValid : IsValid (ascii "run") (ascii "run#0000") (ascii "https://a") 3 3 open_state
unfolding validate_state_prefix is_batch_boundary is_sensitive_upload_media_type validate_batch
    validate_batches validate_blobs validate_sha option_eq saturating_add
open-IsValid = refl

abbrev remote : RemoteRecording
remote = record {
  state = ascii "open";
  segment_no = 0;
  sequence_base = 0;
  durable_seq = 2;
  final_seq = none;
}

reconciled :
    reconcile_remote open_state remote 10
    ≡ ok (record open_state { acked_seq = 2; updated_at = 10 })
unfolding reconcile_remote planned_sequence last_batch is_batch_boundary
reconciled = refl

reconcile_remote-IsValid_example :
    IsValid
      (ascii "run")
      (ascii "run#0000")
      (ascii "https://a")
      3
      3
      (record open_state { acked_seq = 2; updated_at = 10 })
    × (remote.durable_seq ≡ remote.durable_seq)
    × (open_state.batches ≡ open_state.batches)
reconcile_remote-IsValid_example =
    reconcile_remote-IsValid (ascii "run") (ascii "run#0000") (ascii "https://a") 3 3 open_state
      (record open_state { acked_seq = 2; updated_at = 10 }) remote 10 open-IsValid (omega arith)
      reconciled

-- A platform that accepts each batch.
abbrev accepting : UploadState → BatchPlan → Result UploadError BatchAck
accepting s b = ok (record {
  recording_id = s.recording_id;
  durable_seq = b.last_seq;
  state = ascii "open";
  missing_blobs = [];
})

abbrev readable : BatchPlan → Check
readable b = ok tt

abbrev clock : UploadState → ℕ
clock _ = 10

whole-IsTarget : IsTarget (whole_run 3) 3
whole-IsTarget final_seq e = let same : 3 ≡ final_seq = cc e in sym same

upload_batches-whole_example :
    (let u =
        upload_batches readable accepting clock
          (whole_run 3)
          none
          0
          open_state.batches
          open_state
          [] in
      All (IsAfter (ascii "run") (ascii "run#0000") (ascii "https://a") 3 3 open_state) u.written
      × ((t : UploadState) → u.outcome ≡ ok t → ◌≡◌ {A = Option ℕ} none none → t.acked_seq ≡ 3))
upload_batches-whole_example =
    upload_batches-whole (ascii "run") (ascii "run#0000") (ascii "https://a") 3 readable accepting
      clock (whole_run 3) 3 none open_state open-IsValid whole-IsTarget (λ x. omega arith)

whole_upload :
    (upload_batches readable accepting clock
      (whole_run 3)
      none
      0
      open_state.batches
      open_state
      []).outcome
    ≡ ok (record open_state { acked_seq = 3; updated_at = 10 })
unfolding upload_batches upload_batch validate_ack planned_sequence last_batch is_batch_boundary
whole_upload = refl

abbrev event : EventEnvelope
event = record {
  schema_version = 1;
  event_id = record { number = 1; version = 7 };
  sequence = 4;
  run_id = ascii "run";
  ids = record {
    task_id = none;
    session_id = none;
    turn_id = none;
    inference_id = none;
    attempt_id = none;
    connection_id = none;
    parent_id = none;
    pid = none;
    container_id = none;
  };
  source = ascii "proxy";
  event = ascii "request";
  monotonic_ns = 6;
  wall_time = 5;
  raw = some (record {
    sha256 = ascii "sha256:" ++ replicate 64 b'c';
    size = 9;
    media_type = none;
    truncated = false;
  });
  normalized = none;
  redaction = record { policy = ascii "default"; fields = []; omitted = [] };
  confidence = none;
  evidence = [];
  terminal_state = none;
}

event_valid : validate_envelope event ≡ ok tt
unfolding validate_envelope validate_text validate_texts validate_ids has_control
event_valid = refl

abbrev events : List (Result UploadError EventEnvelope)
events = ok event ∷ []

events_valid : All IsValidEvent events
events_valid = (
  (λ e h. let same : event ≡ e = cc h in subst (λ x. validate_envelope x ≡ ok tt) same event_valid),
  tt,
)

abbrev to_vec : EventEnvelope → Bytes
to_vec _ = ascii "{}"

abbrev at : ℕ → ℕ
at _ = 10

digest_valid : (text : Bytes) → validate_sha (digest text) ≡ ok tt
unfolding validate_sha
digest_valid text = refl

abbrev third_batch : BatchPlan
third_batch = record {
  first_seq = 4;
  last_seq = 4;
  event_count = 1;
  byte_length = 3;
  sha256 = replicate 64 b'a';
  prev_sha256 = some (replicate 64 b'b');
  blobs = record { sha256 = replicate 64 b'c'; size = 9; media_type = none } ∷ [];
  created_at = 10;
}

built :
    build_batch_plans_range to_vec digest at events 4 4 (some (replicate 64 b'b'))
    ≡ ok (third_batch ∷ [])
unfolding build_batch_plans_range plan_events plan_event gather add_blob_plan all_batches
    finish_plan saturating_add insert lookup is_sensitive_upload_media_type
built = refl

build_batch_plans_range-IsCovering_example :
    IsCovering to_vec digest at digest_valid
      (record { next = 4; previous = some (replicate 64 b'b'); blob_count = 0 })
      (third_batch ∷ [])
      5
build_batch_plans_range-IsCovering_example =
    build_batch_plans_range-IsCovering to_vec digest at digest_valid events 4 4 0
      (some (replicate 64 b'b')) (third_batch ∷ []) (omega arith) events_valid built

abbrev extended_state : UploadState
extended_state = record open_state {
  batches = batch ∷ next_batch ∷ third_batch ∷ [];
  updated_at = 10;
}

extended : extend_state_to to_vec digest at open_state events 4 10 ≡ ok extended_state
unfolding extend_state_to planned_sequence last_batch build_batch_plans_range plan_events plan_event
    gather add_blob_plan all_batches finish_plan saturating_add insert lookup
    is_sensitive_upload_media_type
extended = refl

extend_state_to-IsValid_example :
    IsExtended to_vec digest at digest_valid
      (ascii "run")
      (ascii "run#0000")
      (ascii "https://a")
      4
      extended_state
extend_state_to-IsValid_example =
    extend_state_to-IsValid to_vec digest at digest_valid (ascii "run") (ascii "run#0000")
      (ascii "https://a") 3 3 4 10 open_state extended_state events open-IsValid (omega arith)
      events_valid (omega arith) extended

abbrev segment : SegmentState
segment = record {
  path = ascii "state-" ++ (digest [] ++ ascii ".json");
  state = sealed_state;
  planned_seq = 3;
}

abbrev cursor : SegmentCursor
cursor = record {
  path = ascii "state-" ++ (digest [] ++ ascii "-segment-0001.json");
  recording_id = ascii "run#0001";
  segment_no = 1;
  first_seq = 4;
}

selected :
    select_segment_cursor digest from_slice (ascii "https://a") (ascii "run") 4 spool
    ≡ ok (segment ∷ [], cursor)
unfolding select_segment_cursor cursor_after validate_json_complexity
    validate_json_complexity_with_limits run step load_segment_chain load_segments segment_of
    load_segment omit_sensitive_blob_plans validate_state_prefix recording_id_for_segment
    four_digits option_eq show_u64 plain_byte saturating_add check_chain last_segment
    is_batch_boundary is_sensitive_upload_media_type last_batch planned_sequence validate_batch
    validate_batches validate_blobs validate_sha
selected = refl

select_segment_cursor-IsAcked_example : Exists (IsAcked 3) (segment ∷ [])
select_segment_cursor-IsAcked_example =
    select_segment_cursor-IsAcked digest from_slice (ascii "https://a") (ascii "run") 4 spool
      (segment ∷ []) cursor 3 selected (omega arith) (omega arith)
