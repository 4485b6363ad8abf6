-- ===== src/Upload/Cursor.antt =====
-- Where an upload goes on: select_expected_segment_cursor, load_or_create_state and
-- segment_logical_bytes of src/upload.rs.
use inference_io.Prelude.{
  ℕ, zero, suc, ◌+◌, ◌-◌, Bool, false, not, ◌&&◌, ◌||◌, List, [], ◌∷◌, Option, none, some, leb, ltb,
  ◌==◌, if◌then◌else◌, length, u64_max, Result, err, ok, ◌>>=◌, ◌>>◌, ensure,
}
use inference_io.Bytes.{Bytes, bytes_eq, all, member}
use inference_io.Upload.State.{
  BlobPlan, BatchPlan, UploadState, UploadError, invalid_segment_number, segment_gap, open_segment,
  exceeds_evidence, exceeds_boundary, identity_mismatch, state_too_large, size_overflow,
  state_schema_version, default_batch_events, default_batch_bytes, max_recording_segments,
  recording_id_for_segment, omit_sensitive_blob_plans, validate_state_prefix,
}
use inference_io.Upload.Chain.{
  Spool, SegmentState, SegmentCursor, max_state_bytes, parse_u32, check_json, next_sequence,
  last_segment, segment_state_path, parse_state, load_segment_chain,
}

-- The part of `text.rsplit_once('#')` behind the character.
unfoldable pub after_last_hash : Bytes → Option Bytes
after_last_hash [] = none
after_last_hash (b ∷ text) = elim (after_last_hash text) [
  | some suffix ↦ some suffix
  | none ↦ if b == b'#' then some text else none
]

abbrev is_digit : ℕ → Bool
is_digit b = leb b'0' b && leb b b'9'

-- `states.get(index)`.
unfoldable pub get_segment : List SegmentState → ℕ → Option SegmentState
get_segment [] index = none
get_segment (s ∷ states) zero = some s
get_segment (s ∷ states) (suc index) = get_segment states index

abbrev or_refuse : Option ℕ → Result UploadError ℕ
or_refuse none = err invalid_segment_number
or_refuse (some n) = ok n

abbrev segment_suffix : Option Bytes → Result UploadError ℕ
segment_suffix none = err invalid_segment_number
segment_suffix (some suffix) =
    ensure ((length suffix == 4) && all is_digit suffix) invalid_segment_number
    >> or_refuse (parse_u32 suffix)

module _ (digest : Bytes → Bytes) (from_slice : Bytes → Option UploadState) where
  -- The first event of a segment that follows the chain.
  abbrev first_after : Option SegmentState → Result UploadError ℕ
  first_after none = ok 1
  first_after (some last) = ensure last.state.sealed open_segment >> next_sequence last.planned_seq

  -- For a segment of the chain, or else for the one that follows it.
  unfoldable pub expected_cursor :
      Bytes
      → Bytes
      → ℕ
      → ℕ
      → List SegmentState
      → Option SegmentState
      → Result UploadError SegmentCursor
  expected_cursor api_origin expected segment_no durable_boundary states (some item) = do
    ensure (item.state.segment_no == segment_no) segment_gap
    ensure (leb item.planned_seq durable_boundary) exceeds_boundary
    ensure
        (not (item.state.sealed || ltb (segment_no + 1) (length states))
          || (item.planned_seq == durable_boundary))
        exceeds_boundary
    ok (record {
      path = item.path;
      recording_id = item.state.recording_id;
      segment_no = segment_no;
      first_seq = item.state.first_seq;
    })
  expected_cursor api_origin expected segment_no durable_boundary states none = do
    ensure (segment_no == length states) segment_gap
    first_seq ← first_after (last_segment states)
    ensure (leb first_seq durable_boundary) exceeds_boundary
    ok (record {
      path = segment_state_path digest from_slice api_origin segment_no;
      recording_id = expected;
      segment_no = segment_no;
      first_seq = first_seq;
    })

  unfoldable pub select_expected_segment_cursor :
      Bytes → Bytes → Bytes → ℕ → ℕ → Spool → Result UploadError (List SegmentState × SegmentCursor)
  select_expected_segment_cursor api_origin run_id expected durable_boundary available_seq spool =
      do
        ensure (leb durable_boundary available_seq) exceeds_evidence
        segment_no ← segment_suffix (after_last_hash expected)
        ensure
            (ltb segment_no max_recording_segments
              && bytes_eq (recording_id_for_segment digest run_id segment_no) expected)
            invalid_segment_number
        states ← load_segment_chain digest from_slice api_origin run_id available_seq spool
        cursor ←
            expected_cursor api_origin expected segment_no durable_boundary states
              (get_segment states segment_no)
        ok (states, cursor)

  -- A state that has no file yet.
  abbrev pub new_state : Bytes → Bytes → Bytes → ℕ → ℕ → ℕ → UploadState
  new_state run_id recording_id api_origin segment_no first_seq now = record {
    schema_version = state_schema_version;
    api_origin = api_origin;
    run_id = run_id;
    recording_id = recording_id;
    segment_no = segment_no;
    first_seq = first_seq;
    batch_max_events = default_batch_events;
    batch_max_bytes = default_batch_bytes;
    acked_seq = first_seq - 1;
    sealed = false;
    collector_id = none;
    config_version = 0;
    batches = [];
    created_at = now;
    updated_at = now;
  }

  abbrev read_state : Bytes → Result UploadError UploadState
  read_state text = do
    ensure (leb (length text) max_state_bytes) state_too_large
    check_json text
    parse_state digest from_slice text

  -- The state in the file, if there is one, or a new one.
  abbrev state_of : Option Bytes → UploadState → Result UploadError UploadState
  state_of none fresh = ok fresh
  state_of (some text) fresh = read_state text

  unfoldable pub load_or_create_state :
      Option Bytes → Bytes → Bytes → Bytes → ℕ → ℕ → ℕ → ℕ → Result UploadError UploadState
  load_or_create_state file run_id recording_id api_origin segment_no first_seq target_seq now = do
    found ← state_of file (new_state run_id recording_id api_origin segment_no first_seq now)
    let state = omit_sensitive_blob_plans found
    ensure ((state.segment_no == segment_no) && (state.first_seq == first_seq)) identity_mismatch
    planned_seq ← validate_state_prefix state run_id recording_id api_origin target_seq
    ok state

abbrev checked_add : ℕ → ℕ → Result UploadError ℕ
checked_add a b = ensure (leb (a + b) u64_max) size_overflow >> ok (a + b)

-- The blobs of a batch that are not among those that have been counted.
unfoldable pub count_blobs : List BlobPlan → ℕ → List Bytes → Result UploadError (ℕ × List Bytes)
count_blobs [] total seen = ok (total, seen)
count_blobs (blob ∷ blobs) total seen =
    let known = count_blobs blobs total seen in
    let new = (do t ← checked_add total blob.size; count_blobs blobs t (blob.sha256 ∷ seen)) in
    if member blob.sha256 seen then known else new

unfoldable pub count_batches : List BatchPlan → ℕ → List Bytes → Result UploadError ℕ
count_batches [] total seen = ok total
count_batches (b ∷ batches) total seen = do
  t ← checked_add total b.byte_length
  counted ← count_blobs b.blobs t seen
  count_batches batches counted.0 counted.1

unfoldable pub segment_logical_bytes : List BatchPlan → Result UploadError ℕ
segment_logical_bytes plans = count_batches plans 0 []
