-- ===== src/Upload/Chain.antt =====
-- The chain of the segments that a run is uploaded in to one origin: load_segment_chain and the
-- cursors of src/upload.rs. A spool is its files, by name, in the order in which they are listed.
use inference_io.Prelude.{
  ℕ, ◌+◌, ◌-◌, ◌*◌, ◌^◌, Bool, true, false, not, ◌&&◌, ◌||◌, List, [], ◌∷◌, ◌++◌, Option, none,
  some, leb, ltb, ◌==◌, if◌then◌else◌, length, take, drop, u64_max, Result, err, ok, ◌>>=◌, ◌>>◌,
  ensure,
}
use inference_io.Bytes.{Bytes, ascii, bytes_eq, starts_with, ends_with}
use inference_io.Bytes.Decimal.{parse_u64}
use inference_io.Input.{validate_json_complexity}
use inference_io.Upload.State.{
  UploadState, UploadError, malformed_state, state_too_large, invalid_segment_number,
  segment_limit_exceeded, identity_mismatch, segment_gap, sequence_gap, open_segment,
  exceeds_boundary, sequence_overflow, Check, max_recording_segments, four_digits,
  recording_id_for_segment, planned_sequence, omit_sensitive_blob_plans, validate_state_prefix,
}

abbrev pub max_state_bytes : ℕ
max_state_bytes = 64 * 1024 * 1024

abbrev pub Spool : Type 0
Spool = List (Bytes × Bytes)

pub record SegmentState : Type 0 where
  pub path : Bytes
  pub state : UploadState
  pub planned_seq : ℕ

pub record SegmentCursor : Type 0 where
  pub path : Bytes
  pub recording_id : Bytes
  pub segment_no : ℕ
  pub first_seq : ℕ

unfoldable pub last_segment : List SegmentState → Option SegmentState
last_segment [] = none
last_segment (s ∷ []) = some s
last_segment (s ∷ t ∷ states) = last_segment (t ∷ states)

-- `text.strip_prefix(prefix)` and `text.strip_suffix(suffix)`.
abbrev strip_prefix : Bytes → Bytes → Option Bytes
strip_prefix prefix text =
    if starts_with prefix text then some (drop (length prefix) text) else none

abbrev strip_suffix : Bytes → Bytes → Option Bytes
strip_suffix suffix text =
    if ends_with suffix text then some (take (length text - length suffix) text) else none

-- `text.parse::<u32>()`.
abbrev pub parse_u32 : Bytes → Option ℕ
parse_u32 text = elim (parse_u64 text) [
  | none ↦ none
  | some n ↦ if ltb n (2 ^ 32) then some n else none
]

abbrev pub check_json : Bytes → Check
check_json text = elim (validate_json_complexity text) [
  | ok _ ↦ ok tt
  | err _ ↦ err malformed_state
]

-- `checked_add(1)` on a sequence number.
abbrev pub next_sequence : ℕ → Result UploadError ℕ
next_sequence n = ensure (ltb n u64_max) sequence_overflow >> ok (n + 1)

-- In order of the segment numbers, as `sort_by_key` has it.
abbrev pub place : SegmentState → List SegmentState → List SegmentState
place s [] = s ∷ []
place s (t ∷ states) =
    let after = place s states in
    if leb s.state.segment_no t.state.segment_no then s ∷ t ∷ states else t ∷ after

abbrev pub sort_segments : List SegmentState → List SegmentState
sort_segments [] = []
sort_segments (s ∷ states) = place s (sort_segments states)

abbrev is_last : List SegmentState → Bool
is_last [] = true
is_last (s ∷ states) = false

-- The loop over the sorted states.
unfoldable pub check_chain : ℕ → ℕ → List SegmentState → Check
check_chain expected_segment expected_first [] = ok tt
check_chain expected_segment expected_first (item ∷ states) = do
  ensure (item.state.segment_no == expected_segment) segment_gap
  ensure (item.state.first_seq == expected_first) sequence_gap
  ensure (is_last states || (item.state.sealed && (item.state.acked_seq == item.planned_seq)))
      open_segment
  next ← next_sequence item.planned_seq
  check_chain (expected_segment + 1) next states

abbrev or_skip : {A : Type 0} → Option ℕ → A → (ℕ → A) → A
or_skip none skip go = skip
or_skip (some n) skip go = go n

-- `digest` is the hexadecimal SHA-256, and `from_slice` reads the JSON text of a state.
module _ (digest : Bytes → Bytes) (from_slice : Bytes → Option UploadState) where
  abbrev pub segment_state_path : Bytes → ℕ → Bytes
  segment_state_path api_origin segment_no =
      if segment_no == 0
      then ascii "state-" ++ (digest api_origin ++ ascii ".json")
      else ascii "state-"
        ++ (digest api_origin ++ (ascii "-segment-" ++ (four_digits segment_no ++ ascii ".json")))

  abbrev segment_digits : Bytes → Bytes → Option Bytes
  segment_digits api_origin name =
      elim (strip_prefix (ascii "state-" ++ (digest api_origin ++ ascii "-segment-")) name) [
        | none ↦ none
        | some value ↦ strip_suffix (ascii ".json") value
      ]

  abbrev canonical_number : Bytes → Option ℕ → Result UploadError (Option ℕ)
  canonical_number value none = err invalid_segment_number
  canonical_number value (some parsed) =
      ensure
        (ltb 0 parsed && (ltb parsed max_recording_segments && bytes_eq value (four_digits parsed)))
        invalid_segment_number
      >> ok (some parsed)

  -- The number of the segment that a file is the state of.
  unfoldable pub segment_of : Bytes → Bytes → Result UploadError (Option ℕ)
  segment_of api_origin name =
      if bytes_eq name (segment_state_path api_origin 0)
      then ok (some 0)
      else (elim (segment_digits api_origin name) [
        | none ↦ ok none
        | some value ↦ canonical_number value (parse_u32 value)
      ])

  abbrev pub parse_state : Bytes → Result UploadError UploadState
  parse_state text = elim (from_slice text) [ none ↦ err malformed_state | some s ↦ ok s ]

  -- A file that is the state of a segment.
  unfoldable pub load_segment :
      Bytes → Bytes → ℕ → Bytes → ℕ → Bytes → Result UploadError SegmentState
  load_segment api_origin run_id available_seq name segment_no text = do
    ensure (leb (length text) max_state_bytes) state_too_large
    check_json text
    parsed ← parse_state text
    let state = omit_sensitive_blob_plans parsed
    ensure (state.segment_no == segment_no) identity_mismatch
    planned_seq ←
        validate_state_prefix state run_id (recording_id_for_segment digest run_id segment_no)
          api_origin available_seq
    ensure (bytes_eq name (segment_state_path api_origin segment_no)) identity_mismatch
    ok (record { path = name; state = state; planned_seq = planned_seq })

  -- The loop over the files, with the number of states so far.
  unfoldable pub load_segments :
      Bytes → Bytes → ℕ → ℕ → Spool → Result UploadError (List SegmentState)
  load_segments api_origin run_id available_seq count [] = ok []
  load_segments api_origin run_id available_seq count ((name, text) ∷ files) = do
    found ← segment_of api_origin name
    let skip = load_segments api_origin run_id available_seq count files
    let more = load_segments api_origin run_id available_seq (count + 1) files
    or_skip found skip (λ segment_no. do
      ensure (ltb count max_recording_segments) segment_limit_exceeded
      s ← load_segment api_origin run_id available_seq name segment_no text
      states ← more
      ok (s ∷ states))

  unfoldable pub load_segment_chain :
      Bytes → Bytes → ℕ → Spool → Result UploadError (List SegmentState)
  load_segment_chain api_origin run_id available_seq spool = do
    states ← load_segments api_origin run_id available_seq 0 spool
    check_chain 0 1 (sort_segments states)
    ok (sort_segments states)

  -- The segment that an upload goes on with, for the chain that has been loaded.
  abbrev cursor_of : Bytes → Bytes → ℕ → ℕ → SegmentCursor
  cursor_of api_origin run_id segment_no first_seq = record {
    path = segment_state_path api_origin segment_no;
    recording_id = recording_id_for_segment digest run_id segment_no;
    segment_no = segment_no;
    first_seq = first_seq;
  }

  unfoldable pub cursor_after :
      Bytes → Bytes → ℕ → Option SegmentState → Result UploadError SegmentCursor
  cursor_after api_origin run_id available_seq none = ok (cursor_of api_origin run_id 0 1)
  cursor_after api_origin run_id available_seq (some last) =
      let onward = (do
        ensure (ltb last.planned_seq available_seq) exceeds_boundary
        ensure (ltb (last.state.segment_no + 1) max_recording_segments) segment_limit_exceeded
        first_seq ← next_sequence last.planned_seq
        ok (cursor_of api_origin run_id (last.state.segment_no + 1) first_seq)) in
      if not last.state.sealed || (last.planned_seq == available_seq)
      then ok (cursor_of api_origin run_id last.state.segment_no last.state.first_seq)
      else onward

  unfoldable pub select_segment_cursor :
      Bytes → Bytes → ℕ → Spool → Result UploadError (List SegmentState × SegmentCursor)
  select_segment_cursor api_origin run_id available_seq spool = do
    states ← load_segment_chain api_origin run_id available_seq spool
    cursor ← cursor_after api_origin run_id available_seq (last_segment states)
    ok (states, cursor)

-- The loop of segment_chain_complete.
unfoldable pub all_complete : List SegmentState → Bool
all_complete [] = true
all_complete (s ∷ states) =
    not (ltb (planned_sequence s.state) s.state.first_seq)
    && (s.state.sealed && ((s.state.acked_seq == s.planned_seq) && all_complete states))

unfoldable pub segment_chain_complete : List SegmentState → ℕ → Bool
segment_chain_complete states final_seq = elim (last_segment states) [
  | none ↦ false
  | some last ↦ if last.planned_seq == final_seq then all_complete states else false
]
