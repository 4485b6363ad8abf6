-- ===== src/Upload/Plan.antt =====
-- The plan of the batches of a run: build_batch_plans_range, add_blob_plan, finish_plan and
-- extend_state_to of src/upload.rs. The events are what the reader of the log gives, each of which may be
-- a failure; the JSON text of an event, the hexadecimal SHA-256 and the clock are arguments.
use inference_io.Prelude.{
  ℕ, ◌+◌, Bool, true, false, not, ◌&&◌, ◌||◌, List, [], ◌∷◌, ◌++◌, Option, none, some, leb, ltb,
  ◌==◌, if◌then◌else◌, length, drop, saturating_add, u64_max, Result, err, ok, ◌>>=◌, ◌>>◌, ensure,
}
use inference_io.Bytes.{Bytes, ascii, starts_with}
use inference_io.Bytes.Lines.{newline}
use inference_io.Bytes.Map.{Map, lookup, insert}
use inference_io.Model.{PayloadRef, EventEnvelope}
use inference_io.Upload.State.{
  BlobPlan, BatchPlan, UploadState, UploadError, invalid_planning_range, event_too_large,
  conflicting_sizes, empty_range, no_sha256_prefix, invalid_batch_range, too_many_batches,
  too_many_blobs, sequence_gap, sequence_overflow, exceeds_boundary, sealed_plan,
  does_not_cover_log, default_batch_events, default_batch_bytes, max_batch_plans, max_blob_plans,
  is_sensitive_upload_media_type, last_batch, planned_sequence,
}

-- A blob of the batch, which may be in it already.
abbrev pub insert_blob :
    Map BlobPlan → Bytes → BlobPlan → Option BlobPlan → Result UploadError (Map BlobPlan)
insert_blob blobs sha256 candidate none = ok (insert sha256 candidate blobs)
insert_blob blobs sha256 candidate (some existing) =
    ensure (existing.size == candidate.size) conflicting_sizes >> ok blobs

unfoldable pub add_blob_plan : Map BlobPlan → Option PayloadRef → Result UploadError (Map BlobPlan)
add_blob_plan blobs none = ok blobs
add_blob_plan blobs (some reference) =
    let sha256 = drop 7 reference.sha256 in
    let candidate : BlobPlan = record {
      sha256 = sha256;
      size = reference.size;
      media_type = reference.media_type;
    } in
    if is_sensitive_upload_media_type reference.media_type
    then ok blobs
    else if starts_with (ascii "sha256:") reference.sha256
    then insert_blob blobs sha256 candidate (lookup sha256 blobs)
    else err no_sha256_prefix

abbrev pub values : Map BlobPlan → List BlobPlan
values [] = []
values ((key, blob) ∷ blobs) = blob ∷ values blobs

-- The variables of the loop over the events.
pub record Planning : Type 0 where
  pub batches : List BatchPlan
  pub raw : Bytes
  pub first_seq : ℕ
  pub last_seq : ℕ
  pub count : ℕ
  pub blobs : Map BlobPlan
  pub previous : Option Bytes
  pub expected : ℕ

abbrev pub blob_total : List BatchPlan → ℕ
blob_total [] = 0
blob_total (b ∷ batches) = length b.blobs + blob_total batches

abbrev pub is_no_batch : List BatchPlan → Bool
is_no_batch [] = true
is_no_batch (b ∷ batches) = false

module _ (to_vec : EventEnvelope → Bytes) (digest : Bytes → Bytes) (clock : ℕ → ℕ) where
  -- The plan of the events that have been gathered.
  abbrev pub plan_of : Planning → BatchPlan
  plan_of p = record {
    first_seq = p.first_seq;
    last_seq = p.last_seq;
    event_count = p.count;
    byte_length = length p.raw;
    sha256 = digest p.raw;
    prev_sha256 = p.previous;
    blobs = values p.blobs;
    created_at = clock p.last_seq;
  }

  unfoldable pub finish_plan : Planning → Result UploadError BatchPlan
  finish_plan p = do
    ensure (ltb 0 p.first_seq && leb p.first_seq p.last_seq) invalid_batch_range
    ensure (ltb 0 p.count) empty_range
    ok (plan_of p)

  -- The batch is full: its plan is made, and the next one begins.
  unfoldable pub close_batch : Planning → Result UploadError Planning
  close_batch p = do
    plan ← finish_plan p
    ensure (leb (length (p.batches ++ plan ∷ [])) max_batch_plans) too_many_batches
    ok (record p {
      batches = p.batches ++ plan ∷ [];
      raw = [];
      count = 0;
      blobs = [];
      previous = some plan.sha256;
    })

  unfoldable pub gather : EventEnvelope → Bytes → Planning → Result UploadError Planning
  gather e line p = do
    blobs ← add_blob_plan p.blobs e.raw
    ok (record p {
      raw = p.raw ++ line;
      first_seq = (if p.count == 0 then e.sequence else p.first_seq);
      last_seq = e.sequence;
      count = p.count + 1;
      blobs = blobs;
    })

  -- Whether the event does not go into the batch.
  abbrev pub is_full : Planning → Bytes → Bool
  is_full p line =
      ltb 0 p.count
      && ((p.count == default_batch_events) || ltb default_batch_bytes (length p.raw + length line))

  unfoldable pub plan_event : EventEnvelope → Planning → Result UploadError Planning
  plan_event e p = do
    ensure (e.sequence == p.expected) sequence_gap
    ensure (ltb p.expected u64_max) sequence_overflow
    let line = to_vec e ++ newline ∷ []
    ensure (leb (length line) default_batch_bytes) event_too_large
    q ← (if is_full p line then close_batch p else ok p)
    gather e line (record q { expected = p.expected + 1 })

  unfoldable pub plan_events :
      ℕ → ℕ → List (Result UploadError EventEnvelope) → Planning → Result UploadError Planning
  plan_events first last [] p = ok p
  plan_events first last (err failure ∷ events) p = err failure
  plan_events first last (ok e ∷ events) p =
      let skip = plan_events first last events p in
      let go = (do q ← plan_event e p; plan_events first last events q) in
      if ltb e.sequence first then skip else if ltb last e.sequence then ok p else go

  abbrev pub planning : ℕ → Option Bytes → Planning
  planning first previous = record {
    batches = [];
    raw = [];
    first_seq = 0;
    last_seq = 0;
    count = 0;
    blobs = [];
    previous = previous;
    expected = first;
  }

  -- The batches, with the last one, which need not be full.
  unfoldable pub all_batches : Planning → Result UploadError (List BatchPlan)
  all_batches p =
      if ltb 0 p.count then (do plan ← finish_plan p; ok (p.batches ++ plan ∷ [])) else ok p.batches

  unfoldable pub build_batch_plans_range :
      List (Result UploadError EventEnvelope)
      → ℕ
      → ℕ
      → Option Bytes
      → Result UploadError (List BatchPlan)
  build_batch_plans_range events first last previous = do
    ensure (ltb 0 first && leb first last) invalid_planning_range
    p ← plan_events first last events (planning first previous)
    batches ← all_batches p
    ensure (not (is_no_batch batches)) empty_range
    ensure ((last == u64_max) || (p.expected == saturating_add last 1)) does_not_cover_log
    ensure (leb (blob_total batches) max_blob_plans) too_many_blobs
    ok batches

  abbrev pub last_sha256 : List BatchPlan → Option Bytes
  last_sha256 batches = elim (last_batch batches) [ none ↦ none | some b ↦ some b.sha256 ]

  unfoldable pub extend_state_to :
      UploadState → List (Result UploadError EventEnvelope) → ℕ → ℕ → Result UploadError UploadState
  extend_state_to s events target_seq now =
      let go = (do
        ensure (ltb (planned_sequence s) target_seq) exceeds_boundary
        ensure (not s.sealed) sealed_plan
        ensure (ltb (planned_sequence s) u64_max) sequence_overflow
        additional ←
            build_batch_plans_range events (planned_sequence s + 1) target_seq
              (last_sha256 s.batches)
        ensure (leb (length (s.batches ++ additional)) max_batch_plans) too_many_batches
        ok (record s { batches = s.batches ++ additional; updated_at = now })) in
      if planned_sequence s == target_seq then ok s else go
