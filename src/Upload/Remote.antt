-- ===== src/Upload/Remote.antt =====
-- What the platform answers, and what an upload makes of it: reconcile_remote, validate_ack and the
-- loop over the batches of src/upload.rs. Reading a batch from the log, which may fail, sending it with
-- its blobs, which may fail or be answered, and the clock are arguments.
use inference_io.Prelude.{
  ℕ, ◌+◌, ◌-◌, Bool, true, false, ◌&&◌, ◌||◌, List, [], ◌∷◌, Option, none, some, leb, ◌==◌,
  if◌then◌else◌, Result, err, ok, ◌>>=◌, ◌>>◌, ensure,
}
use inference_io.Bytes.{Bytes, ascii, bytes_eq}
use inference_io.Upload.State.{
  BatchPlan, UploadState, UploadError, recording_mismatch, identity_mismatch, exceeds_evidence,
  not_a_batch_boundary, does_not_cover_log, not_uploadable, invalid_ack, missing_blobs, Check,
  planned_sequence, is_batch_boundary,
}

pub record RemoteRecording : Type 0 where
  pub state : Bytes
  pub segment_no : ℕ
  pub sequence_base : ℕ
  pub durable_seq : ℕ
  pub final_seq : Option ℕ

pub record BatchAck : Type 0 where
  pub recording_id : Bytes
  pub durable_seq : ℕ
  pub state : Bytes
  pub missing_blobs : List Bytes

abbrev pub is_sealed : Bytes → Bool
is_sealed state = bytes_eq state (ascii "sealed")

abbrev pub is_open : Bytes → Bool
is_open state = bytes_eq state (ascii "open")

abbrev pub agrees : Option ℕ → ℕ → Bool
agrees none n = true
agrees (some m) n = m == n

abbrev pub check_remote_state : RemoteRecording → ℕ → Check
check_remote_state remote final_seq =
    if is_sealed remote.state
    then ensure (agrees remote.final_seq final_seq) does_not_cover_log
    else ensure (is_open remote.state) not_uploadable

unfoldable pub reconcile_remote : UploadState → RemoteRecording → ℕ → Result UploadError UploadState
reconcile_remote s remote now = do
  ensure ((remote.segment_no == s.segment_no) && (remote.sequence_base == s.first_seq - 1))
      identity_mismatch
  ensure (leb (s.first_seq - 1) remote.durable_seq && leb remote.durable_seq (planned_sequence s))
      exceeds_evidence
  ensure (is_batch_boundary s remote.durable_seq) not_a_batch_boundary
  check_remote_state remote (planned_sequence s)
  ok (record s {
    acked_seq = remote.durable_seq;
    sealed = is_sealed remote.state && (remote.durable_seq == planned_sequence s);
    updated_at = now;
  })

abbrev is_empty : List Bytes → Bool
is_empty [] = true
is_empty (text ∷ texts) = false

unfoldable pub validate_ack : UploadState → BatchPlan → BatchAck → Check
validate_ack s b ack =
    ensure (bytes_eq ack.recording_id s.recording_id) recording_mismatch
    >> ensure (is_open ack.state || is_sealed ack.state) not_uploadable
    >> ensure
        (leb b.last_seq ack.durable_seq
          && (leb ack.durable_seq (planned_sequence s) && is_batch_boundary s ack.durable_seq))
        invalid_ack
    >> ensure (is_empty ack.missing_blobs) missing_blobs

-- Whether the upload is of a whole run, whose last event is given, or of an active segment.
pub data Target : Type 0 where
  whole_run : ℕ → Target
  active_segment : Target

abbrev pub sealed_by : Target → UploadState → BatchAck → Bool
sealed_by (whole_run final_seq) s ack = is_sealed ack.state && (ack.durable_seq == final_seq)
sealed_by active_segment s ack = s.sealed

abbrev pub acknowledged : Target → UploadState → BatchAck → ℕ → UploadState
acknowledged target s ack now = record s {
  acked_seq = ack.durable_seq;
  sealed = sealed_by target s ack;
  updated_at = now;
}

-- The states that have been written to the spool, the last one first, and the outcome.
pub record Uploading : Type 0 where
  pub written : List UploadState
  pub outcome : Result UploadError UploadState

abbrev pub reached : Option ℕ → ℕ → Bool
reached none n = false
reached (some maximum) n = leb maximum n

module _ (read_batch : BatchPlan → Check)
    (exchange : UploadState → BatchPlan → Result UploadError BatchAck) (clock : UploadState → ℕ)
    (target : Target) where
  -- A batch that has not been acknowledged.
  unfoldable pub upload_batch : BatchPlan → UploadState → Result UploadError UploadState
  upload_batch b s = do
    ack ← exchange s b
    validate_ack s b ack
    ok (acknowledged target s ack (clock s))

  -- The loop, with the number of the batches uploaded so far.
  unfoldable pub upload_batches :
      Option ℕ → ℕ → List BatchPlan → UploadState → List UploadState → Uploading
  upload_batches maximum uploaded [] s written = record { written = written; outcome = ok s }
  upload_batches maximum uploaded (b ∷ batches) s written =
      let skip = upload_batches maximum uploaded batches s written in
      let go : Uploading = (elim (upload_batch b s) [
        | err e ↦ record { written = written; outcome = err e }
        | ok t ↦
            let more = upload_batches maximum (uploaded + 1) batches t (t ∷ written) in
            if reached maximum (uploaded + 1)
            then record { written = t ∷ written; outcome = ok t }
            else more
      ]) in
      elim (read_batch b) [
        | err e ↦ record { written = written; outcome = err e }
        | ok _ ↦ if leb b.last_seq s.acked_seq then skip else go
      ]
