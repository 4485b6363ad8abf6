-- ===== src/Upload/Gate.antt =====
-- list_upload_origins and verify_retention_gate of src/upload.rs. `parse_origin` stands for `Url::parse`
-- with validate_api and canonical_origin: it gives the origin of a URL that an upload may go to.
use inference_io.Prelude.{
  ℕ, ◌+◌, Bool, true, false, not, ◌&&◌, [], ◌∷◌, Option, none, some, leb, ltb, if◌then◌else◌,
  length, Result, err, ok, ◌>>=◌, ◌>>◌, ensure,
}
use inference_io.Bytes.{Bytes, ascii, bytes_eq, starts_with, ends_with}
use inference_io.Bytes.Map.{Map, insert}
use inference_io.Upload.State.{
  UploadState, UploadError, run_mismatch, origin_mismatch, state_too_large,
  invalid_segment_identity, identity_mismatch, not_acknowledged, too_many_states, too_many_targets,
  no_target, Check, max_recording_segments,
}
use inference_io.Upload.Chain.{
  Spool, max_state_bytes, check_json, parse_state, segment_state_path, load_segment_chain,
  segment_chain_complete,
}

abbrev max_upload_targets : ℕ
max_upload_targets = 128

abbrev max_total_upload_states : ℕ
max_total_upload_states = 100000

abbrev is_state_name : Bytes → Bool
is_state_name name = starts_with (ascii "state-") name && ends_with (ascii ".json") name

module _ (digest : Bytes → Bytes) (from_slice : Bytes → Option UploadState)
    (parse_origin : Bytes → Option Bytes) where
  abbrev has_canonical_origin : UploadState → Bool
  has_canonical_origin s = elim (parse_origin s.api_origin) [
    | none ↦ false
    | some origin ↦ bytes_eq origin s.api_origin
  ]

  -- The origin of a state file.
  unfoldable pub origin_of : Bytes → Bytes → Bytes → Result UploadError Bytes
  origin_of run_id name text = do
    ensure (leb (length text) max_state_bytes) state_too_large
    check_json text
    s ← parse_state digest from_slice text
    ensure (bytes_eq s.run_id run_id) run_mismatch
    ensure (ltb s.segment_no max_recording_segments) invalid_segment_identity
    ensure (has_canonical_origin s) origin_mismatch
    ensure (bytes_eq name (segment_state_path digest from_slice s.api_origin s.segment_no))
        identity_mismatch
    ok s.api_origin

  -- The loop over the files, with the number of states and the set of origins so far.
  unfoldable pub list_origins :
      Bytes → ℕ → Map (Unit {0}) → Spool → Result UploadError (Map (Unit {0}))
  list_origins run_id states origins [] = ok origins
  list_origins run_id states origins ((name, text) ∷ files) =
      let skip = list_origins run_id states origins files in
      let go = (do
        ensure (leb (states + 1) max_total_upload_states) too_many_states
        origin ← origin_of run_id name text
        ensure (leb (length (insert origin tt origins)) max_upload_targets) too_many_targets
        list_origins run_id (states + 1) (insert origin tt origins) files) in
      if is_state_name name then go else skip

  unfoldable pub list_upload_origins : Spool → Bytes → Result UploadError (Map (Unit {0}))
  list_upload_origins spool run_id = list_origins run_id 0 [] spool

  unfoldable pub check_origins : Spool → Bytes → ℕ → Map (Unit {0}) → Check
  check_origins spool run_id final_seq [] = ok tt
  check_origins spool run_id final_seq ((origin, _) ∷ origins) = do
    states ← load_segment_chain digest from_slice origin run_id final_seq spool
    ensure (segment_chain_complete states final_seq) not_acknowledged
    check_origins spool run_id final_seq origins

  abbrev pub is_none_listed : Map (Unit {0}) → Bool
  is_none_listed [] = true
  is_none_listed (origin ∷ origins) = false

  -- The gate, for the spool of a run, if there is one.
  unfoldable pub verify_retention_gate : Option Spool → Bytes → ℕ → Check
  verify_retention_gate none run_id final_seq = ok tt
  verify_retention_gate (some spool) run_id final_seq = do
    origins ← list_upload_origins spool run_id
    ensure (not (is_none_listed origins)) no_target
    check_origins spool run_id final_seq origins

  unfoldable pub verify_uploaded_retention_gate : Option Spool → Bytes → ℕ → Check
  verify_uploaded_retention_gate none run_id final_seq = err no_target
  verify_uploaded_retention_gate (some spool) run_id final_seq =
      verify_retention_gate (some spool) run_id final_seq
