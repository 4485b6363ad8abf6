-- ===== src/Upload/Retained.antt =====
-- The retention gate of src/upload.rs, over all the origins that a run is uploaded to.
use inference_io.Prelude.{
  ℕ, ◌≤◌, ◌≡◌, false, List, [], ◌∷◌, Option, some, arith, All, Exists, not, ok, ensure-then,
  >>=-eq-ok,
}
use inference_io.Bytes.{Bytes}
use inference_io.Bytes.Map.{Map}
use inference_io.Upload.State.{UploadState}
use inference_io.Upload.Chain.{Spool, SegmentState, load_segment_chain, segment_chain_complete}
use inference_io.Upload.Gate.{
  list_upload_origins, check_origins, is_none_listed, verify_retention_gate,
}
use inference_io.Upload.Acked.{IsAcked, load_segment_chain-IsAcked}

module _ (digest : Bytes → Bytes) (from_slice : Bytes → Option UploadState)
    (parse_origin : Bytes → Option Bytes) where
  -- Every event of the run is in an acknowledged batch of the chain of an origin.
  abbrev pub IsUploaded : Spool → Bytes → ℕ → Bytes × Unit {0} → Type 0
  IsUploaded spool run_id final_seq target =
      (states : List SegmentState) × (load_segment_chain digest from_slice target.0 run_id final_seq
          spool
        ≡ ok states)
      × ((sequence : ℕ) → 1 ≤ sequence → sequence ≤ final_seq → Exists (IsAcked sequence) states)

  check_origins-IsUploaded :
      (spool : Spool) (run_id : Bytes) (final_seq : ℕ) (origins : Map (Unit {0}))
      → check_origins digest from_slice parse_origin spool run_id final_seq origins ≡ ok tt
      → All (IsUploaded spool run_id final_seq) origins
  unfolding check_origins
  check_origins-IsUploaded spool run_id final_seq [] h = tt
  check_origins-IsUploaded spool run_id final_seq ((origin, _) ∷ origins) h =
      let (states, loaded, h1) =
        >>=-eq-ok (load_segment_chain digest from_slice origin run_id final_seq spool) _ h in
      let (complete, h2) = ensure-then (segment_chain_complete states final_seq) _ _ h1 in
      (
        (
          states,
          loaded,
          (λ sequence positive below.
              load_segment_chain-IsAcked digest from_slice origin run_id final_seq spool states
                final_seq sequence loaded complete positive below),
        ),
        check_origins-IsUploaded spool run_id final_seq origins h2,
      )

  -- When the retention gate lets a run with an upload spool pass, the spool names at least one origin,
  -- and for every origin that it names, the chain of segments is read without an error and each event
  -- of the run, from the first to the last, lies in a batch of one of them whose last event the platform
  -- has acknowledged.
  pub verify_retention_gate-IsUploaded :
      (spool : Spool) (run_id : Bytes) (final_seq : ℕ)
      → verify_retention_gate digest from_slice parse_origin (some spool) run_id final_seq ≡ ok tt
      → (origins : Map (Unit {0})) × (list_upload_origins digest from_slice parse_origin spool
            run_id
          ≡ ok origins)
        × (is_none_listed digest from_slice parse_origin origins ≡ false)
        × All (IsUploaded spool run_id final_seq) origins
  unfolding verify_retention_gate
  verify_retention_gate-IsUploaded spool run_id final_seq h =
      let (origins, listed, h1) =
        >>=-eq-ok (list_upload_origins digest from_slice parse_origin spool run_id) _ h in
      let (some_listed, h2) =
        ensure-then (not (is_none_listed digest from_slice parse_origin origins)) _ _ h1 in
      (
        origins,
        listed,
        ground (arith, some_listed),
        check_origins-IsUploaded spool run_id final_seq origins h2,
      )
