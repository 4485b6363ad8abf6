-- ===== src/Collector/Work.antt =====
-- `execute_request` of src/control.rs: the work of a request by its kind.
use inference_io.Prelude.{
  ℕ, ◌^◌, Bool, true, false, not, ◌||◌, Option, none, some, ◌++◌, ltb, ◌==◌, if◌then◌else◌,
}
use inference_io.Bytes.{Bytes, ascii, bytes_eq}
use inference_io.Bytes.Decimal.{show_u64}
use inference_io.Json.{Value, object, bool, no_fields, entry}
use inference_io.Control.Fields.{as_u64}
use inference_io.Control.Apply.{read_key}
use inference_io.Control.Config.{LocalPolicy, number_value}
use inference_io.Collector.Daemon.{
  PendingRequest, RequestOperation, CollectorState, M, ◌>>=◌, ◌>>◌, pure, lift, get_state, persist,
}
use inference_io.Collector.Execute.{
  done, Calls, Work, refuse, finished, ensure_registered, invalidate_session, request_operation,
  prepare_active_request_operation,
}

-- `json!({"paused": b})`.
abbrev pub paused_value : Bool → Value
paused_value b = object (entry (ascii "paused") (bool b) no_fields)

unfoldable pub set_paused : Bool → M Work
unfolding done
set_paused b = persist (λ s. record s { paused = b }) >> pure (done (paused_value b), false)

-- `.and_then(Value::as_i64).filter(|version| *version >= 0)`.
abbrev pub non_negative : Option ℕ → Option ℕ
non_negative none = none
non_negative (some n) = if ltb n (2 ^ 63) then some n else none

abbrev pub unavailable : ℕ → ℕ → Bytes
unavailable requested current =
    ascii "requested configuration version "
    ++ (show_u64 requested ++ (ascii " is unavailable; platform returned " ++ show_u64 current))

abbrev pub config_value : CollectorState → Value
config_value s = object (
    entry (ascii "config_version") (number_value s.config_version) (
      entry (ascii "effective_config") s.effective_config
        (entry (ascii "rejected") s.rejected_config no_fields)))

module _ (is_header_name : Bytes → Bool) (to_vec : Value → Bytes) (options : LocalPolicy) where
  unfoldable pub apply_config : PendingRequest → M Work
  unfolding done
  apply_config request =
      elim (non_negative (read_key as_u64 (ascii "config_version") request.payload)) [
        | none ↦ refuse (ascii "invalid config_version")
        | some requested ↦
            invalidate_session
            >> ensure_registered is_header_name to_vec options
            >> (get_state >>= λ s.
                if s.config_version == requested
                then pure (done (config_value s), false)
                else refuse (unavailable requested s.config_version))
      ]

-- The upload of the active segment, after its boundary is in the state.
abbrev pub upload_prepared : Calls → PendingRequest → ℕ → Option RequestOperation → M Work
upload_prepared calls request run none = refuse (ascii "recording_id is not the active segment")
upload_prepared calls request run (some operation) =
    invalidate_session >> (lift (calls.upload_active request.kind run operation) >>= finished)

abbrev pub upload_final : Calls → ℕ → Bytes → M Work
upload_final calls run recording = lift (calls.valid_events run) >>= λ boundary.
    lift (calls.active_recording_id_at_boundary run boundary) >>= λ current.
    if not (bytes_eq current recording)
    then refuse (ascii "recording_id is not the final upload segment")
    else invalidate_session >> (lift (calls.upload_run run) >>= finished)

abbrev pub is_some {ℓ} : {A : Type ℓ} → Option A → Bool
is_some none = false
is_some (some _) = true

abbrev pub upload_found : Calls → PendingRequest → Bytes → Option ℕ → M Work
upload_found calls request recording none = refuse (ascii "recording is not present locally")
upload_found calls request recording (some run) = lift (calls.is_running run) >>= λ running.
    request_operation request.id >>= λ known.
    if running || is_some known
    then prepare_active_request_operation calls request run recording
      >>= upload_prepared calls request run
    else upload_final calls run recording

-- `flush` and `seal`.
unfoldable pub upload_request : Calls → PendingRequest → M Work
unfolding done
upload_request calls request = get_state >>= λ s.
    if s.paused
    then refuse (ascii "uploads are paused by collector policy")
    else elim (calls.payload_recording_id request.payload) [
      | none ↦ refuse (ascii "invalid recording_id")
      | some recording ↦
          lift (calls.find_recording recording) >>= upload_found calls request recording
    ]

abbrev pub backfill_found : Calls → Bytes → ℕ → ℕ → Option ℕ → M Work
backfill_found calls recording first last none = refuse (ascii "recording is not present locally")
backfill_found calls recording first last (some run) = lift (calls.is_running run) >>= λ running.
    if running
    then refuse (ascii "backfill refuses a run that is still being recorded")
    else invalidate_session >> (lift (calls.backfill_run run recording first last) >>= finished)

abbrev pub backfill_range : Calls → Bytes → Option ℕ → Option ℕ → M Work
backfill_range calls recording (some first) (some last) =
    if first == 0 || ltb last first
    then refuse (ascii "invalid backfill sequence range")
    else lift (calls.find_recording recording) >>= backfill_found calls recording first last
backfill_range calls recording (some first) none = refuse (ascii "invalid backfill sequence range")
backfill_range calls recording none last = refuse (ascii "invalid backfill sequence range")

unfoldable pub backfill_request : Calls → PendingRequest → M Work
unfolding done
backfill_request calls request = get_state >>= λ s.
    if s.paused
    then refuse (ascii "uploads are paused by collector policy")
    else elim (calls.payload_recording_id request.payload) [
      | none ↦ refuse (ascii "invalid recording_id")
      | some recording ↦
          backfill_range calls recording (read_key as_u64 (ascii "first_seq") request.payload)
            (read_key as_u64 (ascii "last_seq") request.payload)
    ]
