-- ===== src/Collector/Execute.antt =====
-- The work of a request: `validate_pending_request`, `ensure_registered`, `execute_request` and
-- `prepare_active_request_operation` of src/control.rs. What they call of the upload, the retention and
-- the run store is the record `Calls`.
use inference_io.Prelude.{
  ℕ, ◌*◌, Bool, true, false, not, ◌&&◌, Option, none, some, List, [], ◌∷◌, take, length, ltb, leb,
  ◌==◌, Result, ok, err, if◌then◌else◌,
}
use inference_io.Bytes.{Bytes, ascii, bytes_eq, all}
use inference_io.Json.{Value, object, no_fields}
use inference_io.Input.{validate_json_complexity}
use inference_io.Control.Config.{LocalPolicy}
use inference_io.Control.Remote.{merge_remote_config}
use inference_io.Collector.Daemon.{
  PendingRequest, RequestOutcome, RequestOperation, InflightRequest, CollectorState, Registration,
  call_failed, inflight_changed, M, ◌>>=◌, ◌>>◌, pure, fail, guard, lift, persist,
}

abbrev pub max_reason_bytes : ℕ
max_reason_bytes = 2 * 1024

abbrev pub max_result_bytes : ℕ
max_result_bytes = 64 * 1024

unfoldable pub done : Value → RequestOutcome
done result = record { status = ascii "done"; reason = []; result = result }

-- The reasons are ASCII, so a character is a byte.
unfoldable pub rejected : Bytes → RequestOutcome
rejected reason = record {
  status = ascii "rejected";
  reason = take max_reason_bytes reason;
  result = object no_fields;
}

abbrev is_ascii_graphic : ℕ → Bool
is_ascii_graphic c = leb 33 c && leb c 126

abbrev is_object : Value → Bool
is_object (object _) = true
is_object _ = false

abbrev accepts {ℓ} : {E : Type ℓ} → Result E (Unit {0}) → Bool
accepts (ok _) = true
accepts (err _) = false

unfoldable pub validate_pending_request : (Value → Bytes) → PendingRequest → Bool
validate_pending_request to_vec request =
    not (request.id == 0)
    && (ltb 0 (length request.kind)
        && (leb (length request.kind) 64
            && (all is_ascii_graphic request.kind
                && (is_object request.payload
                    && (leb (length (to_vec request.payload)) max_result_bytes
                        && accepts (validate_json_complexity (to_vec request.payload)))))))

-- What a request's work and a cycle call; `none` where the call fails.
pub record Calls : Type 0 where
  pub payload_recording_id : Value → Option Bytes
  pub find_recording : Bytes → Option (Option ℕ)
  pub is_running : ℕ → Option Bool
  pub request_flush_boundary : ℕ → Option ℕ
  pub active_recording_id_at_boundary : ℕ → ℕ → Option Bytes
  pub valid_events : ℕ → Option ℕ
  pub upload_active : Bytes → ℕ → RequestOperation → Option Value
  pub upload_run : ℕ → Option Value
  pub backfill_run : ℕ → Bytes → ℕ → ℕ → Option Value
  pub is_blob_class : Bytes → Bool
  pub erase_blob_class : ℕ → Bytes → ℕ → Option Value
  pub remote_delete_was_started : ℕ → Option Bool
  pub delete_missing_run : Bytes → ℕ → Option Value
  pub delete_uploaded_run : ℕ → ℕ → Option (Value × Bool)
  -- What the other parts of a cycle find: whether an upload has rotated the session, the
  -- configuration version that a heartbeat answers, and whether another heartbeat is due.
  pub uploads_rotate : Bool
  pub rolls_rotate : Bool
  pub heartbeat_version : Option ℕ
  pub heartbeat_due : Bool

abbrev pub Work : Type 0
Work = RequestOutcome × Bool

abbrev pub finished : Value → M Work
finished report = pure (done report, false)

abbrev pub refuse : Bytes → M Work
refuse text = pure (rejected text, false)

module _ (is_header_name : Bytes → Bool) (to_vec : Value → Bytes) (options : LocalPolicy) where
  -- An answer without a collector ID, or whose session has expired, is left out of the answers.
  abbrev pub register_with : List Registration → M (Unit {0})
  register_with [] d = (err call_failed, d)
  register_with (answer ∷ rest) d =
      if ltb answer.config_version d.state.config_version
      then (err call_failed, record d { registrations = rest })
      else elim (merge_remote_config is_header_name to_vec answer.config options) [
        | err _ ↦ (err call_failed, record d { registrations = rest })
        | ok merge ↦
            persist
              (λ s. record s {
                config_version = answer.config_version;
                effective_config = merge.effective;
                rejected_config = object merge.rejected;
              })
              (record d { registrations = rest; has_session = true })
      ]

  abbrev pub register_unless : Bool → M (Unit {0})
  register_unless true d = (ok tt, d)
  register_unless false d = register_with d.registrations d

  unfoldable pub ensure_registered : M (Unit {0})
  unfolding persist
  ensure_registered d = register_unless d.has_session d

abbrev pub invalidate_session : M (Unit {0})
invalidate_session d = (ok tt, record d { has_session = false })

abbrev pub operation_of : ℕ → Option InflightRequest → M (Option RequestOperation)
operation_of id none = pure none
operation_of id (some inflight) =
    if inflight.request.id == id then pure inflight.operation else fail inflight_changed

-- The operation of the request in flight.
unfoldable pub request_operation : ℕ → M (Option RequestOperation)
request_operation id d = operation_of id d.state.inflight d

abbrev pub with_operation_in : RequestOperation → Option InflightRequest → Option InflightRequest
with_operation_in operation none = none
with_operation_in operation (some inflight) = some (record inflight { operation = some operation })

-- `inflight.operation = Some(..)`, where the request is in flight.
abbrev pub with_operation : RequestOperation → CollectorState → CollectorState
with_operation operation s = record s { inflight = with_operation_in operation s.inflight }

abbrev pub check_id : ℕ → Option InflightRequest → M (Unit {0})
check_id id none = fail inflight_changed
check_id id (some inflight) = if inflight.request.id == id then pure tt else fail inflight_changed

-- `self.state.inflight.as_mut().context(..)?` and the check of its ID.
unfoldable pub check_inflight : ℕ → M (Unit {0})
check_inflight id d = check_id id d.state.inflight d

-- The boundary into the state, if the recording is the active one.
abbrev pub fix_boundary : PendingRequest → Bytes → ℕ → Bytes → M (Option RequestOperation)
fix_boundary request recording_id boundary active =
    let operation : RequestOperation = record {
      recording_id = recording_id;
      durable_boundary = boundary;
    } in
    if not (bytes_eq active recording_id)
    then pure none
    else check_inflight request.id >> persist (with_operation operation) >> pure (some operation)

abbrev pub prepare_with :
    Calls → PendingRequest → ℕ → Bytes → Option RequestOperation → M (Option RequestOperation)
prepare_with calls request run recording_id (some operation) =
    guard (bytes_eq operation.recording_id recording_id) inflight_changed >> pure (some operation)
prepare_with calls request run recording_id none =
    lift (calls.request_flush_boundary run) >>= λ boundary.
    lift (calls.active_recording_id_at_boundary run boundary)
    >>= fix_boundary request recording_id boundary

unfoldable pub prepare_active_request_operation :
    Calls → PendingRequest → ℕ → Bytes → M (Option RequestOperation)
prepare_active_request_operation calls request run recording_id =
    request_operation request.id >>= prepare_with calls request run recording_id
