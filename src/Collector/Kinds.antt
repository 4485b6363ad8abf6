-- ===== src/Collector/Kinds.antt =====
-- Each kind of request keeps the protocol while it is worked on (`execute_request` of src/control.rs).
use inference_io.Prelude.{
  ℕ, refl, Bool, true, false, not, ◌||◌, Option, none, some, if◌then◌else◌, ltb, ◌==◌,
}
use inference_io.Bytes.{Bytes, ascii, bytes_eq}
use inference_io.Json.{Value, get}
use inference_io.Control.Fields.{as_u64}
use inference_io.Control.Apply.{read_key}
use inference_io.Control.Config.{LocalPolicy}
use inference_io.Collector.Daemon.{
  PendingRequest, RequestOperation, executed, M, ◌>>=◌, ◌>>◌, pure, lift, get_state, call, note,
  persist,
}
use inference_io.Collector.Execute.{
  Calls, refuse, finished, done, ensure_registered, invalidate_session, request_operation,
  prepare_active_request_operation,
}
use inference_io.Collector.Work.{
  set_paused, paused_value, apply_config, non_negative, unavailable, config_value, upload_prepared,
  upload_final, is_some, upload_found, upload_request, backfill_found, backfill_range,
  backfill_request,
}
use inference_io.Collector.Delete.{
  Target, whole_run, blob_class, invalid_class, target_of, delete_whole, delete_class,
  delete_target, delete_request, dispatch, execute_request,
}
use inference_io.Collector.Protocol.{call-note, flight}
use inference_io.Collector.Works.{
  Stable, Stable-bind, Stable-pure, Stable-if, Stable-IsOpen, Open, lift-Stable,
  invalidate_session-Stable, get_state-Stable, request_operation-Stable, persist-Stable,
  prepare-Stable, ensure_registered-Stable,
}

module _ (request : PendingRequest) where
  abbrev Keeps : {A : Type 0} → M A → Type 0
  Keeps m = Stable (Open request) m

  refuse-Keeps : (text : Bytes) → Keeps (refuse text)
  refuse-Keeps text = Stable-pure (Open request) _

  -- A call of another part, and the outcome that carries its report.
  lift-done-Keeps : (result : Option Value) → Keeps (lift result >>= finished)
  lift-done-Keeps result =
      Stable-bind (Open request) (lift result) finished (lift-Stable request result)
        (λ report. Stable-pure (Open request) (done report, false))

  -- The same after the session is given up.
  invalidate-Keeps : {A : Type 0} (m : M A) → Keeps m → Keeps (invalidate_session >> m)
  invalidate-Keeps m k =
      Stable-bind (Open request) invalidate_session (λ _. m) (invalidate_session-Stable request)
        (λ _. k)

  set_paused-Keeps : (b : Bool) → Keeps (set_paused b)
  unfolding set_paused
  set_paused-Keeps b =
      Stable-bind (Open request) (persist (λ s. record s { paused = b }))
        (λ _. pure (done (paused_value b), false)) (persist-Stable request _ (λ s. refl))
        (λ _. Stable-pure (Open request) _)

  upload_prepared-Keeps :
      (calls : Calls) (run : ℕ) (operation : Option RequestOperation)
      → Keeps (upload_prepared calls request run operation)
  upload_prepared-Keeps calls run none = refuse-Keeps _
  upload_prepared-Keeps calls run (some operation) =
      invalidate-Keeps _ (lift-done-Keeps (calls.upload_active request.kind run operation))

  upload_final-Keeps :
      (calls : Calls) (run : ℕ) (recording : Bytes) → Keeps (upload_final calls run recording)
  upload_final-Keeps calls run recording =
      Stable-bind (Open request) (lift (calls.valid_events run)) _
        (lift-Stable request (calls.valid_events run))
        (λ boundary.
          Stable-bind (Open request) (lift (calls.active_recording_id_at_boundary run boundary)) _
            (lift-Stable request (calls.active_recording_id_at_boundary run boundary))
            (λ current.
              Stable-if (Open request) (not (bytes_eq current recording)) _ _ (refuse-Keeps _)
                (invalidate-Keeps _ (lift-done-Keeps (calls.upload_run run)))))

  upload_found-Keeps :
      (calls : Calls) (recording : Bytes) (found : Option ℕ)
      → Keeps (upload_found calls request recording found)
  upload_found-Keeps calls recording none = refuse-Keeps _
  upload_found-Keeps calls recording (some run) =
      Stable-bind (Open request) (lift (calls.is_running run)) _
        (lift-Stable request (calls.is_running run))
        (λ running.
          Stable-bind (Open request) (request_operation request.id) _
            (request_operation-Stable request request.id)
            (λ known.
              Stable-if (Open request) (running || is_some known) _ _
                (Stable-bind (Open request)
                  (prepare_active_request_operation calls request run recording)
                  (upload_prepared calls request run) (prepare-Stable request calls run recording)
                  (upload_prepared-Keeps calls run))
                (upload_final-Keeps calls run recording)))

  -- The choice on the recording that a request names.
  upload_request-Keeps : (calls : Calls) → Keeps (upload_request calls request)
  unfolding upload_request
  upload_request-Keeps calls =
      Stable-bind (Open request) get_state _ (get_state-Stable request) (λ s.
        Stable-if (Open request) s.paused _ _ (refuse-Keeps _)
          (elim (calls.payload_recording_id request.payload)
            as (λ named. Keeps (elim named [
              | none ↦ refuse (ascii "invalid recording_id")
              | some recording ↦
                  lift (calls.find_recording recording) >>= upload_found calls request recording
            ])) [
              | none ↦ refuse-Keeps _
              | some recording ↦
                  Stable-bind (Open request) (lift (calls.find_recording recording))
                    (upload_found calls request recording)
                    (lift-Stable request (calls.find_recording recording))
                    (upload_found-Keeps calls recording)
            ]))

  backfill_found-Keeps :
      (calls : Calls) (recording : Bytes) (first last : ℕ) (found : Option ℕ)
      → Keeps (backfill_found calls recording first last found)
  backfill_found-Keeps calls recording first last none = refuse-Keeps _
  backfill_found-Keeps calls recording first last (some run) =
      Stable-bind (Open request) (lift (calls.is_running run)) _
        (lift-Stable request (calls.is_running run))
        (λ running.
          Stable-if (Open request) running _ _ (refuse-Keeps _)
            (invalidate-Keeps _ (lift-done-Keeps (calls.backfill_run run recording first last))))

  backfill_range-Keeps :
      (calls : Calls) (recording : Bytes) (first last : Option ℕ)
      → Keeps (backfill_range calls recording first last)
  backfill_range-Keeps calls recording (some first) (some last) =
      Stable-if (Open request) (first == 0 || ltb last first) _ _ (refuse-Keeps _) (
        Stable-bind (Open request) (lift (calls.find_recording recording))
          (backfill_found calls recording first last)
          (lift-Stable request (calls.find_recording recording))
          (backfill_found-Keeps calls recording first last))
  backfill_range-Keeps calls recording (some first) none = refuse-Keeps _
  backfill_range-Keeps calls recording none last = refuse-Keeps _

  backfill_request-Keeps : (calls : Calls) → Keeps (backfill_request calls request)
  unfolding backfill_request
  backfill_request-Keeps calls =
      Stable-bind (Open request) get_state _ (get_state-Stable request) (λ s.
        Stable-if (Open request) s.paused _ _ (refuse-Keeps _)
          (elim (calls.payload_recording_id request.payload)
            as (λ named. Keeps (elim named [
              | none ↦ refuse (ascii "invalid recording_id")
              | some recording ↦
                  backfill_range calls recording
                    (read_key as_u64 (ascii "first_seq") request.payload)
                    (read_key as_u64 (ascii "last_seq") request.payload)
            ])) [
              | none ↦ refuse-Keeps _
              | some recording ↦
                  backfill_range-Keeps calls recording
                    (read_key as_u64 (ascii "first_seq") request.payload)
                    (read_key as_u64 (ascii "last_seq") request.payload)
            ]))

  delete_whole-Keeps :
      (calls : Calls) (recording : Bytes) (found : Option ℕ)
      → Keeps (delete_whole calls request recording found)
  unfolding delete_whole
  delete_whole-Keeps calls recording (some run) =
      Stable-bind (Open request) (lift (calls.delete_uploaded_run run request.id)) _
        (lift-Stable request (calls.delete_uploaded_run run request.id))
        (λ report. Stable-pure (Open request) (done report.0, report.1))
  delete_whole-Keeps calls recording none =
      Stable-bind (Open request) (lift (calls.remote_delete_was_started request.id)) _
        (lift-Stable request (calls.remote_delete_was_started request.id))
        (λ started.
          Stable-if (Open request) (not started) _ _ (refuse-Keeps _)
            (lift-done-Keeps (calls.delete_missing_run recording request.id)))

  delete_class-Keeps :
      (calls : Calls) (has_key : Bool) (name : Bytes) (found : Option ℕ)
      → Keeps (delete_class calls has_key request name found)
  unfolding delete_class
  delete_class-Keeps calls has_key name none = refuse-Keeps _
  delete_class-Keeps calls has_key name (some run) =
      Stable-if (Open request) (not has_key) _ _ (refuse-Keeps _)
        (lift-done-Keeps (calls.erase_blob_class run name request.id))

  delete_target-Keeps :
      (calls : Calls) (has_key : Bool) (recording : Bytes) (target : Target)
      → Keeps (delete_target calls has_key request recording target)
  unfolding delete_target
  delete_target-Keeps calls has_key recording invalid_class = refuse-Keeps _
  delete_target-Keeps calls has_key recording whole_run =
      Stable-bind (Open request) (lift (calls.find_recording recording))
        (delete_whole calls request recording)
        (lift-Stable request (calls.find_recording recording)) (delete_whole-Keeps calls recording)
  delete_target-Keeps calls has_key recording (blob_class name) =
      Stable-bind (Open request) (lift (calls.find_recording recording))
        (delete_class calls has_key request name)
        (lift-Stable request (calls.find_recording recording))
        (delete_class-Keeps calls has_key name)

  delete_request-Keeps :
      (calls : Calls) (options : LocalPolicy) → Keeps (delete_request calls options request)
  unfolding delete_request
  delete_request-Keeps calls options =
      Stable-if (Open request) (not options.allow_remote_delete) _ _ (refuse-Keeps _)
        (elim (calls.payload_recording_id request.payload)
          as (λ named. Keeps (elim named [
            | none ↦ refuse (ascii "invalid recording_id")
            | some recording ↦
                delete_target calls options.class_erasure_enabled request recording
                  (target_of calls (get (ascii "class") request.payload))
          ])) [ none ↦ refuse-Keeps _ | some recording ↦ delete_target-Keeps calls _ recording _ ])

  module _ (is_header_name : Bytes → Bool) (to_vec : Value → Bytes) (options : LocalPolicy) where
    registered-Keeps : Keeps (ensure_registered is_header_name to_vec options)
    registered-Keeps =
        Stable-IsOpen request (ensure_registered is_header_name to_vec options) (λ operation.
          ensure_registered-Stable is_header_name to_vec options (flight request operation none))

    apply_config-Keeps : Keeps (apply_config is_header_name to_vec options request)
    unfolding apply_config
    apply_config-Keeps =
        elim (non_negative (read_key as_u64 (ascii "config_version") request.payload))
          as (λ version. Keeps (elim version [
            | none ↦ refuse (ascii "invalid config_version")
            | some requested ↦
                invalidate_session
                >> ensure_registered is_header_name to_vec options
                >> (get_state >>= λ s.
                    if s.config_version == requested
                    then pure (done (config_value s), false)
                    else refuse (unavailable requested s.config_version))
          ])) [
            | none ↦ refuse-Keeps _
            | some requested ↦
                Stable-bind (Open request)
                  (invalidate_session >> ensure_registered is_header_name to_vec options) _
                  (invalidate-Keeps _ registered-Keeps)
                  (λ _. Stable-bind (Open request) get_state _ (get_state-Stable request) (λ s.
                    Stable-if (Open request) (s.config_version == requested) _ _
                      (Stable-pure (Open request) _) (refuse-Keeps _)))
          ]

    dispatch-Keeps : (calls : Calls) → Keeps (dispatch is_header_name to_vec options calls request)
    unfolding dispatch
    dispatch-Keeps calls = Stable-if (Open request) _ _ _ (set_paused-Keeps true) (
        Stable-if (Open request) _ _ _ (set_paused-Keeps false) (
          Stable-if (Open request) _ _ _ apply_config-Keeps (
            Stable-if (Open request) _ _ _ (upload_request-Keeps calls) (
              Stable-if (Open request) _ _ _ (backfill_request-Keeps calls) (
                Stable-if (Open request) _ _ _ (delete_request-Keeps calls options)
                  (Stable-if (Open request) _ _ _ (refuse-Keeps _) (refuse-Keeps _)))))))

    -- Whatever the kind of the request and however its calls go, its work leaves it in flight without
    -- an outcome.
    pub execute_request-Keeps :
        (calls : Calls) → Keeps (execute_request is_header_name to_vec options calls request)
    unfolding execute_request
    execute_request-Keeps calls =
        Stable-bind (Open request) (call (note (executed request)))
          (λ _. dispatch is_header_name to_vec options calls request)
          (Stable-IsOpen request (call (note (executed request))) (λ operation d h.
            call-note (flight request operation none) (executed request) d refl (operation, refl)
              h))
          (λ _. dispatch-Keeps calls)
