-- ===== src/Collector/Delete.antt =====
-- `execute_request` of src/control.rs: the deletion of a run or of a class of its blobs, and the choice of
-- the work by the request's kind.
use inference_io.Prelude.{ℕ, Bool, true, false, not, ◌||◌, Option, none, some, if◌then◌else◌}
use inference_io.Bytes.{Bytes, ascii, bytes_eq}
use inference_io.Json.{Value, get, as_str}
use inference_io.Control.Config.{LocalPolicy}
use inference_io.Collector.Daemon.{PendingRequest, executed, M, ◌>>=◌, ◌>>◌, pure, lift, call, note}
use inference_io.Collector.Execute.{done, Calls, Work, refuse, finished}
use inference_io.Collector.Work.{set_paused, apply_config, upload_request, backfill_request}

-- The class that a deletion names: none for the whole run, and an error for what is no class.
pub data Target : Type 0 where
  whole_run : Target
  blob_class : Bytes → Target
  invalid_class : Target

abbrev text_target : Calls → Option Bytes → Target
text_target calls none = invalid_class
text_target calls (some name) = if calls.is_blob_class name then blob_class name else invalid_class

abbrev pub target_of : Calls → Option Value → Target
target_of calls none = whole_run
target_of calls (some value) = text_target calls (as_str value)

abbrev pub absent : Bytes
absent = ascii "recording is not present locally"

unfoldable pub delete_whole : Calls → PendingRequest → Bytes → Option ℕ → M Work
unfolding done
delete_whole calls request recording (some run) =
    lift (calls.delete_uploaded_run run request.id) >>= λ report. pure (done report.0, report.1)
delete_whole calls request recording none =
    lift (calls.remote_delete_was_started request.id) >>= λ started.
    if not started
    then refuse absent
    else lift (calls.delete_missing_run recording request.id) >>= finished

unfoldable pub delete_class : Calls → Bool → PendingRequest → Bytes → Option ℕ → M Work
unfolding done
delete_class calls has_key request name none = refuse absent
delete_class calls has_key request name (some run) =
    if not has_key
    then refuse (ascii "blob-class deletion requires a local encryption key")
    else lift (calls.erase_blob_class run name request.id) >>= finished

unfoldable pub delete_target : Calls → Bool → PendingRequest → Bytes → Target → M Work
unfolding delete_whole delete_class
delete_target calls has_key request recording invalid_class = refuse (ascii "invalid blob class")
delete_target calls has_key request recording whole_run =
    lift (calls.find_recording recording) >>= delete_whole calls request recording
delete_target calls has_key request recording (blob_class name) =
    lift (calls.find_recording recording) >>= delete_class calls has_key request name

unfoldable pub delete_request : Calls → LocalPolicy → PendingRequest → M Work
unfolding delete_target
delete_request calls options request =
    if not options.allow_remote_delete
    then refuse (ascii "remote deletion is disabled by local policy")
    else elim (calls.payload_recording_id request.payload) [
      | none ↦ refuse (ascii "invalid recording_id")
      | some recording ↦
          delete_target calls options.class_erasure_enabled request recording
            (target_of calls (get (ascii "class") request.payload))
    ]

module _ (is_header_name : Bytes → Bool) (to_vec : Value → Bytes) (options : LocalPolicy) where
  unfoldable pub dispatch : Calls → PendingRequest → M Work
  dispatch calls request =
      let is = λ (name : Bytes). bytes_eq request.kind name in
      if is (ascii "pause")
      then set_paused true
      else if is (ascii "resume")
      then set_paused false
      else if is (ascii "apply_config")
      then apply_config is_header_name to_vec options request
      else if is (ascii "flush") || is (ascii "seal")
      then upload_request calls request
      else if is (ascii "backfill")
      then backfill_request calls request
      else if is (ascii "delete_local")
      then delete_request calls options request
      else if is (ascii "upload_sensitive")
      then refuse (ascii "sensitive evidence upload is disabled by local policy")
      else refuse (ascii "unsupported collector request type")

  -- The start of the work is an event of the log.
  unfoldable pub execute_request : Calls → PendingRequest → M Work
  execute_request calls request = call (note (executed request)) >> dispatch calls request
