-- ===== src/Collector/Tests.antt =====
-- Runs of the collector of src/control.rs, and its theorems at concrete inputs.
use inference_io.Prelude.{
  ◌≡◌, ◌≢◌, refl, Bool, true, false, Option, none, some, List, [], ◌∷◌, ◌++◌, All, saturating_add,
}
use inference_io.Bytes.{Bytes, ascii}
use inference_io.Json.{Value, object, bool, null, no_fields, entry}
use inference_io.Json.{find_field}
use inference_io.Input
use inference_io.Control.Fields.{as_object}
use inference_io.Control.Config.{LocalPolicy, reject_unknown}
use inference_io.Control.Remote.{
  merge_remote_config, merge_object, merge_sections, content_section, upload_section,
  sensitive_section, retention_section, egress_section, unknown_sections,
}
use inference_io.Collector.Daemon
use inference_io.Collector.Execute
use inference_io.Collector.Work
use inference_io.Collector.Delete
use inference_io.Collector.Cycle
use inference_io.Collector.Daemon.{
  PendingRequest, RequestOutcome, RequestOperation, CollectorState, InflightRequest, Event,
  accepted, executed, reported, audited, wrote, Luck, works, fails, late, Daemon,
}
use inference_io.Collector.Execute.{Calls, done}
use inference_io.Collector.Cycle.{cycles, restarts, Round, run_collector}
use inference_io.Collector.Protocol.{flight, FollowsProtocol, on_disk}
use inference_io.Collector.Once.{
  IsFresh, Agrees, run_collector-FollowsProtocol, run_collector-Agrees,
}

-- No recording is known.
abbrev calls : Calls
calls = record {
  payload_recording_id = λ _. none;
  find_recording = λ _. some none;
  is_running = λ _. some false;
  request_flush_boundary = λ _. none;
  active_recording_id_at_boundary = λ _ _. none;
  valid_events = λ _. none;
  upload_active = λ _ _ _. none;
  upload_run = λ _. none;
  backfill_run = λ _ _ _ _. none;
  is_blob_class = λ _. false;
  erase_blob_class = λ _ _ _. none;
  remote_delete_was_started = λ _. some false;
  delete_missing_run = λ _ _. none;
  delete_uploaded_run = λ _ _. none;
  uploads_rotate = false;
  rolls_rotate = false;
  heartbeat_version = some 0;
  heartbeat_due = false;
}

abbrev local : LocalPolicy
local = record { allow_remote_delete = false; class_erasure_enabled = false; max_body_bytes = 1000 }

abbrev pause : PendingRequest
pause = record { id = 7; kind = ascii "pause"; payload = object no_fields }

abbrev paused : RequestOutcome
paused = record {
  status = ascii "done";
  reason = [];
  result = object (entry (ascii "paused") (bool true) no_fields);
}

abbrev empty_state : CollectorState
empty_state = record {
  config_version = 0;
  effective_config = null;
  rejected_config = null;
  paused = false;
  inflight = none;
}

-- The registration and the whole of the request work, but the answer to its report is lost, and then
-- the process ends.
abbrev daemon : Daemon
daemon = record {
  state = empty_state;
  disk = empty_state;
  has_session = true;
  log = [];
  luck =
      works ∷ works ∷ works ∷ works ∷ works ∷ works ∷ works ∷ works ∷ works ∷ works ∷ late ∷ fails
      ∷ works ∷ works ∷ works ∷ fails ∷ [];
  registrations = record { config_version = 1; config = object no_fields } ∷ [];
}

abbrev rounds : List Round
rounds = cycles calls (pause ∷ []) ∷ restarts ∷ cycles calls [] ∷ []

abbrev token : Bytes → Bool
token name = true

abbrev encoded : Value → Bytes
encoded _ = ascii "{}"

fresh : IsFresh daemon
fresh = record { no_events = refl; none_on_disk = refl; none_in_memory = refl }

engine : Unit {0}
unfolding run_collector Cycle.round Cycle.cycle Execute.ensure_registered Cycle.restart
    Cycle.resume_inflight Cycle.other_call Cycle.uploads Cycle.heartbeat Cycle.poll
    Cycle.last_heartbeat Cycle.process_requests Cycle.process_request
    Execute.validate_pending_request Input.validate_json_complexity
    Input.validate_json_complexity_with_limits Input.run Input.step Input.plain_byte
    Input.string_byte saturating_add Cycle.finish Cycle.decide Cycle.conclude Cycle.after_error
    Cycle.audit_request_outcome Cycle.is_audit_of Daemon.call Daemon.call_with Daemon.persist
    Daemon.report Execute.check_inflight Delete.execute_request Delete.dispatch Work.set_paused done
    merge_remote_config merge_object merge_sections content_section upload_section sensitive_section
    retention_section egress_section unknown_sections reject_unknown as_object find_field
engine = tt

-- The request on disk without and with its outcome.
abbrev undecided : Option InflightRequest
undecided = flight pause none none

abbrev with_outcome : Option InflightRequest
with_outcome = flight pause none (some paused)

-- The new process registers, and reports and audits the outcome that is on disk.
abbrev later : List Event
later = audited pause paused ∷ reported pause paused ∷ wrote with_outcome ∷ []

abbrev earlier : List Event
earlier =
    wrote with_outcome ∷ wrote undecided ∷ executed pause ∷ wrote undecided ∷ accepted pause ∷ []

run_log :
    (run_collector token encoded local rounds daemon).log ≡ later ++ reported pause paused ∷ earlier
unfolding engine
run_log = refl

open_later : All (λ event. event ≢ wrote none) later
open_later = ((λ same. cc), ((λ same. cc), ((λ same. cc), tt)))

run_collector-Agrees_example : All (Agrees pause paused) later
run_collector-Agrees_example =
    run_collector-Agrees token encoded local rounds daemon pause paused later earlier fresh run_log
      open_later

run_collector-FollowsProtocol_example :
    FollowsProtocol (run_collector token encoded local rounds daemon).log
    × (on_disk (run_collector token encoded local rounds daemon).log
        ≡ (run_collector token encoded local rounds daemon).disk.inflight)
run_collector-FollowsProtocol_example =
    run_collector-FollowsProtocol token encoded local rounds daemon fresh
