-- ===== src/Collector/Cycle.antt =====
-- `resume_inflight`, `process_request`, `heartbeat`, `cycle` and `run_collector` of src/control.rs. Of the
-- uploads and the retention of a cycle it is modelled that they may fail, and that an upload may rotate
-- the session.
use inference_io.Prelude.{
  ltb, true, ℕ, Bool, false, ◌&&◌, Option, none, some, List, [], ◌∷◌, length, leb, ◌==◌, Result, ok,
  err, if◌then◌else◌,
}
use inference_io.Bytes.{Bytes, bytes_eq, any}
use inference_io.Json.{Value}
use inference_io.Control.Config.{LocalPolicy}
use inference_io.Collector.Daemon.{
  PendingRequest, RequestOutcome, InflightRequest, CollectorState, Event, accepted, audited, Daemon,
  Failure, call_failed, invalid_request, M, ◌>>=◌, ◌>>◌, pure, lift, get_state, guard, call, note,
  persist, report,
}
use inference_io.Collector.Execute.{
  Calls, Work, validate_pending_request, ensure_registered, invalidate_session, check_inflight,
}
use inference_io.Collector.Delete.{execute_request}

-- Whether the audit log has the record already.
unfoldable pub is_audit_of : PendingRequest → RequestOutcome → Event → Bool
is_audit_of request outcome (audited r o) = r.id == request.id && bytes_eq o.status outcome.status
is_audit_of request outcome _ = false

unfoldable pub audit_request_outcome : PendingRequest → RequestOutcome → M (Unit {0})
unfolding is_audit_of
audit_request_outcome request outcome d =
    if any (is_audit_of request outcome) d.log
    then (ok tt, d)
    else call (note (audited request outcome)) d

abbrev pub open_request : PendingRequest → InflightRequest
open_request request = record { request = request; operation = none; terminal = none }

abbrev pub with_inflight : Option InflightRequest → CollectorState → CollectorState
with_inflight inflight s = record s { inflight = inflight }

abbrev pub terminate_in : RequestOutcome → Option InflightRequest → Option InflightRequest
terminate_in outcome none = none
terminate_in outcome (some inflight) = some (record inflight { terminal = some outcome })

-- `inflight.terminal = Some(outcome.clone())`.
abbrev pub with_terminal : RequestOutcome → CollectorState → CollectorState
with_terminal outcome s = record s { inflight = terminate_in outcome s.inflight }

abbrev pub max_requests_per_poll : ℕ
max_requests_per_poll = 50

-- A call of another part of a cycle (an upload, the retention, a heartbeat, a poll), which may fail.
unfoldable pub other_call : M (Unit {0})
unfolding call
other_call = call (λ d. d)

-- A heartbeat's answer carries a session.
abbrev pub renew_session : M (Unit {0})
renew_session d = (ok tt, record d { has_session = true })

module _ (is_header_name : Bytes → Bool) (to_vec : Value → Bytes) (options : LocalPolicy) where
  -- From the outcome in the state to the end of the request.
  unfoldable pub conclude : PendingRequest → RequestOutcome → M (Unit {0})
  conclude request outcome =
      ensure_registered is_header_name to_vec options
      >> report request outcome
      >> audit_request_outcome request outcome
      >> persist (with_inflight none)

  -- The work of the request in flight, and its outcome into the state.
  unfoldable pub decide : Calls → PendingRequest → M Work
  decide calls request = execute_request is_header_name to_vec options calls request >>= λ work.
      (check_inflight request.id >> persist (with_terminal work.0)) >> pure work

  unfoldable pub finish : Calls → PendingRequest → M Bool
  finish calls request = decide calls request >>= λ work. conclude request work.0 >> pure work.1

  abbrev pub resume_with : Calls → InflightRequest → M Bool
  resume_with calls inflight = elim inflight.terminal [
    | some outcome ↦ conclude inflight.request outcome >> pure false
    | none ↦ finish calls inflight.request
  ]

  abbrev pub resume_found : Calls → Option InflightRequest → M Bool
  resume_found calls none = pure false
  resume_found calls (some inflight) = resume_with calls inflight

  unfoldable pub resume_inflight : Calls → M Bool
  resume_inflight calls d = resume_found calls d.state.inflight d

  unfoldable pub process_request : Calls → PendingRequest → M Bool
  process_request calls request =
      guard (validate_pending_request to_vec request) invalid_request
      >> call (note (accepted request))
      >> persist (with_inflight (some (open_request request)))
      >> finish calls request

  unfoldable pub process_requests : Calls → List PendingRequest → M (Unit {0})
  process_requests calls [] = pure tt
  process_requests calls (request ∷ rest) =
      process_request calls request >>= λ deleted. process_requests calls rest

  abbrev pub register_again : M (Unit {0})
  register_again = invalidate_session >> ensure_registered is_header_name to_vec options

  abbrev pub after_upload : Bool → M (Unit {0})
  after_upload rotated = other_call >> (if rotated then register_again else pure tt)

  -- The finalized runs, then the active ones, unless uploads are paused.
  unfoldable pub uploads : Calls → M (Unit {0})
  uploads calls = get_state >>= λ s.
      if s.paused
      then pure tt
      else after_upload calls.uploads_rotate >> after_upload calls.rolls_rotate

  abbrev pub heard : ℕ → CollectorState → M (Unit {0})
  heard version s =
      guard (leb s.config_version version) call_failed
      >> renew_session
      >> (if ltb s.config_version version then register_again else pure tt)

  unfoldable pub heartbeat : Calls → M (Unit {0})
  heartbeat calls =
      other_call >> (lift calls.heartbeat_version >>= λ version. get_state >>= heard version)

  -- The retention and the heartbeat, then the requests that the platform has.
  unfoldable pub poll : Calls → List PendingRequest → M (Unit {0})
  poll calls polled =
      other_call
      >> heartbeat calls
      >> other_call
      >> guard (leb (length polled) max_requests_per_poll) call_failed

  unfoldable pub last_heartbeat : Calls → M (Unit {0})
  last_heartbeat calls =
      if calls.heartbeat_due
      then ensure_registered is_header_name to_vec options >> heartbeat calls
      else pure tt

  abbrev pub serve : Calls → List PendingRequest → M (Unit {0})
  serve calls polled =
      uploads calls >> poll calls polled >> process_requests calls polled >> last_heartbeat calls

  unfoldable pub cycle : Calls → List PendingRequest → M (Unit {0})
  cycle calls polled =
      ensure_registered is_header_name to_vec options >> resume_inflight calls >>= λ deleted.
      serve calls polled

-- A new process reads the state from the disk; that `open` writes it back as it is changes nothing.
unfoldable pub restart : Daemon → Daemon
restart d = record d { state = d.disk; has_session = false }

abbrev pub go_on : Result Failure (Unit {0}) × Daemon → Daemon
go_on (ok _, d) = record d { has_session = false }
go_on (err _, d) = restart d

-- `daemon.persist_state()?` where a cycle failed: if this fails too, the process ends.
unfoldable pub after_error : Daemon → Daemon
unfolding restart
after_error d = go_on (persist (λ s. s) d)

abbrev pub settle : Result Failure (Unit {0}) × Daemon → Daemon
settle (ok _, d) = d
settle (err _, d) = after_error d

-- One round of the loop of `run_collector`, or a new process.
pub data Round : Type 0 where
  cycles : Calls → List PendingRequest → Round
  restarts : Round

module _ (is_header_name : Bytes → Bool) (to_vec : Value → Bytes) (options : LocalPolicy) where
  unfoldable pub round : Round → Daemon → Daemon
  round restarts d = restart d
  round (cycles calls polled) d = settle (cycle is_header_name to_vec options calls polled d)

  unfoldable pub run_collector : List Round → Daemon → Daemon
  run_collector [] d = d
  run_collector (first ∷ rest) d = run_collector rest (round first d)
