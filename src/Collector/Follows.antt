-- ===== src/Collector/Follows.antt =====
-- The loop of the collector (src/control.rs) keeps the protocol of a request in flight, whatever fails and
-- wherever the process ends.
use inference_io.Prelude.{
  ◌≡◌, refl, sym, Bool, true, false, Option, none, some, List, [], ◌∷◌, ok, subst, ap,
  if◌then◌else◌,
}
use inference_io.Bytes.{Bytes, any}
use inference_io.Json.{Value}
use inference_io.Control.Config.{LocalPolicy}
use inference_io.Collector.Daemon.{
  PendingRequest, RequestOutcome, RequestOperation, InflightRequest, accepted, reported, audited,
  Daemon, invalid_request, ◌>>◌, pure, guard, call, note, persist, report,
}
use inference_io.Collector.Execute.{
  Calls, validate_pending_request, ensure_registered, check_inflight,
}
use inference_io.Collector.Delete.{execute_request}
use inference_io.Collector.Cycle.{
  is_audit_of, audit_request_outcome, open_request, with_inflight, terminate_in, with_terminal,
  conclude, decide, finish, resume_with, resume_found, serve, uploads, poll, last_heartbeat,
  resume_inflight, process_request, process_requests, cycle,
}
use inference_io.Collector.Protocol.{
  flight, opened, decided, closed, Holds, Ensures, returned, Ensures-bind, call-note, persist-Holds,
}
use inference_io.Collector.Works.{
  Stable, Stable-bind, Stable-pure, IsOpen, Ensures-map, check_inflight-Stable,
  ensure_registered-Stable,
}
use inference_io.Collector.Idle.{
  IsIdle, guard-IsIdle, then-IsIdle, uploads-IsIdle, poll-IsIdle, last_heartbeat-IsIdle,
}
use inference_io.Collector.Kinds.{execute_request-Keeps}

audit-Stable :
    (request : PendingRequest) (operation : Option RequestOperation) (outcome : RequestOutcome)
    → Stable
        (Holds (flight request operation (some outcome)))
        (audit_request_outcome request outcome)
unfolding audit_request_outcome
audit-Stable request operation outcome d h =
    elim (any (is_audit_of request outcome) d.log)
      as (λ known.
        Ensures (λ _ d'. Holds (flight request operation (some outcome)) d')
          (if known then (ok tt, d) else call (note (audited request outcome)) d)) [
            | true ↦ returned tt d h
            | false ↦
                call-note (flight request operation (some outcome)) (audited request outcome) d refl
                  (operation, refl) h
          ]

terminal_in :
    (outcome : RequestOutcome) (request : PendingRequest) (operation : Option RequestOperation)
    (d : Daemon)
    → Holds (flight request operation none) d
    → (with_terminal outcome d.state).inflight ≡ flight request operation (some outcome)
terminal_in outcome request operation d h = ap (terminate_in outcome) h.in_memory

module _ (is_header_name : Bytes → Bool) (to_vec : Value → Bytes) (options : LocalPolicy) where
  conclude-Ensures :
      (request : PendingRequest) (operation : Option RequestOperation) (outcome : RequestOutcome)
      (d : Daemon)
      → Holds (flight request operation (some outcome)) d
      → Ensures (λ _ d'. IsIdle d') (conclude is_header_name to_vec options request outcome d)
  unfolding conclude report
  conclude-Ensures request operation outcome d h =
      let Closing : Daemon → Type 0 = Holds (flight request operation (some outcome)) in
      Ensures-bind
        ((ensure_registered is_header_name to_vec options
            >> report request outcome
            >> audit_request_outcome request outcome)
          d)
        (λ _. persist (with_inflight none))
        (Stable-bind Closing
          (ensure_registered is_header_name to_vec options >> report request outcome)
          (λ _. audit_request_outcome request outcome)
          (Stable-bind Closing (ensure_registered is_header_name to_vec options)
            (λ _. report request outcome)
            (ensure_registered-Stable is_header_name to_vec options
              (flight request operation (some outcome)))
            (λ _ d' h'.
              call-note (flight request operation (some outcome)) (reported request outcome) d' refl
                (operation, refl) h'))
          (λ _. audit-Stable request operation outcome) d h)
        (λ _ d' h'.
          persist-Holds (with_inflight none) (flight request operation (some outcome)) none d' refl
            (closed request operation outcome refl refl) h')

  -- The request is in flight with the outcome of its work.
  decide-Ensures :
      (calls : Calls) (request : PendingRequest) (d : Daemon)
      → IsOpen request d
      → Ensures
          (λ work d'.
            (operation : Option RequestOperation) × Holds
              (flight request operation (some work.0))
              d')
          (decide is_header_name to_vec options calls request d)
  unfolding decide
  decide-Ensures calls request d h =
      Ensures-bind (execute_request is_header_name to_vec options calls request d) _
        (execute_request-Keeps request is_header_name to_vec options calls d h)
        (λ work d' p.
          Ensures-bind ((check_inflight request.id >> persist (with_terminal work.0)) d')
            (λ _. pure work)
            (Ensures-map ((check_inflight request.id >> persist (with_terminal work.0)) d')
              (λ _ d'' q. (p.0, q))
              (Ensures-bind (check_inflight request.id d') (λ _. persist (with_terminal work.0))
                (check_inflight-Stable request request.id p.0 none d' p.1)
                (λ _ d'' q.
                  persist-Holds (with_terminal work.0) (flight request p.0 none)
                    (flight request p.0 (some work.0)) d'' (terminal_in work.0 request p.0 d'' q)
                    (decided request p.0 work.0 refl refl) q)))
            (λ _ d'' q. returned work d'' q))

  finish-Ensures :
      (calls : Calls) (request : PendingRequest) (d : Daemon)
      → IsOpen request d
      → Ensures (λ _ d'. IsIdle d') (finish is_header_name to_vec options calls request d)
  unfolding finish
  finish-Ensures calls request d h =
      Ensures-bind (decide is_header_name to_vec options calls request d) _
        (decide-Ensures calls request d h)
        (λ work d' p.
          Ensures-bind (conclude is_header_name to_vec options request work.0 d') (λ _. pure work.1)
            (conclude-Ensures request p.0 work.0 d' p.1) (λ _ d'' q. returned work.1 d'' q))

  resume_with-Ensures :
      (calls : Calls) (inflight : InflightRequest) (d : Daemon)
      → Holds (some inflight) d
      → Ensures (λ _ d'. IsIdle d') (resume_with is_header_name to_vec options calls inflight d)
  resume_with-Ensures calls inflight d h =
      terminal_cases inflight.terminal inflight.request inflight.operation h
    where
      terminal_cases :
          (terminal : Option RequestOutcome) (request : PendingRequest)
          (operation : Option RequestOperation)
          → Holds (flight request operation terminal) d
          → Ensures
              (λ _ d'. IsIdle d')
              (resume_with is_header_name to_vec options calls
                (record { request = request; operation = operation; terminal = terminal })
                d)
      terminal_cases (some outcome) request operation h' =
          Ensures-bind (conclude is_header_name to_vec options request outcome d) (λ _. pure false)
            (conclude-Ensures request operation outcome d h') (λ _ d' q. returned false d' q)
      terminal_cases none request operation h' = finish-Ensures calls request d (operation, h')

  resume_found-Ensures :
      (calls : Calls) (found : Option InflightRequest) (d : Daemon)
      → Holds found d
      → Ensures (λ _ d'. IsIdle d') (resume_found is_header_name to_vec options calls found d)
  resume_found-Ensures calls none d h = returned false d h
  resume_found-Ensures calls (some inflight) d h = resume_with-Ensures calls inflight d h

  resume_inflight-Ensures :
      (calls : Calls) (found : Option InflightRequest) (d : Daemon)
      → Holds found d
      → Ensures (λ _ d'. IsIdle d') (resume_inflight is_header_name to_vec options calls d)
  unfolding resume_inflight
  resume_inflight-Ensures calls found d h =
      subst
        (λ inflight.
          Ensures (λ _ d'. IsIdle d') (resume_found is_header_name to_vec options calls inflight d))
        (sym h.in_memory) (resume_found-Ensures calls found d h)

  process_request-Stable :
      (calls : Calls) (request : PendingRequest)
      → Stable IsIdle (process_request is_header_name to_vec options calls request)
  unfolding process_request
  process_request-Stable calls request d h =
      Ensures-bind
        ((guard (validate_pending_request to_vec request) invalid_request
            >> call (note (accepted request))
            >> persist (with_inflight (some (open_request request))))
          d)
        (λ _. finish is_header_name to_vec options calls request)
        (Ensures-bind
          ((guard (validate_pending_request to_vec request) invalid_request
              >> call (note (accepted request)))
            d)
          (λ _. persist (with_inflight (some (open_request request))))
          (Stable-bind IsIdle (guard (validate_pending_request to_vec request) invalid_request)
            (λ _. call (note (accepted request))) (guard-IsIdle _ invalid_request)
            (λ _ d' h'. call-note none (accepted request) d' refl refl h') d h)
          (λ _ d' h'.
            persist-Holds (with_inflight (some (open_request request))) none
              (flight request none none) d' refl (opened request refl refl) h'))
        (λ _ d' h'. finish-Ensures calls request d' (none, h'))

  process_requests-Stable :
      (calls : Calls) (requests : List PendingRequest)
      → Stable IsIdle (process_requests is_header_name to_vec options calls requests)
  unfolding process_requests
  process_requests-Stable calls [] = Stable-pure IsIdle tt
  process_requests-Stable calls (request ∷ rest) =
      Stable-bind IsIdle (process_request is_header_name to_vec options calls request)
        (λ _. process_requests is_header_name to_vec options calls rest)
        (process_request-Stable calls request) (λ _. process_requests-Stable calls rest)

  serve-IsIdle :
      (calls : Calls) (polled : List PendingRequest)
      → Stable IsIdle (serve is_header_name to_vec options calls polled)
  serve-IsIdle calls polled =
      let up = uploads is_header_name to_vec options calls in
      let polls = poll is_header_name to_vec options calls polled in
      let work = process_requests is_header_name to_vec options calls polled in
      then-IsIdle (up >> polls >> work) (last_heartbeat is_header_name to_vec options calls)
        (then-IsIdle (up >> polls) work
          (then-IsIdle up polls (uploads-IsIdle is_header_name to_vec options calls)
            (poll-IsIdle is_header_name to_vec options calls polled))
          (process_requests-Stable calls polled))
        (last_heartbeat-IsIdle is_header_name to_vec options calls)

  pub cycle-Ensures :
      (calls : Calls) (polled : List PendingRequest) (found : Option InflightRequest) (d : Daemon)
      → Holds found d
      → Ensures (λ _ d'. IsIdle d') (cycle is_header_name to_vec options calls polled d)
  unfolding cycle
  cycle-Ensures calls polled found d h =
      Ensures-bind
        ((ensure_registered is_header_name to_vec options
            >> resume_inflight is_header_name to_vec options calls)
          d)
        (λ _. serve is_header_name to_vec options calls polled)
        (Ensures-bind (ensure_registered is_header_name to_vec options d)
          (λ _. resume_inflight is_header_name to_vec options calls)
          (ensure_registered-Stable is_header_name to_vec options found d h)
          (λ _ d' h'. resume_inflight-Ensures calls found d' h'))
        (λ _ d' h'. serve-IsIdle calls polled d' h')
