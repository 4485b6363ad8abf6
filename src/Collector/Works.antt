-- ===== src/Collector/Works.antt =====
-- The work of a request keeps the protocol: `execute_request` of src/control.rs on a request that is in
-- flight without an outcome.
use inference_io.Prelude.{
  ℕ, ◌≡◌, refl, sym, ◌∙◌, Bool, true, false, not, Option, none, some, List, [], ◌∷◌, Result, ok,
  err, subst, ap, inl, inr, if◌then◌else◌, Result-cases, Bool-cases, ltb, ◌==◌,
}
use inference_io.Bytes.{Bytes, bytes_eq}
use inference_io.Json.{Value}
use inference_io.Control.Config.{LocalPolicy}
use inference_io.Control.Remote.{merge_remote_config}
use inference_io.Collector.Daemon.{
  PendingRequest, RequestOutcome, RequestOperation, InflightRequest, CollectorState, Registration,
  Daemon, Failure, call_failed, inflight_changed, M, continue, ◌>>=◌, pure, fail, guard, lift,
  get_state, persist,
}
use inference_io.Collector.Execute.{
  Calls, register_with, ensure_registered, register_unless, invalidate_session, request_operation,
  operation_of, check_inflight, check_id, fix_boundary, prepare_with, with_operation,
  prepare_active_request_operation, with_operation_in,
}
use inference_io.Collector.Protocol.{
  flight, same, prepared, Holds, IsBehind, Ensures, returned, failed, Ensures-bind, Holds-IsBehind,
  persist-Holds,
}

-- A method keeps a property of the daemon, unless it fails and leaves one that is behind.
abbrev pub Stable : {A : Type 0} → (Daemon → Type 0) → M A → Type 0
Stable P m = (d : Daemon) → P d → Ensures (λ _ d'. P d') (m d)

pub Stable-bind :
    {A B : Type 0} (P : Daemon → Type 0) (m : M A) (next : A → M B)
    → Stable P m
    → ((a : A) → Stable P (next a))
    → Stable P (m >>= next)
Stable-bind P m next h k d p = Ensures-bind (m d) next (h d p) (λ a d' p'. k a d' p')

pub Stable-pure : {A : Type 0} (P : Daemon → Type 0) (a : A) → Stable P (pure a)
Stable-pure P a d p = returned a d p

pub Stable-if :
    {A : Type 0} (P : Daemon → Type 0) (test : Bool) (m n : M A)
    → Stable P m
    → Stable P n
    → Stable P (if test then m else n)
Stable-if P true m n h k = h
Stable-if P false m n h k = k

-- The request is in flight, and has no outcome.
abbrev pub IsOpen : PendingRequest → Daemon → Type 0
IsOpen request d = (operation : Option RequestOperation) × Holds (flight request operation none) d

pub IsOpen-IsBehind : (request : PendingRequest) (d : Daemon) → IsOpen request d → IsBehind d
IsOpen-IsBehind request d (operation, h) = Holds-IsBehind (flight request operation none) d h

pub Ensures-map :
    {A : Type 0} {Post Weaker : A → Daemon → Type 0} (result : Result Failure A × Daemon)
    → ((a : A) (d : Daemon) → Post a d → Weaker a d)
    → Ensures Post result
    → Ensures Weaker result
Ensures-map (ok a, d) weaken (returned _ _ h) = returned a d (weaken a d h)
Ensures-map (err failure, d) weaken (failed _ _ h) = failed failure d h

-- What holds for every request that may be held, holds for an open one.
pub Stable-IsOpen :
    {A : Type 0} (request : PendingRequest) (m : M A)
    → ((operation : Option RequestOperation) → Stable (Holds (flight request operation none)) m)
    → Stable (IsOpen request) m
Stable-IsOpen request m h d (operation, p) =
    Ensures-map (m d) (λ a d' p'. (operation, p')) (h operation d p)

-- A change of fields that the log does not tell.
pub other_fields :
    (request : Option InflightRequest) (session : Bool) (rest : List Registration) (d : Daemon)
    → Holds request d
    → Holds request (record d { has_session = session; registrations = rest })
other_fields request session rest d h = record {
  traced = record { follows = h.traced.follows; tells = h.traced.tells };
  in_memory = h.in_memory;
  stored = h.stored;
}

module _ (is_header_name : Bytes → Bool) (to_vec : Value → Bytes) (options : LocalPolicy) where
  register_with-Stable :
      (request : Option InflightRequest) (answers : List Registration)
      → Stable (Holds request) (register_with is_header_name to_vec options answers)
  register_with-Stable request [] d h = failed call_failed d (Holds-IsBehind request d h)
  register_with-Stable request (answer ∷ rest) d h =
      let used =
        failed call_failed (record d { registrations = rest })
          (Holds-IsBehind request _ (other_fields request d.has_session rest d h)) in
      elim (Bool-cases (ltb answer.config_version d.state.config_version)) [
        | inl older ↦ rw older used
        | inr newer ↦
            elim (Result-cases (merge_remote_config is_header_name to_vec answer.config options)) [
              | inr (error, refused) ↦ rw (newer, refused) used
              | inl (merge, merged) ↦
                  rw (newer, merged)
                    (persist-Holds _ request request
                      (record d { registrations = rest; has_session = true }) h.in_memory
                      (same refl) (other_fields request true rest d h))
            ]
      ]

  pub ensure_registered-Stable :
      (request : Option InflightRequest)
      → Stable (Holds request) (ensure_registered is_header_name to_vec options)
  unfolding ensure_registered
  ensure_registered-Stable request d h =
      elim d.has_session
        as (λ valid.
          Ensures (λ _ d'. Holds request d')
            (register_unless is_header_name to_vec options valid d)) [
              | true ↦ returned tt d h
              | false ↦ register_with-Stable request d.registrations d h
            ]

module _ (request : PendingRequest) where
  abbrev pub Open : Daemon → Type 0
  Open = IsOpen request

  pub lift-Stable : {A : Type 0} (result : Option A) → Stable Open (lift result)
  lift-Stable none d p = failed call_failed d (IsOpen-IsBehind request d p)
  lift-Stable (some a) d p = returned a d p

  guard-Stable : (test : Bool) (failure : Failure) → Stable Open (guard test failure)
  guard-Stable true failure d p = returned tt d p
  guard-Stable false failure d p = failed failure d (IsOpen-IsBehind request d p)

  pub invalidate_session-Stable : Stable Open invalidate_session
  invalidate_session-Stable d (operation, h) =
      returned tt _ (operation, other_fields _ false d.registrations d h)

  pub get_state-Stable : Stable Open get_state
  get_state-Stable d p = returned d.state d p

  fail-Stable :
      {A : Type 0} (P : Daemon → Type 0) (failure : Failure)
      → ((d : Daemon) → P d → IsBehind d)
      → Stable P (fail {A = A} failure)
  fail-Stable P failure behind d p = failed failure d (behind d p)

  -- What is read of the request in flight.
  operation_of-Ensures :
      (id : ℕ) (operation : Option RequestOperation)
      → (d : Daemon) → Holds (flight request operation none) d
      → Ensures
          (λ known d'. Holds (flight request known none) d')
          (operation_of id (flight request operation none) d)
  operation_of-Ensures id operation d h = elim (Bool-cases (request.id == id)) [
    | inl own ↦ rw own (returned operation d h)
    | inr other ↦ rw other (failed inflight_changed d (Holds-IsBehind _ d h))
  ]

  request_operation-Ensures :
      (id : ℕ) (d : Daemon)
      → Open d
      → Ensures (λ known d'. Holds (flight request known none) d') (request_operation id d)
  unfolding request_operation
  request_operation-Ensures id d (operation, h) =
      subst
        (λ inflight.
          Ensures (λ known d'. Holds (flight request known none) d') (operation_of id inflight d))
        (sym h.in_memory) (operation_of-Ensures id operation d h)

  pub request_operation-Stable : (id : ℕ) → Stable Open (request_operation id)
  request_operation-Stable id d p =
      Ensures-map (request_operation id d) (λ known d' h. (known, h))
        (request_operation-Ensures id d p)

  pub check_inflight-Stable :
      (id : ℕ) (operation : Option RequestOperation) (terminal : Option RequestOutcome)
      → Stable (Holds (flight request operation terminal)) (check_inflight id)
  unfolding check_inflight
  check_inflight-Stable id operation terminal d h =
      subst
        (λ inflight.
          Ensures (λ _ d'. Holds (flight request operation terminal) d') (check_id id inflight d))
        (sym h.in_memory)
        (Stable-if (Holds (flight request operation terminal)) (request.id == id) (pure tt)
          (fail inflight_changed) (Stable-pure _ tt)
          (fail-Stable _ inflight_changed (Holds-IsBehind _)) d h)

  -- A write of fields other than the request.
  pub persist-Stable :
      (change : CollectorState → CollectorState)
      → ((s : CollectorState) → (change s).inflight ≡ s.inflight)
      → Stable Open (persist change)
  persist-Stable change keeps d (operation, h) =
      Ensures-map (persist change d) (λ a d' p'. (operation, p'))
        (persist-Holds change _ _ d (keeps d.state ∙ h.in_memory) (same refl) h)

  -- The boundary may be fixed where none is known.
  fix_boundary-Ensures :
      (recording_id : Bytes) (boundary : ℕ) (active : Bytes) (d : Daemon)
      → Holds (flight request none none) d
      → Ensures (λ _ d'. Open d') (fix_boundary request recording_id boundary active d)
  fix_boundary-Ensures recording_id boundary active d h =
      let operation : RequestOperation = record {
        recording_id = recording_id;
        durable_boundary = boundary;
      } in
      elim (Bool-cases (not (bytes_eq active recording_id))) [
        | inl other ↦ rw other (returned none d (none, h))
        | inr own ↦ rw own (
            Ensures-bind
              (continue (check_inflight request.id d) (λ _. persist (with_operation operation)))
              (λ _. pure (some operation))
              (Ensures-bind (check_inflight request.id d) (λ _. persist (with_operation operation))
                (check_inflight-Stable request.id none none d h)
                (λ _ d' h'.
                  persist-Holds (with_operation operation) _ (flight request (some operation) none)
                    d' (ap (λ inflight. (with_operation_in operation inflight)) h'.in_memory)
                    (prepared request operation refl refl) h'))
              (λ _ d' h'. returned (some operation) d' (some operation, h')))
      ]

  prepare_with-Ensures :
      (calls : Calls) (run : ℕ) (recording_id : Bytes) (known : Option RequestOperation)
      (d : Daemon)
      → Holds (flight request known none) d
      → Ensures (λ _ d'. Open d') (prepare_with calls request run recording_id known d)
  prepare_with-Ensures calls run recording_id (some operation) d h =
      Stable-bind Open (guard (bytes_eq operation.recording_id recording_id) inflight_changed)
        (λ _. pure (some operation)) (guard-Stable _ _) (λ _. Stable-pure Open (some operation)) d
        (some operation, h)
  prepare_with-Ensures calls run recording_id none d h =
      let Free : Daemon → Type 0 = Holds (flight request none none) in
      elim (calls.request_flush_boundary run)
        as (λ boundary.
          Ensures (λ _ d'. Open d')
            (((lift boundary >>= λ b.
                lift (calls.active_recording_id_at_boundary run b)
                >>= fix_boundary request recording_id b))
              d)) [
                | none ↦ failed call_failed d (Holds-IsBehind _ d h)
                | some b ↦
                    elim (calls.active_recording_id_at_boundary run b)
                      as (λ active.
                        Ensures (λ _ d'. Open d')
                          ((lift active >>= fix_boundary request recording_id b) d)) [
                            | none ↦ failed call_failed d (Holds-IsBehind _ d h)
                            | some active ↦ fix_boundary-Ensures recording_id b active d h
                          ]
              ]

  pub prepare-Stable :
      (calls : Calls) (run : ℕ) (recording_id : Bytes)
      → Stable Open (prepare_active_request_operation calls request run recording_id)
  unfolding prepare_active_request_operation
  prepare-Stable calls run recording_id d p =
      Ensures-bind (request_operation request.id d) (prepare_with calls request run recording_id)
        (request_operation-Ensures request.id d p) (prepare_with-Ensures calls run recording_id)
