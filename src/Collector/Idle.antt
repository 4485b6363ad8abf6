-- ===== src/Collector/Idle.antt =====
-- The parts of a cycle around its requests (src/control.rs) leave no request in flight where there was none.
use inference_io.Prelude.{
  ℕ, Bool, true, false, Option, none, some, List, ok, if◌then◌else◌, leb, ltb, length,
}
use inference_io.Bytes.{Bytes}
use inference_io.Json.{Value}
use inference_io.Control.Config.{LocalPolicy}
use inference_io.Collector.Daemon.{
  PendingRequest, CollectorState, Luck, Daemon, Failure, call_failed, M, ◌>>◌, pure, lift,
  get_state, guard, call,
}
use inference_io.Collector.Execute.{Calls, ensure_registered, invalidate_session}
use inference_io.Collector.Cycle.{
  other_call, renew_session, register_again, after_upload, uploads, heard, heartbeat, poll,
  last_heartbeat, max_requests_per_poll,
}
use inference_io.Collector.Protocol.{Holds, with_luck, returned, failed, Holds-IsBehind, call_rule}
use inference_io.Collector.Works.{
  Stable, Stable-bind, Stable-pure, Stable-if, other_fields, ensure_registered-Stable,
}

-- No request is in flight.
abbrev pub IsIdle : Daemon → Type 0
IsIdle = Holds none

pub guard-IsIdle : (test : Bool) (failure : Failure) → Stable IsIdle (guard test failure)
guard-IsIdle true failure d h = returned tt d h
guard-IsIdle false failure d h = failed failure d (Holds-IsBehind none d h)

-- Calls that keep the daemon idle.
pub then-IsIdle : (m n : M (Unit {0})) → Stable IsIdle m → Stable IsIdle n → Stable IsIdle (m >> n)
then-IsIdle m n h k = Stable-bind IsIdle m (λ _. n) h (λ _. k)

session-IsIdle : (session : Bool) → Stable IsIdle (λ d. (ok tt, record d { has_session = session }))
session-IsIdle session d h = returned tt _ (other_fields none session d.registrations d h)

lift-IsIdle : {A : Type 0} (result : Option A) → Stable IsIdle (lift result)
lift-IsIdle none d h = failed call_failed d (Holds-IsBehind none d h)
lift-IsIdle (some a) d h = returned a d h

other_call-Stable : Stable IsIdle other_call
unfolding other_call call
other_call-Stable d h =
    let kept = λ (rest : List Luck). with_luck none d h rest in
    call_rule d.luck (λ d'. d') d (λ rest. Holds-IsBehind none _ (kept rest)) kept
      (λ rest. Holds-IsBehind none _ (kept rest))

module _ (is_header_name : Bytes → Bool) (to_vec : Value → Bytes) (options : LocalPolicy) where
  register-IsIdle : Stable IsIdle (ensure_registered is_header_name to_vec options)
  register-IsIdle = ensure_registered-Stable is_header_name to_vec options none

  register_again-IsIdle : Stable IsIdle (register_again is_header_name to_vec options)
  register_again-IsIdle =
      then-IsIdle invalidate_session (ensure_registered is_header_name to_vec options)
        (session-IsIdle false) register-IsIdle

  after_upload-IsIdle :
      (rotated : Bool) → Stable IsIdle (after_upload is_header_name to_vec options rotated)
  after_upload-IsIdle rotated =
      then-IsIdle other_call
        (if rotated then register_again is_header_name to_vec options else pure tt)
        other_call-Stable
        (Stable-if IsIdle rotated _ _ register_again-IsIdle (Stable-pure IsIdle tt))

  pub uploads-IsIdle : (calls : Calls) → Stable IsIdle (uploads is_header_name to_vec options calls)
  unfolding uploads
  uploads-IsIdle calls =
      Stable-bind IsIdle get_state _ (λ d h. returned d.state d h)
        (λ s. Stable-if IsIdle s.paused _ _ (Stable-pure IsIdle tt) (
          then-IsIdle (after_upload is_header_name to_vec options calls.uploads_rotate)
            (after_upload is_header_name to_vec options calls.rolls_rotate)
            (after_upload-IsIdle calls.uploads_rotate) (after_upload-IsIdle calls.rolls_rotate)))

  heard-IsIdle :
      (version : ℕ) (s : CollectorState)
      → Stable IsIdle (heard is_header_name to_vec options version s)
  heard-IsIdle version s =
      then-IsIdle (guard (leb s.config_version version) call_failed >> renew_session)
        (if ltb s.config_version version
          then register_again is_header_name to_vec options
          else pure tt)
        (then-IsIdle (guard (leb s.config_version version) call_failed) renew_session
          (guard-IsIdle _ call_failed) (session-IsIdle true))
        (Stable-if IsIdle (ltb s.config_version version) _ _ register_again-IsIdle
          (Stable-pure IsIdle tt))

  heartbeat-IsIdle : (calls : Calls) → Stable IsIdle (heartbeat is_header_name to_vec options calls)
  unfolding heartbeat
  heartbeat-IsIdle calls = Stable-bind IsIdle other_call _ other_call-Stable (λ _.
      Stable-bind IsIdle (lift calls.heartbeat_version) _ (lift-IsIdle calls.heartbeat_version)
        (λ version.
          Stable-bind IsIdle get_state (heard is_header_name to_vec options version)
            (λ d h. returned d.state d h) (heard-IsIdle version)))

  pub poll-IsIdle :
      (calls : Calls) (polled : List PendingRequest)
      → Stable IsIdle (poll is_header_name to_vec options calls polled)
  unfolding poll
  poll-IsIdle calls polled =
      let beat = heartbeat is_header_name to_vec options calls in
      then-IsIdle (other_call >> beat >> other_call)
        (guard (leb (length polled) max_requests_per_poll) call_failed)
        (then-IsIdle (other_call >> beat) other_call
          (then-IsIdle other_call beat other_call-Stable (heartbeat-IsIdle calls))
          other_call-Stable)
        (guard-IsIdle _ call_failed)

  pub last_heartbeat-IsIdle :
      (calls : Calls) → Stable IsIdle (last_heartbeat is_header_name to_vec options calls)
  unfolding last_heartbeat
  last_heartbeat-IsIdle calls =
      Stable-if IsIdle calls.heartbeat_due _ _
        (then-IsIdle (ensure_registered is_header_name to_vec options)
          (heartbeat is_header_name to_vec options calls) register-IsIdle (heartbeat-IsIdle calls))
        (Stable-pure IsIdle tt)
