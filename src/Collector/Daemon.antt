-- ===== src/Collector/Daemon.antt =====
-- The collector daemon of src/control.rs: its state in memory and on disk, the calls that leave the
-- process, and the monad of its methods. How each call goes is an input, so a theorem about all of
-- them covers every failure: a call works, fails, or takes effect and then fails (an answer is lost, a
-- directory is not synchronised).
use inference_io.Prelude.{ℕ, Bool, true, false, Option, none, some, List, [], ◌∷◌, Result, ok, err}
use inference_io.Bytes.{Bytes}
use inference_io.Json.{Value}

pub record PendingRequest : Type 0 where
  pub id : ℕ
  pub kind : Bytes
  pub payload : Value

pub record RequestOutcome : Type 0 where
  pub status : Bytes
  pub reason : Bytes
  pub result : Value

pub record RequestOperation : Type 0 where
  pub recording_id : Bytes
  pub durable_boundary : ℕ

pub record InflightRequest : Type 0 where
  pub request : PendingRequest
  pub operation : Option RequestOperation
  pub terminal : Option RequestOutcome

pub record CollectorState : Type 0 where
  pub config_version : ℕ
  pub effective_config : Value
  pub rejected_config : Value
  pub paused : Bool
  pub inflight : Option InflightRequest

-- What leaves the process: an answer to the platform that a request was accepted, the start of its
-- work, its final answer, its record in the audit log, and a write of the state.
pub data Event : Type 0 where
  accepted : PendingRequest → Event
  executed : PendingRequest → Event
  reported : PendingRequest → RequestOutcome → Event
  audited : PendingRequest → RequestOutcome → Event
  wrote : Option InflightRequest → Event

pub data Luck : Type 0 where
  works : Luck
  fails : Luck
  late : Luck

-- The answer of the platform to a registration.
pub record Registration : Type 0 where
  pub config_version : ℕ
  pub config : Value

-- `log` has the newest event first. `luck` and `registrations` are consumed by the calls.
pub record Daemon : Type 0 where
  pub state : CollectorState
  pub disk : CollectorState
  pub has_session : Bool
  pub log : List Event
  pub luck : List Luck
  pub registrations : List Registration

pub data Failure : Type 0 where
  call_failed : Failure
  inflight_changed : Failure
  invalid_request : Failure

abbrev pub M : Type 0 → Type 0
M A = Daemon → Result Failure A × Daemon

abbrev pub continue :
    {A B : Type 0} → Result Failure A × Daemon → (A → M B) → Result Failure B × Daemon
continue (ok a, d) next = next a d
continue (err failure, d) next = (err failure, d)

infixl 5 ◌>>=◌ ◌>>◌
abbrev pub ◌>>=◌ : {A B : Type 0} → M A → (A → M B) → M B
◌>>=◌ m next d = continue (m d) next

abbrev pub ◌>>◌ : {B : Type 0} → M (Unit {0}) → M B → M B
m >> next = m >>= λ _. next

abbrev pub pure : {A : Type 0} → A → M A
pure a d = (ok a, d)

abbrev pub fail : {A : Type 0} → Failure → M A
fail failure d = (err failure, d)

abbrev pub guard : Bool → Failure → M (Unit {0})
guard true failure d = (ok tt, d)
guard false failure d = (err failure, d)

-- A result of another part, none if it failed.
abbrev pub lift : {A : Type 0} → Option A → M A
lift none d = (err call_failed, d)
lift (some a) d = (ok a, d)

abbrev pub get_state : M CollectorState
get_state d = (ok d.state, d)

-- A call with an effect on the daemon's surroundings. Without luck left it fails.
unfoldable pub call_with : List Luck → (Daemon → Daemon) → M (Unit {0})
call_with [] effect d = (err call_failed, record d { luck = [] })
call_with (works ∷ rest) effect d = (ok tt, effect (record d { luck = rest }))
call_with (fails ∷ rest) effect d = (err call_failed, record d { luck = rest })
call_with (late ∷ rest) effect d = (err call_failed, effect (record d { luck = rest }))

unfoldable pub call : (Daemon → Daemon) → M (Unit {0})
unfolding call_with
call effect d = call_with d.luck effect d

abbrev pub note : Event → Daemon → Daemon
note event d = record d { log = event ∷ d.log }

-- The write that `write_state` ends in: a rename, so the file is the old one or the new one.
abbrev pub written : Daemon → Daemon
written d = record d { disk = d.state; log = wrote d.state.inflight ∷ d.log }

-- `self.state = ..; self.persist_state()?`: the state in memory changes whether or not the write
-- works.
unfoldable pub persist : (CollectorState → CollectorState) → M (Unit {0})
unfolding call
persist change d = call written (record d { state = change d.state })

-- `self.client.report(..)` of the final answer.
unfoldable pub report : PendingRequest → RequestOutcome → M (Unit {0})
unfolding call
report request outcome = call (note (reported request outcome))
