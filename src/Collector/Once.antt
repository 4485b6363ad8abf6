-- ===== src/Collector/Once.antt =====
-- What the platform and the audit log see of the collector of src/control.rs, over any number of cycles,
-- failures and restarts.
use inference_io.Prelude.{
  ◌≡◌, ◌≢◌, refl, sym, ◌∙◌, Bool, Option, none, some, List, [], ◌∷◌, ◌++◌, Result, ok, err, subst,
  ap, All, arith,
}
use inference_io.Bytes.{Bytes}
use inference_io.Json.{Value}
use inference_io.Control.Config.{LocalPolicy}
use inference_io.Collector.Daemon.{
  PendingRequest, RequestOutcome, RequestOperation, InflightRequest, Event, accepted, executed,
  reported, audited, wrote, Daemon, Failure, persist,
}
use inference_io.Collector.Cycle.{
  cycle, restart, after_error, go_on, settle, Round, cycles, restarts, round, run_collector,
}
use inference_io.Collector.Protocol.{
  flight, Advances, same, opened, prepared, decided, closed, Allowed, after_event, on_disk,
  FollowsProtocol, IsTraced, Holds, IsBehind, Ensures, returned, failed, persist-IsBehind,
}
use inference_io.Collector.Follows.{cycle-Ensures}

-- Between two rounds: the log is right, and memory holds the request that is on disk.
abbrev IsSettled : Daemon → Type 0
IsSettled d = Holds d.disk.inflight d

restart-IsSettled : (d : Daemon) → IsTraced d → IsSettled (restart d)
unfolding restart
restart-IsSettled d t = record {
  traced = record { follows = t.follows; tells = t.tells };
  in_memory = refl;
  stored = refl;
}

go_on-IsSettled :
    (result : Result Failure (Unit {0}) × Daemon)
    → Ensures (λ _ d'. IsSettled d') result
    → IsSettled (go_on result)
go_on-IsSettled (ok _, d) (returned _ _ h) = record {
  traced = record { follows = h.traced.follows; tells = h.traced.tells };
  in_memory = h.in_memory;
  stored = refl;
}
go_on-IsSettled (err failure, d) (failed _ _ behind) = restart-IsSettled d behind.traced

-- The write after an error: it works, or the process ends and reads what is on disk.
after_error-IsSettled : (d : Daemon) → IsBehind d → IsSettled (after_error d)
unfolding after_error
after_error-IsSettled d behind = go_on-IsSettled (persist (λ s. s) d) (persist-IsBehind d behind)

settle-IsSettled :
    (result : Result Failure (Unit {0}) × Daemon)
    → Ensures (λ _ d'. Holds none d') result
    → IsSettled (settle result)
settle-IsSettled (ok _, d) (returned _ _ h) = record {
  traced = h.traced;
  in_memory = h.in_memory ∙ sym h.stored;
  stored = refl;
}
settle-IsSettled (err failure, d) (failed _ _ behind) = after_error-IsSettled d behind

module _ (is_header_name : Bytes → Bool) (to_vec : Value → Bytes) (options : LocalPolicy) where
  round-IsSettled :
      (r : Round) (d : Daemon) → IsSettled d → IsSettled (round is_header_name to_vec options r d)
  unfolding round
  round-IsSettled restarts d h = restart-IsSettled d h.traced
  round-IsSettled (cycles calls polled) d h =
      settle-IsSettled (cycle is_header_name to_vec options calls polled d)
        (cycle-Ensures is_header_name to_vec options calls polled d.disk.inflight d h)

  rounds-IsSettled :
      (rounds : List Round) (d : Daemon)
      → IsSettled d
      → IsSettled (run_collector is_header_name to_vec options rounds d)
  unfolding run_collector
  rounds-IsSettled [] d h = h
  rounds-IsSettled (first ∷ rest) d h =
      rounds-IsSettled rest (round is_header_name to_vec options first d)
        (round-IsSettled first d h)

-- A daemon that has just started on an empty state.
pub record IsFresh (d : Daemon) : Type 0 where
  pub no_events : d.log ≡ []
  pub none_on_disk : d.disk.inflight ≡ none
  pub none_in_memory : d.state.inflight ≡ none

-- The collector implements the protocol of a request in flight: from a fresh daemon, through any rounds
-- (cycles in which any call may fail, also after it took effect, and restarts of the process), every
-- event was one that the protocol allows after those before it, and the request that the log tells is the
-- one on disk.
pub run_collector-FollowsProtocol :
    (is_header_name : Bytes → Bool) (to_vec : Value → Bytes) (options : LocalPolicy)
    (rounds : List Round) (d : Daemon)
    → IsFresh d
    → FollowsProtocol (run_collector is_header_name to_vec options rounds d).log
      × (on_disk (run_collector is_header_name to_vec options rounds d).log
          ≡ (run_collector is_header_name to_vec options rounds d).disk.inflight)
run_collector-FollowsProtocol is_header_name to_vec options rounds d fresh =
    let start : IsSettled d = record {
      traced = record {
        follows = subst FollowsProtocol (sym fresh.no_events) tt;
        tells =
            subst (λ log. on_disk log ≡ d.disk.inflight) (sym fresh.no_events)
              (sym fresh.none_on_disk);
      };
      in_memory = fresh.none_in_memory ∙ sym fresh.none_on_disk;
      stored = refl;
    } in
    let settled = rounds-IsSettled is_header_name to_vec options rounds d start in
    (settled.traced.follows, settled.traced.tells)

-- What may happen after the final answer of a request, until it is closed.
abbrev pub Agrees : PendingRequest → RequestOutcome → Event → Type 0
Agrees request outcome (accepted r) = ⊥
Agrees request outcome (executed r) = ⊥
Agrees request outcome (reported r o) = (r ≡ request) × (o ≡ outcome)
Agrees request outcome (audited r o) = (r ≡ request) × (o ≡ outcome)
Agrees request outcome (wrote after) =
    (operation : Option RequestOperation) × (after ≡ flight request operation (some outcome))

-- An outcome on disk stays until the request is closed.
closing :
    (request : PendingRequest) (operation : Option RequestOperation) (outcome : RequestOutcome)
    (before after : Option InflightRequest)
    → before ≡ flight request operation (some outcome)
    → Advances before after
    → after ≢ none
    → (o : Option RequestOperation) × (after ≡ flight request o (some outcome))
closing request operation outcome before after now (same e) open_still = (operation, sym e ∙ now)
closing request operation outcome before after now (opened r b a) open_still =
    absurd (ground (arith, now, b))
closing request operation outcome before after now (prepared r o b a) open_still =
    absurd (ground (arith, now, b))
closing request operation outcome before after now (decided r o t b a) open_still =
    absurd (ground (arith, now, b))
closing request operation outcome before after now (closed r o t b a) open_still =
    absurd (open_still a)

-- What a single event may be while the outcome is on disk.
agrees :
    (request : PendingRequest) (operation : Option RequestOperation) (outcome : RequestOutcome)
    (disk : Option InflightRequest) (event : Event)
    → disk ≡ flight request operation (some outcome)
    → Allowed disk event
    → event ≢ wrote none
    → Agrees request outcome event
      × ((o : Option RequestOperation) × (after_event disk event ≡ flight request o (some outcome)))
agrees request operation outcome disk (accepted r) now allowed still =
    absurd (ground (arith, now, allowed))
agrees request operation outcome disk (executed r) now (o, allowed) still =
    absurd (ground (arith, now, allowed))
agrees request operation outcome disk (reported r t) now (o, allowed) still =
    ((ground (arith, now, allowed), ground (arith, now, allowed)), (operation, now))
agrees request operation outcome disk (audited r t) now (o, allowed) still =
    ((ground (arith, now, allowed), ground (arith, now, allowed)), (operation, now))
agrees request operation outcome disk (wrote after) now allowed still =
    let kept = closing request operation outcome disk after now allowed (λ e. still (ap wrote e)) in
    (kept, kept)

answered :
    (request : PendingRequest) (outcome : RequestOutcome) (later earlier : List Event)
    → FollowsProtocol (later ++ reported request outcome ∷ earlier)
    → All (λ event. event ≢ wrote none) later
    → All (Agrees request outcome) later
      × ((o : Option RequestOperation) × (on_disk (later ++ reported request outcome ∷ earlier)
            ≡ flight request o (some outcome)))
answered request outcome [] earlier (allowed, follows) still = (tt, allowed)
answered request outcome (event ∷ rest) earlier (allowed, follows) (open_still, still) =
    let (before, (operation, now)) = answered request outcome rest earlier follows still in
    let (here, then_disk) = agrees request operation outcome _ event now allowed open_still in
    ((here, before), then_disk)

-- A final answer is final: in what a fresh collector does over any rounds, after a request's outcome was
-- reported and until the request is closed on disk, its work is not started again, no other request
-- is accepted or started, and every further report, audit record or write carries the same request with
-- the same outcome.
pub run_collector-Agrees :
    (is_header_name : Bytes → Bool) (to_vec : Value → Bytes) (options : LocalPolicy)
    (rounds : List Round) (d : Daemon) (request : PendingRequest) (outcome : RequestOutcome)
    (later earlier : List Event)
    → IsFresh d
    → (run_collector is_header_name to_vec options rounds d).log
      ≡ later ++ reported request outcome ∷ earlier
    → All (λ event. event ≢ wrote none) later
    → All (Agrees request outcome) later
run_collector-Agrees is_header_name to_vec options rounds d request outcome later earlier fresh
      is_log still =
    let follows =
      subst FollowsProtocol is_log
        (run_collector-FollowsProtocol is_header_name to_vec options rounds d fresh).0 in
    (answered request outcome later earlier follows still).0
