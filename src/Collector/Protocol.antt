-- ===== src/Collector/Protocol.antt =====
-- The protocol of a request in flight (src/control.rs), said on the log of what left the process alone:
-- which event may follow which. The state of the protocol is the request on disk.
use inference_io.Prelude.{
  ◌≡◌, refl, sym, ◌∙◌, Option, none, some, List, [], ◌∷◌, Result, ok, err, subst, ap,
}
use inference_io.Collector.Daemon.{
  PendingRequest, RequestOutcome, RequestOperation, InflightRequest, CollectorState, Event,
  accepted, executed, reported, audited, wrote, Luck, works, fails, late, Daemon, Failure,
  call_failed, M, continue, call, call_with, note, written, persist,
}

-- A request in flight: what was asked, and what was found out so far.
abbrev pub flight :
    PendingRequest → Option RequestOperation → Option RequestOutcome → Option InflightRequest
flight request operation terminal =
    some (record { request = request; operation = operation; terminal = terminal })

-- The writes that the protocol allows: a request is opened, its upload boundary is fixed once, its
-- outcome is fixed once, and with its outcome it is closed. A write may also leave it as it is.
pub data Advances (before after : Option InflightRequest) : Type 0 where
  same : before ≡ after → Advances before after
  opened :
      (request : PendingRequest)
      → before ≡ none
      → after ≡ flight request none none
      → Advances before after
  prepared :
      (request : PendingRequest) (operation : RequestOperation)
      → before ≡ flight request none none
      → after ≡ flight request (some operation) none
      → Advances before after
  decided :
      (request : PendingRequest) (operation : Option RequestOperation) (outcome : RequestOutcome)
      → before ≡ flight request operation none
      → after ≡ flight request operation (some outcome)
      → Advances before after
  closed :
      (request : PendingRequest) (operation : Option RequestOperation) (outcome : RequestOutcome)
      → before ≡ flight request operation (some outcome)
      → after ≡ none
      → Advances before after

-- What may leave the process while this is on disk: work starts only on a request in flight without an
-- outcome, and an outcome is reported or audited only if it is the one on disk.
abbrev pub Allowed : Option InflightRequest → Event → Type 0
Allowed disk (accepted request) = disk ≡ none
Allowed disk (executed request) =
    (operation : Option RequestOperation) × (disk ≡ flight request operation none)
Allowed disk (reported request outcome) =
    (operation : Option RequestOperation) × (disk ≡ flight request operation (some outcome))
Allowed disk (audited request outcome) =
    (operation : Option RequestOperation) × (disk ≡ flight request operation (some outcome))
Allowed disk (wrote after) = Advances disk after

-- The request on disk after an event.
abbrev pub after_event : Option InflightRequest → Event → Option InflightRequest
after_event disk (wrote after) = after
after_event disk _ = disk

abbrev pub on_disk : List Event → Option InflightRequest
on_disk [] = none
on_disk (last ∷ earlier) = after_event (on_disk earlier) last

-- Every event was allowed when it happened.
abbrev pub FollowsProtocol : List Event → Type 0
FollowsProtocol [] = Unit
FollowsProtocol (last ∷ earlier) = Allowed (on_disk earlier) last × FollowsProtocol earlier

-- The log is right, and it tells what is on disk.
pub record IsTraced (d : Daemon) : Type 0 where
  pub follows : FollowsProtocol d.log
  pub tells : on_disk d.log ≡ d.disk.inflight

-- Between two calls: memory and disk hold this request.
pub record Holds (request : Option InflightRequest) (d : Daemon) : Type 0 where
  pub traced : IsTraced d
  pub in_memory : d.state.inflight ≡ request
  pub stored : d.disk.inflight ≡ request

-- After a failure: memory is at most one allowed write ahead of the disk.
pub record IsBehind (d : Daemon) : Type 0 where
  pub traced : IsTraced d
  pub next : Advances d.disk.inflight d.state.inflight

-- What a method leaves: a daemon as its postcondition says, or one that is behind.
pub data Ensures {A : Type 0} (Post : A → Daemon → Type 0)
    : Result Failure A × Daemon → Type 0 where
  returned : (a : A) (d : Daemon) → Post a d → Ensures Post (ok a, d)
  failed : (failure : Failure) (d : Daemon) → IsBehind d → Ensures Post (err failure, d)

pub Ensures-bind :
    {A B : Type 0} {Mid : A → Daemon → Type 0} {Post : B → Daemon → Type 0}
    (result : Result Failure A × Daemon) (next : A → M B)
    → Ensures Mid result
    → ((a : A) (d : Daemon) → Mid a d → Ensures Post (next a d))
    → Ensures Post (continue result next)
Ensures-bind (ok a, d) next (returned _ _ h) k = k a d h
Ensures-bind (err failure, d) next (failed _ _ h) k = failed failure d h

pub Holds-IsBehind : (request : Option InflightRequest) (d : Daemon) → Holds request d → IsBehind d
Holds-IsBehind request d h = record { traced = h.traced; next = same (h.stored ∙ sym h.in_memory) }

pub call_rule :
    (luck : List Luck) (effect : Daemon → Daemon) {Post : Unit {0} → Daemon → Type 0} (d : Daemon)
    → ((rest : List Luck) → IsBehind (record d { luck = rest }))
    → ((rest : List Luck) → Post tt (effect (record d { luck = rest })))
    → ((rest : List Luck) → IsBehind (effect (record d { luck = rest })))
    → Ensures Post (call_with luck effect d)
unfolding call_with
call_rule [] effect d before after behind = failed call_failed _ (before [])
call_rule (works ∷ rest) effect d before after behind = returned tt _ (after rest)
call_rule (fails ∷ rest) effect d before after behind = failed call_failed _ (before rest)
call_rule (late ∷ rest) effect d before after behind = failed call_failed _ (behind rest)

pub with_luck :
    (request : Option InflightRequest) (d : Daemon)
    → Holds request d
    → (rest : List Luck) → Holds request (record d { luck = rest })
with_luck request d h rest = record {
  traced = record { follows = h.traced.follows; tells = h.traced.tells };
  in_memory = h.in_memory;
  stored = h.stored;
}

noted :
    (request : Option InflightRequest) (event : Event) (d : Daemon)
    → after_event request event ≡ request
    → Allowed request event
    → Holds request d
    → Holds request (note event d)
noted request event d keeps allowed h =
    let is_held : request ≡ on_disk d.log = sym h.stored ∙ sym h.traced.tells in
    record {
      traced = record {
        follows = (subst (λ r. Allowed r event) is_held allowed, h.traced.follows);
        tells = ap (λ r. after_event r event) (sym is_held) ∙ (keeps ∙ sym h.stored);
      };
      in_memory = h.in_memory;
      stored = h.stored;
    }

-- A call whose event is allowed keeps what is held.
pub call-note :
    (request : Option InflightRequest) (event : Event) (d : Daemon)
    → after_event request event ≡ request
    → Allowed request event
    → Holds request d
    → Ensures (λ _ d'. Holds request d') (call (note event) d)
unfolding call
call-note request event d keeps allowed h =
    let after = λ (rest : List Luck).
      noted request event (record d { luck = rest }) keeps allowed (with_luck request d h rest) in
    call_rule d.luck (note event) d (λ rest. Holds-IsBehind request _ (with_luck request d h rest))
      after (λ rest. Holds-IsBehind request _ (after rest))

written_holds :
    (change : CollectorState → CollectorState) (after : Option InflightRequest) (d : Daemon)
    (rest : List Luck)
    → (change d.state).inflight ≡ after
    → Advances d.disk.inflight (change d.state).inflight
    → IsTraced d
    → Holds after (written (record d { state = change d.state; luck = rest }))
written_holds change after d rest changed allowed t = record {
  traced = record {
    follows = (subst (λ r. Advances r (change d.state).inflight) (sym t.tells) allowed, t.follows);
    tells = refl;
  };
  in_memory = changed;
  stored = changed;
}

-- A write that the protocol allows.
pub persist-Holds :
    (change : CollectorState → CollectorState) (before after : Option InflightRequest) (d : Daemon)
    → (change d.state).inflight ≡ after
    → Advances before after
    → Holds before d
    → Ensures (λ _ d'. Holds after d') (persist change d)
unfolding persist call
persist-Holds change before after d changed advances h =
    let allowed : Advances d.disk.inflight (change d.state).inflight =
      subst (λ r. Advances r (change d.state).inflight) (sym h.stored)
        (subst (λ r. Advances before r) (sym changed) advances) in
    let wrote_it =
      λ (rest : List Luck). written_holds change after d rest changed allowed h.traced in
    call_rule d.luck written (record d { state = change d.state })
      (λ rest. record {
        traced = record { follows = h.traced.follows; tells = h.traced.tells };
        next = allowed;
      })
      wrote_it (λ rest. Holds-IsBehind after _ (wrote_it rest))

-- A write of the state as it is catches up with what is behind.
pub persist-IsBehind :
    (d : Daemon) → IsBehind d → Ensures (λ _ d'. Holds d'.disk.inflight d') (persist (λ s. s) d)
unfolding persist call
persist-IsBehind d h =
    let wrote_it =
      λ (rest : List Luck). written_holds (λ s. s) d.state.inflight d rest refl h.next h.traced in
    call_rule d.luck written (record d { state = d.state })
      (λ rest. record {
        traced = record { follows = h.traced.follows; tells = h.traced.tells };
        next = h.next;
      })
      wrote_it (λ rest. Holds-IsBehind d.state.inflight _ (wrote_it rest))
