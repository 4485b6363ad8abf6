-- ===== src/Tasks/Tests.antt =====
-- Runs of the task index of src/tasks.rs, and its theorems at a concrete run.
use inference_io.Prelude.{
  ℕ, ◌+◌, ◌≡◌, refl, true, Option, none, some, List, [], ◌∷◌, arith, length, saturating_add, ok,
}
use inference_io.Bytes.{Bytes, ascii}
use inference_io.Bytes.Map.{lookup, insert, or_insert, contains_key, update}
use inference_io.Tasks.Index.{
  Event, TaskIndex, Loading, boundary, has_session, associate, load_event, load_events, load,
  task_index, matches_logical_task, agent_session, agent_task,
}
use inference_io.Tasks.Count.{events_of, load-total, load-ok}

abbrev event : Option Bytes → Option Bytes → ℕ → Event
event task_id session_id sequence = record {
  ids = record { task_id = task_id; session_id = session_id };
  sequence = sequence;
  wall_time = sequence;
}

-- Two events of one task in one session, one of the session alone, and one of the run.
abbrev events : List Event
events =
    event (some (ascii "t")) (some (ascii "s")) 1
    ∷ event (some (ascii "t")) (some (ascii "s")) 2
    ∷ event none (some (ascii "s")) 3
    ∷ event none none 4
    ∷ []

engine : Unit {0}
unfolding lookup insert or_insert contains_key update boundary has_session associate load_event
    load_events load matches_logical_task saturating_add
engine = tt

abbrev loaded : Loading
loaded = record {
  tasks =
      (
        ascii "session:s",
        record {
          boundary_kind = agent_session;
          native_id = ascii "s";
          event_count = 1;
          first_sequence = 3;
          last_sequence = 3;
          first_seen_at = 3;
          last_seen_at = 3;
          sessions = (ascii "s", tt) ∷ [];
        },
      )
      ∷ (
        ascii "task:t",
        record {
          boundary_kind = agent_task;
          native_id = ascii "t";
          event_count = 2;
          first_sequence = 1;
          last_sequence = 2;
          first_seen_at = 1;
          last_seen_at = 2;
          sessions = (ascii "s", tt) ∷ [];
        },
      )
      ∷ [];
  unassigned_events = 1;
  session_associations = 2;
}

load_run : load (ascii "run") events ≡ ok (task_index (ascii "run") loaded)
unfolding engine
load_run = refl

first_matches : matches_logical_task (event (some (ascii "t")) none 1) (ascii "task:t") ≡ true
unfolding engine
first_matches = refl

load-total_example :
    events_of (task_index (ascii "run") loaded).tasks
      + (task_index (ascii "run") loaded).unassigned_events
    ≡ length events
load-total_example =
    load-total (ascii "run") events (task_index (ascii "run") loaded) (omega arith) load_run

load-ok_example : (index : TaskIndex) × (load (ascii "run") events ≡ ok index)
load-ok_example = load-ok (ascii "run") events (omega arith)
