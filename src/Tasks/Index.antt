-- ===== src/Tasks/Index.antt =====
-- `logical_task_id` and `load_with_key` of src/tasks.rs.
use inference_io.Prelude.{
  ℕ, Bool, false, ◌&&◌, not, List, [], ◌∷◌, ◌++◌, Option, none, some, ◌==◌, if◌then◌else◌, length,
  saturating_add, Result, err, ok, ◌>>=◌, map,
}
use inference_io.Bytes.{Bytes, ascii, bytes_eq}
use inference_io.Bytes.Map.{Map, contains_key, insert, lookup, or_insert, update}

abbrev pub max_logical_tasks : ℕ
max_logical_tasks = 100_000

abbrev pub max_task_session_associations : ℕ
max_task_session_associations = 100_000

pub data TaskBoundaryKind : Type 0 where
  agent_task : TaskBoundaryKind
  agent_session : TaskBoundaryKind

-- `EventIds`, the two fields that the split reads.
pub record EventIds : Type 0 where
  pub task_id : Option Bytes
  pub session_id : Option Bytes

pub record Event : Type 0 where
  pub ids : EventIds
  pub sequence : ℕ
  pub wall_time : ℕ

-- Task identifiers before session identifiers.
unfoldable pub boundary : Option Bytes → Option Bytes → Option (Bytes × TaskBoundaryKind × Bytes)
boundary (some id) session_id = some (ascii "task:" ++ id, agent_task, id)
boundary none (some id) = some (ascii "session:" ++ id, agent_session, id)
boundary none none = none

abbrev pub logical_task_id : EventIds → Option Bytes
logical_task_id ids = elim (boundary ids.task_id ids.session_id) [ none ↦ none | some b ↦ some b.0 ]

unfoldable pub matches_logical_task : Event → Bytes → Bool
matches_logical_task e logical_id = elim (logical_task_id e.ids) [
  | none ↦ false
  | some id ↦ bytes_eq id logical_id
]

pub record TaskAccumulator : Type 0 where
  pub boundary_kind : TaskBoundaryKind
  pub native_id : Bytes
  pub event_count : ℕ
  pub first_sequence : ℕ
  pub last_sequence : ℕ
  pub first_seen_at : ℕ
  pub last_seen_at : ℕ
  pub sessions : Map (Unit {0})

-- The local variables of `load_with_key`.
pub record Loading : Type 0 where
  pub tasks : Map TaskAccumulator
  pub unassigned_events : ℕ
  pub session_associations : ℕ

abbrev pub start : Loading
start = record { tasks = []; unassigned_events = 0; session_associations = 0 }

pub data LoadError : Type 0 where
  too_many_tasks : LoadError
  too_many_sessions : LoadError

abbrev pub accumulator : TaskBoundaryKind → Bytes → Event → TaskAccumulator
accumulator kind native_id e = record {
  boundary_kind = kind;
  native_id = native_id;
  event_count = 0;
  first_sequence = e.sequence;
  last_sequence = e.sequence;
  first_seen_at = e.wall_time;
  last_seen_at = e.wall_time;
  sessions = [];
}

abbrev pub note_event : Event → TaskAccumulator → TaskAccumulator
note_event e a = record a {
  event_count = saturating_add a.event_count 1;
  last_sequence = e.sequence;
  last_seen_at = e.wall_time;
}

abbrev pub add_session : Bytes → TaskAccumulator → TaskAccumulator
add_session id a = record a { sessions = insert id tt a.sessions }

unfoldable pub has_session : Bytes → Bytes → Map TaskAccumulator → Bool
has_session id logical_id tasks = elim (lookup logical_id tasks) [
  | none ↦ false
  | some a ↦ contains_key id a.sessions
]

unfoldable pub associate : Bytes → Option Bytes → Loading → Result LoadError Loading
associate logical_id none s = ok s
associate logical_id (some id) s =
    if has_session id logical_id s.tasks
    then ok s
    else if s.session_associations == max_task_session_associations
    then err too_many_sessions
    else ok (record s {
      tasks = update logical_id (add_session id) s.tasks;
      session_associations = saturating_add s.session_associations 1;
    })

-- The tasks after the event is counted in its task, which is made when it is new.
abbrev pub count_event : Bytes → TaskAccumulator → Event → Map TaskAccumulator → Map TaskAccumulator
count_event logical_id fresh e tasks =
    update logical_id (note_event e) (or_insert logical_id fresh tasks)

unfoldable pub load_event :
    Event → Option (Bytes × TaskBoundaryKind × Bytes) → Loading → Result LoadError Loading
load_event e none s = ok (record s { unassigned_events = saturating_add s.unassigned_events 1 })
load_event e (some (logical_id, kind, native_id)) s =
    let counted = record s {
      tasks = count_event logical_id (accumulator kind native_id e) e s.tasks;
    } in
    if not (contains_key logical_id s.tasks) && (length s.tasks == max_logical_tasks)
    then err too_many_tasks
    else associate logical_id e.ids.session_id counted

unfoldable pub load_events : List Event → Loading → Result LoadError Loading
load_events [] s = ok s
load_events (e ∷ events) s =
    load_event e (boundary e.ids.task_id e.ids.session_id) s >>= λ t. load_events events t

pub record LogicalTask : Type 0 where
  pub logical_task_id : Bytes
  pub task : TaskAccumulator
  pub session_ids : List Bytes

pub record TaskIndex : Type 0 where
  pub schema_version : ℕ
  pub split_policy : Bytes
  pub run_id : Bytes
  pub tasks : List LogicalTask
  pub unassigned_events : ℕ

abbrev pub keys {ℓ} : {A : Type ℓ} → Map A → List Bytes
keys m = map (λ entry. entry.0) m

abbrev pub logical_task : Bytes × TaskAccumulator → LogicalTask
logical_task (id, task) = record {
  logical_task_id = id;
  task = task;
  session_ids = keys task.sessions;
}

abbrev pub task_index : Bytes → Loading → TaskIndex
task_index run_id s = record {
  schema_version = 1;
  split_policy = ascii "agent-task-or-session-v1";
  run_id = run_id;
  tasks = map logical_task s.tasks;
  unassigned_events = s.unassigned_events;
}

unfoldable pub load : Bytes → List Event → Result LoadError TaskIndex
load run_id events = load_events events start >>= λ s. ok (task_index run_id s)
