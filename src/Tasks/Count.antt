-- ===== src/Tasks/Count.antt =====
-- The accounting of `load_with_key` of src/tasks.rs: every event is counted once, and a run of few
-- events is never refused.
use inference_io.Prelude.{
  ℕ, suc, ◌+◌, ◌≤◌, ◌<◌, ◌≡◌, refl, false, ◌&&◌, not, List, [], ◌∷◌, Option, none, some, arith,
  ◌==◌, length, map, saturating_add, u64_max, ok, >>=-eq-ok, Bool-cases, Option-cases, inl, inr,
}
use inference_io.Bytes.{Bytes, bytes_eq}
use inference_io.Bytes.Map.{
  Map, lookup, insert, or_insert, contains_key, update, length-insert_le, length-update,
  lookup-insert_same,
}
use inference_io.Tasks.Index.{
  Event, TaskBoundaryKind, TaskAccumulator, Loading, LogicalTask, TaskIndex, start, accumulator,
  note_event, add_session, has_session, associate, count_event, load_event, load_events, load,
  boundary, logical_task, task_index, max_logical_tasks, max_task_session_associations,
}

unfoldable pub total : Map TaskAccumulator → ℕ
total [] = 0
total ((id, task) ∷ tasks) = task.event_count + total tasks

total-insert :
    (id : Bytes) (task : TaskAccumulator) (tasks : Map TaskAccumulator)
    → contains_key id tasks ≡ false
    → total (insert id task tasks) ≡ task.event_count + total tasks
unfolding total insert contains_key lookup
total-insert id task [] h = refl
total-insert id task ((k, t) ∷ tasks) h = ground (arith, h, total-insert id task tasks)

total-or_insert :
    (id : Bytes) (task : TaskAccumulator) (tasks : Map TaskAccumulator)
    → task.event_count ≡ 0
    → total (or_insert id task tasks) ≡ total tasks
unfolding or_insert
total-or_insert id task tasks h = ground (arith, h, total-insert id task tasks)

total-update :
    (id : Bytes) (f : TaskAccumulator → TaskAccumulator) (task : TaskAccumulator)
    (tasks : Map TaskAccumulator)
    → lookup id tasks ≡ some task
    → total (update id f tasks) + task.event_count ≡ total tasks + (f task).event_count
unfolding total update lookup
total-update id f task [] h = absurd (cc h)
total-update id f task ((k, t) ∷ tasks) h = elim (Bool-cases (bytes_eq k id)) [
  | inl e ↦ ground (arith, h, e)
  | inr e ↦ ground (arith, h, e, total-update id f task tasks)
]

event_count_le :
    (id : Bytes) (task : TaskAccumulator) (tasks : Map TaskAccumulator)
    → lookup id tasks ≡ some task
    → task.event_count ≤ total tasks
unfolding total lookup
event_count_le id task [] h = absurd (cc h)
event_count_le id task ((k, t) ∷ tasks) h = ground (arith, h, event_count_le id task tasks)

total-add_session :
    (id session : Bytes) (tasks : Map TaskAccumulator)
    → total (update id (add_session session) tasks) ≡ total tasks
unfolding total update
total-add_session id session [] = refl
total-add_session id session ((k, t) ∷ tasks) = ground (arith, total-add_session id session tasks)

length-or_insert_le :
    (id : Bytes) (task : TaskAccumulator) (tasks : Map TaskAccumulator)
    → length (or_insert id task tasks) ≤ suc (length tasks)
unfolding or_insert
length-or_insert_le id task tasks = ground (arith, length-insert_le id task tasks)

lookup-or_insert_any :
    (id : Bytes) (task : TaskAccumulator) (tasks : Map TaskAccumulator)
    → (found : TaskAccumulator) × (lookup id (or_insert id task tasks) ≡ some found)
unfolding or_insert contains_key
lookup-or_insert_any id task tasks = elim (Option-cases (lookup id tasks)) [
  | inl e ↦ (task, ground (arith, e, lookup-insert_same id task tasks))
  | inr (found, e) ↦ (found, ground (arith, e))
]

total-count_event :
    (id : Bytes) (fresh : TaskAccumulator) (e : Event) (tasks : Map TaskAccumulator)
    → fresh.event_count ≡ 0
    → total tasks < u64_max
    → total (count_event id fresh e tasks) ≡ suc (total tasks)
unfolding saturating_add
total-count_event id fresh e tasks new room =
    let (task, found) = lookup-or_insert_any id fresh tasks in
    ground (
      arith,
      room,
      total-or_insert id fresh tasks new,
      total-update id (note_event e) task (or_insert id fresh tasks) found,
      event_count_le id task (or_insert id fresh tasks) found,
    )

length-count_event_le :
    (id : Bytes) (fresh : TaskAccumulator) (e : Event) (tasks : Map TaskAccumulator)
    → length (count_event id fresh e tasks) ≤ suc (length tasks)
length-count_event_le id fresh e tasks = omega (
  arith,
  length-update id (note_event e) (or_insert id fresh tasks),
  length-or_insert_le id fresh tasks,
)

-- After `n` events.
abbrev pub IsCounted : ℕ → Loading → Type 0
IsCounted n s =
    (total s.tasks + s.unassigned_events ≡ n) × (length s.tasks ≤ n) × (s.session_associations ≤ n)

associate-IsCounted :
    (n : ℕ) (id : Bytes) (session : Option Bytes) (s t : Loading)
    → total s.tasks + s.unassigned_events ≡ suc n
    → length s.tasks ≤ suc n
    → s.session_associations ≤ n
    → associate id session s ≡ ok t
    → IsCounted (suc n) t
unfolding associate saturating_add
associate-IsCounted n id none s t count tasks sessions run =
    ground (arith, count, tasks, sessions, run)
associate-IsCounted n id (some session) s t count tasks sessions run = ground (
  arith,
  count,
  tasks,
  sessions,
  run,
  total-add_session id session s.tasks,
  length-update id (add_session session) s.tasks,
)

load_event-IsCounted :
    (n : ℕ) (e : Event) (b : Option (Bytes × TaskBoundaryKind × Bytes)) (s t : Loading)
    → n < u64_max
    → IsCounted n s
    → load_event e b s ≡ ok t
    → IsCounted (suc n) t
unfolding load_event saturating_add
load_event-IsCounted n e none s t room (count, tasks, sessions) run =
    ground (arith, room, count, tasks, sessions, run)
load_event-IsCounted n e (some (id, kind, native_id)) s t room (count, tasks, sessions) run =
    elim (Bool-cases (not (contains_key id s.tasks) && (length s.tasks == max_logical_tasks))) [
      | inl full ↦ absurd (ground (arith, full, run))
      | inr fits ↦
          associate-IsCounted n id e.ids.session_id
            (record s { tasks = count_event id (accumulator kind native_id e) e s.tasks }) t
            (omega (
              arith,
              count,
              room,
              total-count_event id (accumulator kind native_id e) e s.tasks refl
                  (omega (arith, count, room)),
            ))
            (omega
              (arith, tasks, length-count_event_le id (accumulator kind native_id e) e s.tasks))
            sessions (ground (arith, fits, run))
    ]

load_events-IsCounted :
    (n : ℕ) (events : List Event) (s t : Loading)
    → n + length events ≤ u64_max
    → IsCounted n s
    → load_events events s ≡ ok t
    → IsCounted (n + length events) t
unfolding load_events
load_events-IsCounted n [] s t room h run = ground (arith, h, run)
load_events-IsCounted n (e ∷ events) s t room h run =
    let (u, one, more) =
      >>=-eq-ok (load_event e (boundary e.ids.task_id e.ids.session_id) s) _ run in
    ground (
      arith,
      load_events-IsCounted (suc n) events u t (omega (arith, room))
          (load_event-IsCounted n e (boundary e.ids.task_id e.ids.session_id) s u
            (omega (arith, room)) h one)
          more,
    )

associate-ok :
    (id : Bytes) (session : Option Bytes) (s : Loading)
    → s.session_associations < max_task_session_associations
    → (t : Loading) × (associate id session s ≡ ok t)
unfolding associate
associate-ok id none s room = (s, refl)
associate-ok id (some session) s room = elim (Bool-cases (has_session session id s.tasks)) [
  | inl e ↦ (s, ground (arith, e))
  | inr e ↦ (
    record s {
      tasks = update id (add_session session) s.tasks;
      session_associations = saturating_add s.session_associations 1;
    },
    ground (arith, e, room),
  )
]

load_event-ok :
    (n : ℕ) (e : Event) (b : Option (Bytes × TaskBoundaryKind × Bytes)) (s : Loading)
    → n < max_logical_tasks
    → IsCounted n s
    → (t : Loading) × (load_event e b s ≡ ok t)
unfolding load_event
load_event-ok n e none s room h = (_, refl)
load_event-ok n e (some (id, kind, native_id)) s room (count, tasks, sessions) =
    let (t, run) =
      associate-ok id e.ids.session_id
        (record s { tasks = count_event id (accumulator kind native_id e) e s.tasks })
        (omega (arith, sessions, room)) in
    (t, ground (arith, run, room, tasks))

load_events-ok :
    (n : ℕ) (events : List Event) (s : Loading)
    → n + length events ≤ max_logical_tasks
    → IsCounted n s
    → (t : Loading) × (load_events events s ≡ ok t)
unfolding load_events
load_events-ok n [] s room h = (s, refl)
load_events-ok n (e ∷ events) s room h =
    let b = boundary e.ids.task_id e.ids.session_id in
    let (u, one) = load_event-ok n e b s (omega (arith, room)) h in
    let (t, more) =
      load_events-ok (suc n) events u (omega (arith, room))
        (load_event-IsCounted n e b s u (omega (arith, room)) h one) in
    (t, ground (arith, one, more))

-- The events that the tasks of an index count.
unfoldable pub events_of : List LogicalTask → ℕ
events_of [] = 0
events_of (t ∷ tasks) = t.task.event_count + events_of tasks

events_of-map : (tasks : Map TaskAccumulator) → events_of (map logical_task tasks) ≡ total tasks
unfolding events_of total
events_of-map [] = refl
events_of-map ((id, t) ∷ tasks) = omega (arith, events_of-map tasks)

start-IsCounted : IsCounted 0 start
unfolding total
start-IsCounted = (refl, omega arith, omega arith)

-- When load gives an index for a run of at most 2 ^ 64 - 1 events, the events that its tasks count and
-- the events that it reports as unassigned are together as many as the run has.
pub load-total :
    (run_id : Bytes) (events : List Event) (index : TaskIndex)
    → length events ≤ u64_max
    → load run_id events ≡ ok index
    → events_of index.tasks + index.unassigned_events ≡ length events
unfolding load
load-total run_id events index room run =
    let (s, loaded, made) = >>=-eq-ok (load_events events start) _ run in
    ground (
      arith,
      made,
      events_of-map s.tasks,
      load_events-IsCounted 0 events start s (omega (arith, room)) start-IsCounted loaded,
    )

-- A run of at most 100,000 events is never refused: load gives an index for it.
pub load-ok :
    (run_id : Bytes) (events : List Event)
    → length events ≤ max_logical_tasks
    → (index : TaskIndex) × (load run_id events ≡ ok index)
unfolding load
load-ok run_id events room =
    let (s, loaded) = load_events-ok 0 events start (omega (arith, room)) start-IsCounted in
    (task_index run_id s, ground (arith, loaded))
