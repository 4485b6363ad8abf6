-- ===== src/Quota/Safe.antt =====
-- The quota is never exceeded and no byte of it is lost, whatever the order of the tasks.
use inference_io.Prelude.{ℕ, ◌+◌, ◌≤◌, ◌≡◌, List, [], ◌∷◌, ◌++◌, arith}
use inference_io.Quota.Reserve.{
  Task, holding, Store, attempt, release, Act, begins, tries, releases, Step, acts, Steps, stay,
  more,
}

abbrev pub held : Task → ℕ
held (holding bytes) = bytes
held _ = 0

unfoldable pub reserved : List Task → ℕ
reserved [] = 0
reserved (task ∷ tasks) = held task + reserved tasks

reserved-append :
    (front back : List Task) → reserved (front ++ back) ≡ reserved front + reserved back
unfolding reserved
reserved-append [] back = omega arith
reserved-append (task ∷ front) back = omega (arith, reserved-append front back)

reserved-middle :
    (front back : List Task) (task : Task)
    → reserved (front ++ task ∷ back) ≡ reserved front + (held task + reserved back)
unfolding reserved
reserved-middle front back task = reserved-append front (task ∷ back)

-- The counter is what was there and what the tasks hold, and within the limit.
abbrev pub IsWithin : ℕ → ℕ → Store → Type 0
IsWithin limit existing s = (s.counter ≡ existing + reserved s.tasks) × (s.counter ≤ limit)

Act-held :
    (limit rest : ℕ) {counter : ℕ} {task : Task} {next : ℕ × Task}
    → Act limit (counter, task) next
    → counter ≡ rest + held task
    → counter ≤ limit
    → (next.0 ≡ rest + held next.1) × (next.0 ≤ limit)
unfolding attempt release
Act-held limit rest (begins requested) sum bound = ground (arith, sum, bound)
Act-held limit rest (tries spurious) sum bound = ground (arith, sum, bound)
Act-held limit rest releases sum bound = ground (arith, sum, bound)

Step-IsWithin :
    (limit existing : ℕ) {s t : Store}
    → Step limit s t
    → IsWithin limit existing s
    → IsWithin limit existing t
Step-IsWithin limit existing (acts {task = task} {next = next} front back act) (sum, bound) =
    let (after, fits) =
      Act-held limit (existing + (reserved front + reserved back)) act
        (omega (arith, sum, reserved-middle front back task)) bound in
    (omega (arith, after, reserved-middle front back next.1), fits)

-- From a store whose counter is the bytes that were there and those that its tasks hold, and is within
-- the limit, every sequence of steps of the tasks, in any order, leads to a store of which the same
-- holds: the quota is never exceeded, and no reservation is lost or counted twice.
pub Steps-IsWithin :
    (limit existing : ℕ) {s t : Store}
    → Steps limit s t
    → IsWithin limit existing s
    → IsWithin limit existing t
Steps-IsWithin limit existing stay h = h
Steps-IsWithin limit existing (more step steps) h =
    Steps-IsWithin limit existing steps (Step-IsWithin limit existing step h)
