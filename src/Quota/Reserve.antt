-- ===== src/Quota/Reserve.antt =====
-- The compare-exchange loop of reserve_blob_storage (src/storage.rs), in the steps that tasks can
-- interleave, and release_blob_storage. The counter is an AtomicU64.
use inference_io.Prelude.{
  ℕ, ◌+◌, ◌-◌, ◌||◌, Bool, List, ◌∷◌, ◌++◌, ltb, not, ◌==◌, ◌&&◌, if◌then◌else◌, u64_max,
}

-- Where a task stands: outside; in the loop, with the bytes it asks for and the value of `used` that
-- it knows; with the bytes it has reserved; or refused.
pub data Task : Type 0 where
  outside : Task
  trying : ℕ → ℕ → Task
  holding : ℕ → Task
  refused : Task

pub record Store : Type 0 where
  pub counter : ℕ
  pub tasks : List Task

-- One round of the loop, for a counter and whether the exchange fails without cause, as
-- compare_exchange_weak may.
unfoldable pub attempt : ℕ → ℕ → Bool → ℕ → ℕ → ℕ × Task
attempt limit counter spurious requested used =
    if ltb u64_max (used + requested) || ltb limit (used + requested)
    then (counter, refused)
    else if (counter == used) && not spurious
    then (used + requested, holding requested)
    else (counter, trying requested counter)

abbrev pub reserve_starts : ℕ → ℕ → ℕ × Task
reserve_starts counter requested = (counter, trying requested counter)

-- `release_blob_storage`; `fetch_sub` wraps around, and so does this.
unfoldable pub release : ℕ → ℕ → ℕ × Task
release counter bytes =
    (if ltb counter bytes then u64_max + 1 + counter - bytes else counter - bytes, outside)

-- A step of one task, from the counter and the task to the counter and the task.
pub data Act (limit : ℕ) : ℕ × Task → ℕ × Task → Type 0 where
  begins :
      {counter : ℕ} (requested : ℕ)
      → Act limit (counter, outside) (reserve_starts counter requested)
  tries :
      {counter requested used : ℕ} (spurious : Bool)
      → Act limit (counter, trying requested used) (attempt limit counter spurious requested used)
  releases : {counter bytes : ℕ} → Act limit (counter, holding bytes) (release counter bytes)

-- A step of the store: some task acts.
pub data Step (limit : ℕ) : Store → Store → Type 0 where
  acts :
      {counter : ℕ} {task : Task} {next : ℕ × Task} (front back : List Task)
      → Act limit (counter, task) next
      → Step limit
          (record { counter = counter; tasks = front ++ task ∷ back })
          (record { counter = next.0; tasks = front ++ next.1 ∷ back })

pub data Steps (limit : ℕ) : Store → Store → Type 0 where
  stay : {s : Store} → Steps limit s s
  more : {s t u : Store} → Step limit s t → Steps limit t u → Steps limit s u
