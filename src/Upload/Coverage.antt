-- ===== src/Upload/Coverage.antt =====
-- What a valid state and a valid chain of src/upload.rs cover: every event of their range, once.
use inference_io.Prelude.{
  ℕ, ◌+◌, ◌≤◌, ◌<◌, ◌≡◌, ap, List, [], ◌∷◌, arith, inl, inr, Exists, ok, >>=-eq-ok, dec_lt,
}
use inference_io.Upload.State.{BatchPlan, Checked, validate_batch, validate_batches}

-- A batch holds an event.
abbrev pub IsIn : ℕ → BatchPlan → Type 0
IsIn sequence b = (b.first_seq ≤ sequence) × (sequence ≤ b.last_seq)

pub validate_batch-range :
    (b : BatchPlan) (s t : Checked)
    → validate_batch b s ≡ ok t
    → (b.first_seq ≡ s.next) × (b.first_seq ≤ b.last_seq) × (t.next ≡ b.last_seq + 1)
unfolding validate_batch
validate_batch-range b s t h = ground (arith, h)

pub validate_batches-le :
    (batches : List BatchPlan) (s t : Checked) → validate_batches batches s ≡ ok t → s.next ≤ t.next
unfolding validate_batches
validate_batches-le [] s t h = ground (arith, h)
validate_batches-le (b ∷ batches) s t h =
    let (u, first, rest) = >>=-eq-ok (validate_batch b s) _ h in
    omega (arith, validate_batch-range b s u first, validate_batches-le batches u t rest)

pub validate_batches-IsIn :
    (batches : List BatchPlan) (s t : Checked) (sequence : ℕ)
    → validate_batches batches s ≡ ok t
    → s.next ≤ sequence
    → sequence < t.next
    → Exists (λ b. IsIn sequence b × (b.last_seq < t.next)) batches
unfolding validate_batches
validate_batches-IsIn [] s t sequence h from to =
    absurd (let same : s ≡ t = cc h in omega (arith, from, to, ap (λ c. c.next) same))
validate_batches-IsIn (b ∷ batches) s t sequence h from to =
    let (u, first, rest) = >>=-eq-ok (validate_batch b s) _ h in
    let (start, order, next) = validate_batch-range b s u first in
    elim (dec_lt b.last_seq sequence) [
      | yes later ↦
          inr (validate_batches-IsIn batches u t sequence rest (omega (arith, later, next)) to)
      | no here ↦ inl (
        ((omega (arith, start, from)), omega (arith, here)),
        omega (arith, next, validate_batches-le batches u t rest),
      )
    ]
