-- ===== src/Upload/Progress.antt =====
-- The states that an upload of src/upload.rs writes to the spool: each is valid, and none forgets what
-- the platform has acknowledged.
use inference_io.Prelude.{
  ℕ, ◌+◌, ◌-◌, ◌≤◌, ◌<◌, ◌≡◌, refl, sym, ap, ◌∙◌, subst, Bool, true, ◌&&◌, List, [], ◌∷◌, none,
  arith, leb, ◌==◌, inl, inr, Result, ok, ensure-then, >>=-eq-ok, Bool-cases,
}
use inference_io.Bytes.{Bytes, any}
use inference_io.Upload.State.{
  BatchPlan, UploadState, UploadError, five_minutes, Checked, Check, last_batch, last_seq_or,
  planned_sequence, is_batch_boundary, validate_batch, validate_batches, validate_state_prefix,
  validate_identity, validate_progress,
}
use inference_io.Upload.Coverage.{validate_batch-range}
use inference_io.Upload.Remote.{
  is_sealed, RemoteRecording, BatchAck, reconcile_remote, validate_ack, check_remote_state, Target,
  whole_run, active_segment, acknowledged, sealed_by, upload_batch,
}

-- The plan of a checked state ends where the check says.
validate_batches-last :
    (b : BatchPlan) (batches : List BatchPlan) (s t : Checked) (first : ℕ)
    → validate_batches (b ∷ batches) s ≡ ok t
    → last_seq_or first (b ∷ batches) ≡ t.next - 1
unfolding validate_batches last_batch
validate_batches-last b [] s t first h =
    let (u, one, rest) = >>=-eq-ok (validate_batch b s) _ h in
    let same : u ≡ t = cc rest in
    omega (arith, validate_batch-range b s u one, ap (λ c. c.next) same)
validate_batches-last b (c ∷ batches) s t first h =
    let (u, one, rest) = >>=-eq-ok (validate_batch b s) _ h in
    validate_batches-last c batches u t first rest

any_last-le :
    (sequence : ℕ) (batches : List BatchPlan) (s t : Checked)
    → validate_batches batches s ≡ ok t
    → any (λ b. b.last_seq == sequence) batches ≡ true
    → s.next ≤ sequence
unfolding validate_batches
any_last-le sequence [] s t h found = absurd (cc found)
any_last-le sequence (b ∷ batches) s t h found =
    let (u, one, rest) = >>=-eq-ok (validate_batch b s) _ h in
    let range = validate_batch-range b s u one in
    elim (Bool-cases (b.last_seq == sequence)) [
      | inl e ↦ ground (arith, e, range)
      | inr e ↦
          omega (arith, range, any_last-le sequence batches u t rest (ground (arith, e, found)))
    ]

abbrev pub start : UploadState → Checked
start s = record { next = s.first_seq; previous = none; blob_count = 0 }

validate_batches-last_seq_or :
    (batches : List BatchPlan) (s c : Checked)
    → validate_batches batches s ≡ ok c
    → last_seq_or (s.next - 1) batches ≡ c.next - 1
unfolding validate_batches last_batch
validate_batches-last_seq_or [] s c h = let same : s ≡ c = cc h in ap (λ x. x.next - 1) same
validate_batches-last_seq_or (b ∷ batches) s c h =
    validate_batches-last b batches s c (s.next - 1) h

pub progress-ok :
    (s : UploadState) (planned_seq : ℕ)
    → s.acked_seq ≤ planned_seq
    → is_batch_boundary s s.acked_seq ≡ true
    → (s.sealed ≡ true → s.acked_seq ≡ planned_seq)
    → validate_progress s planned_seq ≡ ok tt
progress-ok s planned_seq below boundary done = elim (Bool-cases s.sealed) [
  | inl e ↦ ground (arith, below, boundary, e, done e)
  | inr e ↦ ground (arith, below, boundary, e)
]

-- The upload's target is the plan's last event.
abbrev pub IsTarget : Target → ℕ → Type 0
IsTarget target planned_seq =
    (final_seq : ℕ) → target ≡ whole_run final_seq → final_seq ≡ planned_seq

sealed_by-done :
    (target : Target) (planned_seq : ℕ) (s : UploadState) (ack : BatchAck)
    → IsTarget target planned_seq
    → (s.sealed ≡ true → s.acked_seq ≡ planned_seq)
    → s.acked_seq < ack.durable_seq
    → ack.durable_seq ≤ planned_seq
    → sealed_by target s ack ≡ true
    → ack.durable_seq ≡ planned_seq
sealed_by-done (whole_run final_seq) planned_seq s ack is_target done new below e =
    ground (arith, e, is_target final_seq refl)
sealed_by-done active_segment planned_seq s ack is_target done new below e =
    absurd (omega (arith, done e, new, below))

module _ (run_id recording_id api_origin : Bytes) (available_seq : ℕ) where
  abbrev pub IsValid : ℕ → UploadState → Type 0
  IsValid planned_seq s =
      validate_state_prefix s run_id recording_id api_origin available_seq ≡ ok planned_seq

  -- A state with other progress.
  abbrev moved : UploadState → ℕ → Bool → ℕ → UploadState
  moved s acked_seq sealed now = record s {
    acked_seq = acked_seq;
    sealed = sealed;
    updated_at = now;
  }

  IsValid-moved :
      (planned_seq : ℕ) (s : UploadState) (acked_seq : ℕ) (sealed : Bool) (now : ℕ)
      → IsValid planned_seq s
      → s.created_at ≤ now + five_minutes
      → acked_seq ≤ planned_seq
      → is_batch_boundary s acked_seq ≡ true
      → (sealed ≡ true → acked_seq ≡ planned_seq)
      → IsValid planned_seq (moved s acked_seq sealed now)
  unfolding validate_state_prefix is_batch_boundary
  IsValid-moved planned_seq s acked_seq sealed now h time below boundary done =
      let (u, identity, rest) =
        >>=-eq-ok (validate_identity s run_id recording_id api_origin) _ h in
      let (c, checked, last) = >>=-eq-ok (validate_batches s.batches _) _ rest in
      let same : c.next - 1 ≡ planned_seq = ground (arith, last) in
      let identity' : validate_identity (moved s acked_seq sealed now) run_id recording_id
            api_origin
          ≡ ok tt =
        ground (arith, identity, time) in
      let progress' : validate_progress (moved s acked_seq sealed now) (c.next - 1) ≡ ok tt =
        progress-ok (moved s acked_seq sealed now) (c.next - 1) (omega (arith, below, same))
          boundary (λ e. done e ∙ sym same) in
      rw (identity', checked, progress') (ground (arith, last))

  pub IsValid-parts :
      (planned_seq : ℕ) (s : UploadState)
      → IsValid planned_seq s
      → (planned_sequence s ≡ planned_seq)
        × (s.acked_seq ≤ planned_seq)
        × (s.sealed ≡ true → s.acked_seq ≡ planned_seq)
  unfolding validate_state_prefix planned_sequence
  IsValid-parts planned_seq s h =
      let (u, identity, rest) =
        >>=-eq-ok (validate_identity s run_id recording_id api_origin) _ h in
      let (c, checked, last) = >>=-eq-ok (validate_batches s.batches _) _ rest in
      let planned = validate_batches-last_seq_or s.batches (start s) c checked in
      (ground (arith, last, planned), ground (arith, last), (λ e. ground (arith, last, e)))

  pub IsValid-acked_from :
      (planned_seq : ℕ) (s : UploadState) → IsValid planned_seq s → s.first_seq - 1 ≤ s.acked_seq
  unfolding validate_state_prefix is_batch_boundary
  IsValid-acked_from planned_seq s h =
      let (u, identity, rest) =
        >>=-eq-ok (validate_identity s run_id recording_id api_origin) _ h in
      let (c, checked, last) = >>=-eq-ok (validate_batches s.batches _) _ rest in
      elim (Bool-cases (any (λ b. b.last_seq == s.acked_seq) s.batches)) [
        | inl e ↦ omega (arith, any_last-le s.acked_seq s.batches (start s) c checked e)
        | inr e ↦ ground (arith, last, e)
      ]

  -- A state that comes after another in an upload: valid, of the same plan, with no less acknowledged.
  pub record IsAfter (planned_seq : ℕ) (s t : UploadState) : Type 0 where
    pub valid : IsValid planned_seq t
    pub first_seq : t.first_seq ≡ s.first_seq
    pub batches : t.batches ≡ s.batches
    pub created_at : t.created_at ≡ s.created_at
    pub no_less : s.acked_seq ≤ t.acked_seq

  -- What reconcile_remote makes of a valid state is valid, with the platform's durable sequence number as
  -- the acknowledged one, given a clock that is at most five minutes behind the state's creation.
  pub reconcile_remote-IsValid :
      (planned_seq : ℕ) (s t : UploadState) (remote : RemoteRecording) (now : ℕ)
      → IsValid planned_seq s
      → s.created_at ≤ now + five_minutes
      → reconcile_remote s remote now ≡ ok t
      → IsValid planned_seq t × (t.acked_seq ≡ remote.durable_seq) × (t.batches ≡ s.batches)
  unfolding reconcile_remote
  reconcile_remote-IsValid planned_seq s t remote now valid time h =
      let (planned, acked, done) = IsValid-parts planned_seq s valid in
      let (same_segment, h1) =
        ensure-then
          ((remote.segment_no == s.segment_no) && (remote.sequence_base == s.first_seq - 1)) _ _
          h in
      let (range, h2) =
        ensure-then
          (leb (s.first_seq - 1) remote.durable_seq && leb remote.durable_seq (planned_sequence s))
          _ _ h1 in
      let (boundary, h3) = ensure-then (is_batch_boundary s remote.durable_seq) _ _ h2 in
      let (u, agreed, h4) = >>=-eq-ok (check_remote_state remote (planned_sequence s)) _ h3 in
      let sealed = is_sealed remote.state && (remote.durable_seq == planned_sequence s) in
      let made : moved s remote.durable_seq sealed now ≡ t = cc h4 in
      subst
        (λ x. IsValid planned_seq x × (x.acked_seq ≡ remote.durable_seq) × (x.batches ≡ s.batches))
        made
        (
          IsValid-moved planned_seq s remote.durable_seq sealed now valid time
              (ground (arith, range, planned)) boundary (λ e. ground (arith, e, planned)),
          refl,
          refl,
        )

  module _ (read_batch : BatchPlan → Check)
      (exchange : UploadState → BatchPlan → Result UploadError BatchAck) (clock : UploadState → ℕ)
      (target : Target) where
    pub upload_batch-IsAfter :
        (planned_seq : ℕ) (s t : UploadState) (b : BatchPlan)
        → IsTarget target planned_seq
        → s.created_at ≤ clock s + five_minutes
        → IsValid planned_seq s
        → s.acked_seq < b.last_seq
        → upload_batch read_batch exchange clock target b s ≡ ok t
        → IsAfter planned_seq s t × (b.last_seq ≤ t.acked_seq)
    unfolding upload_batch validate_ack
    upload_batch-IsAfter planned_seq s t b is_target time valid new h =
        let (ack, answered, h1) = >>=-eq-ok (exchange s b) _ h in
        let (u, accepted, h2) = >>=-eq-ok (validate_ack s b ack) _ h1 in
        let (planned, acked, done) = IsValid-parts planned_seq s valid in
        let reached : b.last_seq ≤ ack.durable_seq = ground (arith, accepted) in
        let below : ack.durable_seq ≤ planned_seq = ground (arith, accepted, planned) in
        let boundary : is_batch_boundary s ack.durable_seq ≡ true = ground (arith, accepted) in
        let made : acknowledged target s ack (clock s) ≡ t = cc h2 in
        subst (λ x. IsAfter planned_seq s x × (b.last_seq ≤ x.acked_seq)) made
          (
            record {
              valid =
                  IsValid-moved planned_seq s ack.durable_seq (sealed_by target s ack) (clock s)
                    valid time below boundary
                    (sealed_by-done target planned_seq s ack is_target done
                      (omega (arith, new, reached)) below);
              first_seq = refl;
              batches = refl;
              created_at = refl;
              no_less = omega (arith, new, reached);
            },
            reached,
          )
