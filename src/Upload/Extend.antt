-- ===== src/Upload/Extend.antt =====
-- extend_state_to of src/upload.rs: a state that is extended to an event is valid up to it.
use inference_io.Prelude.{
  ℕ, ◌+◌, ◌-◌, ◌≤◌, ◌<◌, ◌≡◌, ap, ◌∙◌, subst, true, false, not, List, [], ◌∷◌, ◌++◌, none, some,
  arith, leb, ltb, ◌==◌, length, u64_max, inl, inr, All, Result, ok, ◌>>=◌, ◌>>◌, ensure,
  ensure-then, >>=-eq-ok, Bool-cases,
}
use inference_io.Bytes.{Bytes, any}
use inference_io.Model.{EventEnvelope}
use inference_io.Upload.State.{
  BatchPlan, UploadState, UploadError, exceeds_boundary, sealed_plan, sequence_overflow,
  too_many_batches, Checked, five_minutes, max_batch_plans, max_blob_plans, max_platform_sequence,
  last_batch, planned_sequence, is_batch_boundary, validate_sha, validate_batch, validate_batches,
  validate_identity, validate_progress, validate_state_prefix,
}
use inference_io.Upload.Plan.{build_batch_plans_range, extend_state_to, last_sha256}
use inference_io.Upload.Planned.{validate_batches-append}
use inference_io.Upload.Range.{IsValidEvent}
use inference_io.Upload.Built.{build_batch_plans_range-IsCovering}
use inference_io.Upload.Coverage.{validate_batches-le}
use inference_io.Upload.Progress.{start, progress-ok, IsValid, IsValid-parts}

any-append :
    (sequence : ℕ) (batches more : List BatchPlan)
    → any (λ b. b.last_seq == sequence) batches ≡ true
    → any (λ b. b.last_seq == sequence) (batches ++ more) ≡ true
any-append sequence [] more h = absurd (cc h)
any-append sequence (b ∷ batches) more h = elim (Bool-cases (b.last_seq == sequence)) [
  | inl e ↦ ground (arith, e)
  | inr e ↦ ground (arith, e, h, any-append sequence batches more)
]

boundary-append :
    (s : UploadState) (more : List BatchPlan) (now : ℕ) (planned_seq : ℕ)
    → validate_progress s planned_seq ≡ ok tt
    → is_batch_boundary (record s { batches = s.batches ++ more; updated_at = now }) s.acked_seq
      ≡ true
unfolding is_batch_boundary
boundary-append s more now planned_seq h = elim (Bool-cases (s.acked_seq == s.first_seq - 1)) [
  | inl e ↦ ground (arith, e)
  | inr e ↦ ground (arith, any-append s.acked_seq s.batches more (ground (arith, e, h)))
]

validate_batches-previous :
    (b : BatchPlan) (batches : List BatchPlan) (s c : Checked)
    → validate_batches (b ∷ batches) s ≡ ok c
    → (elim (last_batch (b ∷ batches)) [ none ↦ none | some last ↦ some last.sha256 ]) ≡ c.previous
unfolding validate_batches last_batch validate_batch
validate_batches-previous b [] s c h =
    let (u, one, rest) = >>=-eq-ok (validate_batch b s) _ h in
    let same : u ≡ c = cc rest in ground (arith, one, ap (λ x. x.previous) same)
validate_batches-previous b (d ∷ batches) s c h =
    let (u, one, rest) = >>=-eq-ok (validate_batch b s) _ h in
    validate_batches-previous d batches u c rest

module _ (run_id recording_id api_origin : Bytes) where
  positive :
      (s : UploadState)
      → validate_identity s run_id recording_id api_origin ≡ ok tt
      → 1 ≤ s.first_seq
  positive s h = ground (arith, h)

  -- The checks that a valid state has passed.
  record Passed (available_seq planned_seq : ℕ) (s : UploadState) (c : Checked) : Type 0 where
    pub identity : validate_identity s run_id recording_id api_origin ≡ ok tt
    pub batches : validate_batches s.batches (start s) ≡ ok c
    pub ends : c.next - 1 ≡ planned_seq
    pub within : planned_seq ≤ available_seq
    pub few : c.blob_count ≤ max_blob_plans
    pub progress : validate_progress s planned_seq ≡ ok tt

  IsValid-Passed :
      (available_seq planned_seq : ℕ) (s : UploadState)
      → IsValid run_id recording_id api_origin available_seq planned_seq s
      → (c : Checked) × Passed available_seq planned_seq s c
  unfolding validate_state_prefix
  IsValid-Passed available_seq planned_seq s h =
      let (u, identity, h1) = >>=-eq-ok (validate_identity s run_id recording_id api_origin) _ h in
      let (c, batches, h2) = >>=-eq-ok (validate_batches s.batches _) _ h1 in
      let (within, h3) = ensure-then (leb (c.next - 1) available_seq) _ _ h2 in
      let (few, h4) = ensure-then (leb c.blob_count max_blob_plans) _ _ h3 in
      let (v, progress, h5) = >>=-eq-ok (validate_progress s (c.next - 1)) _ h4 in
      let ends : c.next - 1 ≡ planned_seq = ground (arith, h5) in
      (
        c,
        record {
          identity = identity;
          batches = batches;
          ends = ends;
          within = ground (arith, within, ends);
          few = ground (arith, few);
          progress = subst (λ n. validate_progress s n ≡ ok tt) ends progress;
        },
      )

  Passed-IsValid :
      (available_seq planned_seq : ℕ) (s : UploadState) (c : Checked)
      → Passed available_seq planned_seq s c
      → IsValid run_id recording_id api_origin available_seq planned_seq s
  unfolding validate_state_prefix
  Passed-IsValid available_seq planned_seq s c passed =
      rw (passed.identity, passed.batches, passed.ends, passed.progress)
        (ground (arith, passed.within, passed.few))

module _ (to_vec : EventEnvelope → Bytes) (digest : Bytes → Bytes) (clock : ℕ → ℕ)
    (is_digest : (text : Bytes) → validate_sha (digest text) ≡ ok tt) where
  last_sha256-previous :
      (s : UploadState) (batches : List BatchPlan) (c : Checked)
      → validate_batches batches (start s) ≡ ok c
      → last_sha256 to_vec digest clock batches ≡ c.previous
  unfolding validate_batches last_batch
  last_sha256-previous s [] c h = let same : start s ≡ c = cc h in ap (λ x. x.previous) same
  last_sha256-previous s (b ∷ batches) c h = validate_batches-previous b batches (start s) c h

  module _ (run_id recording_id api_origin : Bytes) where
    abbrev pub IsExtended : ℕ → UploadState → Type 0
    IsExtended target_seq t =
        (c : Checked) × (validate_batches t.batches (start t) ≡ ok c)
        × (c.next - 1 ≡ target_seq)
        × (c.blob_count ≤ max_blob_plans
            → IsValid run_id recording_id api_origin target_seq target_seq t)

    grown-IsExtended :
        (planned_seq available_seq target_seq now : ℕ) (s : UploadState)
        (events : List (Result UploadError EventEnvelope)) (additional : List BatchPlan)
        (c : Checked)
        → IsValid run_id recording_id api_origin available_seq planned_seq s
        → Passed run_id recording_id api_origin available_seq planned_seq s c
        → target_seq ≤ max_platform_sequence
        → All IsValidEvent events
        → s.created_at ≤ now + five_minutes
        → planned_seq < target_seq
        → s.sealed ≡ false
        → build_batch_plans_range to_vec digest clock events
            (planned_sequence s + 1)
            target_seq
            (last_sha256 to_vec digest clock s.batches)
          ≡ ok additional
        → length (s.batches ++ additional) ≤ max_batch_plans
        → IsExtended target_seq (record s { batches = s.batches ++ additional; updated_at = now })
    unfolding is_batch_boundary
    grown-IsExtended planned_seq available_seq target_seq now s events additional c valid passed low
          checked time behind unsealed built few =
        let (planned, acked, done) =
          IsValid-parts run_id recording_id api_origin available_seq planned_seq s valid in
        let (d, more, ends) =
          build_batch_plans_range-IsCovering to_vec digest clock is_digest events
            (planned_sequence s + 1) target_seq c.blob_count
            (last_sha256 to_vec digest clock s.batches) additional low checked built in
        let next : planned_sequence s + 1 ≡ c.next = omega (
          arith,
          planned,
          passed.ends,
          positive run_id recording_id api_origin s passed.identity,
          validate_batches-le s.batches (start s) c passed.batches,
        ) in
        let from : record {
          next = planned_sequence s + 1;
          previous = last_sha256 to_vec digest clock s.batches;
          blob_count = c.blob_count;
        }
            ≡ c =
          ap
            (λ n. record {
              next = n;
              previous = last_sha256 to_vec digest clock s.batches;
              blob_count = c.blob_count;
            })
            next
          ∙ ap (λ q. record { next = c.next; previous = q; blob_count = c.blob_count })
              (last_sha256-previous s s.batches c passed.batches) in
        let t : UploadState = record s { batches = s.batches ++ additional; updated_at = now } in
        let whole : validate_batches t.batches (start t) ≡ ok d =
          validate_batches-append s.batches additional (start s) c passed.batches
          ∙ subst (λ x. validate_batches additional x ≡ ok d) from more in
        (
          d,
          whole,
          omega (arith, ends),
          (λ few_blobs.
              Passed-IsValid run_id recording_id api_origin target_seq target_seq t d (record {
                identity = ground (arith, passed.identity, time, few);
                batches = whole;
                ends = omega (arith, ends);
                within = omega arith;
                few = few_blobs;
                progress =
                    progress-ok t target_seq (omega (arith, acked, behind))
                      (boundary-append s additional now planned_seq passed.progress)
                      (λ sealed. absurd (cc (unsealed, sealed)));
              })),
        )

    -- Let a state be valid, up to an event that is not behind its end and that the platform can number,
    -- and let the reader of the log have checked its events. When extend_state_to gives a state, that state
    -- ends at the event, and it is valid up to it, if it does not have too many references to blobs in all
    -- and the clock is at most five minutes behind its creation.
    pub extend_state_to-IsValid :
        (planned_seq available_seq target_seq now : ℕ) (s t : UploadState)
        (events : List (Result UploadError EventEnvelope))
        → IsValid run_id recording_id api_origin available_seq planned_seq s
        → target_seq ≤ max_platform_sequence
        → All IsValidEvent events
        → s.created_at ≤ now + five_minutes
        → extend_state_to to_vec digest clock s events target_seq now ≡ ok t
        → IsExtended target_seq t
    unfolding extend_state_to
    extend_state_to-IsValid planned_seq available_seq target_seq now s t events valid low checked
          time h =
        let (c, passed) =
          IsValid-Passed run_id recording_id api_origin available_seq planned_seq s valid in
        let (planned, acked, done) =
          IsValid-parts run_id recording_id api_origin available_seq planned_seq s valid in
        elim (Bool-cases (planned_sequence s == target_seq)) [
          | inl e ↦
              let same : s ≡ t = ground (arith, e, h) in
              let target : planned_seq ≡ target_seq = ground (arith, e, planned) in
              subst (IsExtended target_seq) same (
                c,
                passed.batches,
                omega (arith, target, passed.ends),
                (λ few.
                    subst (λ n. IsValid run_id recording_id api_origin n n s) target
                      (Passed-IsValid run_id recording_id api_origin planned_seq planned_seq s c
                        (record {
                          identity = passed.identity;
                          batches = passed.batches;
                          ends = passed.ends;
                          within = omega arith;
                          few = passed.few;
                          progress = passed.progress;
                        }))),
              )
          | inr e ↦
              let taken : (ensure (ltb (planned_sequence s) target_seq) exceeds_boundary
                    >> (ensure (not s.sealed) sealed_plan
                        >> (ensure (ltb (planned_sequence s) u64_max) sequence_overflow
                            >> (build_batch_plans_range to_vec digest clock events
                                  (planned_sequence s + 1) target_seq
                                  (last_sha256 to_vec digest clock s.batches)
                                >>= (λ additional.
                                    ensure (leb (length (s.batches ++ additional)) max_batch_plans)
                                      too_many_batches
                                    >> ok (record s {
                                      batches = s.batches ++ additional;
                                      updated_at = now;
                                    }))))))
                  ≡ ok t =
                ground (arith, e, h) in
              let (behind, h1) = ensure-then (ltb (planned_sequence s) target_seq) _ _ taken in
              let (unsealed, h2) = ensure-then (not s.sealed) _ _ h1 in
              let (bounded, h3) = ensure-then (ltb (planned_sequence s) u64_max) _ _ h2 in
              let (additional, built, h4) =
                >>=-eq-ok
                  (build_batch_plans_range to_vec digest clock events (planned_sequence s + 1)
                    target_seq (last_sha256 to_vec digest clock s.batches))
                  _ h3 in
              let (few, h5) =
                ensure-then (leb (length (s.batches ++ additional)) max_batch_plans) _ _ h4 in
              let same : record s { batches = s.batches ++ additional; updated_at = now } ≡ t =
                cc h5 in
              subst (IsExtended target_seq) same (
                grown-IsExtended planned_seq available_seq target_seq now s events additional c
                  valid passed low checked time (ground (arith, behind, planned))
                  (ground (arith, unsealed)) built (ground (arith, few)))
        ]
