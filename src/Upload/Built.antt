-- ===== src/Upload/Built.antt =====
-- build_batch_plans_range of src/upload.rs as a whole.
use inference_io.Prelude.{
  ℕ, ◌+◌, ◌≤◌, ◌≡◌, refl, subst, not, ◌&&◌, ◌||◌, List, [], ◌∷◌, ◌++◌, Option, arith, leb, ltb,
  ◌==◌, saturating_add, saturating_add_exact, u64_max, inl, inr, All, Result, ok, ◌>>=◌,
  ensure-then, >>=-eq-ok, Bool-cases,
}
use inference_io.Bytes.{Bytes}
use inference_io.Model.{EventEnvelope}
use inference_io.Upload.State.{
  BatchPlan, UploadError, Checked, max_blob_plans, max_platform_sequence, validate_sha,
  validate_blobs, validate_batches,
}
use inference_io.Upload.Plan.{
  Planning, finish_plan, plan_events, planning, all_batches, is_no_batch, blob_total,
  build_batch_plans_range,
}
use inference_io.Upload.Planned.{IsPlanning}
use inference_io.Upload.Range.{IsValidEvent, finish_plan-validate_batches, plan_events-IsPlanning}

module _ (to_vec : EventEnvelope → Bytes) (digest : Bytes → Bytes) (clock : ℕ → ℕ)
    (is_digest : (text : Bytes) → validate_sha (digest text) ≡ ok tt) where
  planning-IsPlanning :
      (first blob_count : ℕ) (previous : Option Bytes)
      → IsPlanning
          (record { next = first; previous = previous; blob_count = blob_count })
          (planning to_vec digest clock first previous)
  unfolding validate_batches validate_blobs
  planning-IsPlanning first blob_count previous = record {
    made = record { next = first; previous = previous; blob_count = blob_count };
    checked = refl;
    previous = refl;
    next = omega arith;
    first = inl (refl, refl);
    small = omega arith;
    blobs = refl;
  }

  abbrev pub IsCovering : Checked → List BatchPlan → ℕ → Type 0
  IsCovering start batches next =
      (c : Checked) × (validate_batches batches start ≡ ok c) × (c.next ≡ next)

  all_batches-IsCovering :
      (start : Checked) (p : Planning) (batches : List BatchPlan)
      → IsPlanning start p
      → p.expected ≤ max_platform_sequence + 1
      → all_batches to_vec digest clock p ≡ ok batches
      → IsCovering start batches p.expected
  unfolding all_batches
  all_batches-IsCovering start p batches planned low h = elim (Bool-cases (ltb 0 p.count)) [
    | inl e ↦
        let taken : (finish_plan to_vec digest clock p >>= (λ b. ok (p.batches ++ b ∷ [])))
            ≡ ok batches =
          ground (arith, e, h) in
        let (b, finished, rest) = >>=-eq-ok (finish_plan to_vec digest clock p) _ taken in
        let (c, checked, next, previous) =
          finish_plan-validate_batches to_vec digest clock is_digest start p b planned low
            finished in
        let same : p.batches ++ b ∷ [] ≡ batches = cc rest in
        subst (λ x. IsCovering start x p.expected) same (c, checked, next)
    | inr e ↦
        let same : p.batches ≡ batches = ground (arith, e, h) in
        subst (λ x. IsCovering start x p.expected) same
          (planned.made, planned.checked, ground (arith, e, planned.next))
  ]

  -- When build_batch_plans_range gives plans for a range of events that the platform can number, out of
  -- events that the reader of the log has checked, the plans pass the check of validate_state_prefix, from
  -- the first event of the range and the digest before it on, and end with the last event of the range.
  pub build_batch_plans_range-IsCovering :
      (events : List (Result UploadError EventEnvelope)) (first last blob_count : ℕ)
      (previous : Option Bytes) (batches : List BatchPlan)
      → last ≤ max_platform_sequence
      → All IsValidEvent events
      → build_batch_plans_range to_vec digest clock events first last previous ≡ ok batches
      → IsCovering
          (record { next = first; previous = previous; blob_count = blob_count })
          batches
          (last + 1)
  unfolding build_batch_plans_range
  build_batch_plans_range-IsCovering events first last blob_count previous batches low valid h =
      let (range, h1) = ensure-then (ltb 0 first && leb first last) _ _ h in
      let (p, planned, h2) =
        >>=-eq-ok
          (plan_events to_vec digest clock first last events
            (planning to_vec digest clock first previous))
          _ h1 in
      let (made, is_made, h3) = >>=-eq-ok (all_batches to_vec digest clock p) _ h2 in
      let (some_batch, h4) = ensure-then (not (is_no_batch made)) _ _ h3 in
      let (covered, h5) =
        ensure-then ((last == u64_max) || (p.expected == saturating_add last 1)) _ _ h4 in
      let (few, h6) = ensure-then (leb (blob_total made) max_blob_plans) _ _ h5 in
      let start : Checked = record { next = first; previous = previous; blob_count = blob_count } in
      let (planned', within) =
        plan_events-IsPlanning to_vec digest clock is_digest start first last events
          (planning to_vec digest clock first previous) p low valid
          (planning-IsPlanning first blob_count previous) (ground (arith, range)) planned in
      let same : made ≡ batches = cc h6 in
      let ends : p.expected ≡ last + 1 =
        ground (arith, covered, low, saturating_add_exact last 1 (omega (arith, low))) in
      subst (λ x. IsCovering start x (last + 1)) same
        (subst (λ n. IsCovering start made n) ends
          (all_batches-IsCovering start p made planned' (omega (arith, within, low)) is_made))
