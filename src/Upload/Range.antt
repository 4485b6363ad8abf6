-- ===== src/Upload/Range.antt =====
-- The loop of build_batch_plans_range of src/upload.rs: its plans cover the range that is asked for.
use inference_io.Prelude.{
  ℕ, ◌+◌, ◌≤◌, ◌≡◌, refl, sym, ap, ◌∙◌, subst, List, [], ◌∷◌, ◌++◌, some, arith, leb, ltb, ◌==◌,
  if◌then◌else◌, length, length-append, saturating_add, u64_max, inl, inr, All, Result, err, ok,
  ◌>>=◌, ensure-then, >>=-eq-ok, Bool-cases,
}
use inference_io.Bytes.{Bytes}
use inference_io.Bytes.Lines.{newline}
use inference_io.Model.{EventEnvelope, validate_envelope}
use inference_io.Upload.State.{
  BatchPlan, UploadError, Checked, default_batch_bytes, max_batch_plans, max_platform_sequence,
  validate_sha, validate_blobs, validate_batches,
}
use inference_io.Upload.Plan.{
  add_blob_plan, values, Planning, plan_of, finish_plan, close_batch, gather, is_full, plan_event,
  plan_events,
}
use inference_io.Upload.Planned.{
  validate_batches-append, add_blob_plan-validate_blobs, validate_envelope-payload, IsPlanning,
  plan_of-validate_batch,
}

-- What the reader of the log has checked of an event that it gives.
abbrev pub IsValidEvent : Result UploadError EventEnvelope → Type 0
IsValidEvent event = (e : EventEnvelope) → event ≡ ok e → validate_envelope e ≡ ok tt

module _ (to_vec : EventEnvelope → Bytes) (digest : Bytes → Bytes) (clock : ℕ → ℕ)
    (is_digest : (text : Bytes) → validate_sha (digest text) ≡ ok tt) where
  finish_plan-eq :
      (p : Planning) (b : BatchPlan)
      → finish_plan to_vec digest clock p ≡ ok b
      → (plan_of to_vec digest clock p ≡ b) × (1 ≤ p.count)
  unfolding finish_plan
  finish_plan-eq p b h = (ground (arith, h), ground (arith, h))

  -- With the plan of the events that have been gathered.
  pub finish_plan-validate_batches :
      (start : Checked) (p : Planning) (b : BatchPlan)
      → IsPlanning start p
      → p.expected ≤ max_platform_sequence + 1
      → finish_plan to_vec digest clock p ≡ ok b
      → (c : Checked) × (validate_batches (p.batches ++ b ∷ []) start ≡ ok c)
        × (c.next ≡ p.expected)
        × (c.previous ≡ some b.sha256)
  unfolding validate_batches
  finish_plan-validate_batches start p b planned low h =
      let (same, some_events) = finish_plan-eq p b h in
      let one =
        plan_of-validate_batch to_vec digest clock is_digest start p planned some_events low in
      subst
        (λ x.
          (c : Checked) × (validate_batches (p.batches ++ x ∷ []) start ≡ ok c)
          × (c.next ≡ p.expected)
          × (c.previous ≡ some x.sha256))
        same
        (
          record {
            next = p.expected;
            previous = some (digest p.raw);
            blob_count = saturating_add planned.made.blob_count (length (values p.blobs));
          },
          validate_batches-append p.batches (plan_of to_vec digest clock p ∷ []) start planned.made
                planned.checked
              ∙ rw one refl,
          refl,
          refl,
        )

  close_batch-IsPlanning :
      (start : Checked) (p q : Planning)
      → IsPlanning start p
      → p.expected ≤ max_platform_sequence + 1
      → close_batch to_vec digest clock p ≡ ok q
      → IsPlanning start q × (q.expected ≡ p.expected) × (length q.raw ≡ 0)
  unfolding close_batch validate_blobs
  close_batch-IsPlanning start p q planned low h =
      let (b, finished, h1) = >>=-eq-ok (finish_plan to_vec digest clock p) _ h in
      let (few, h2) = ensure-then (leb (length (p.batches ++ b ∷ [])) max_batch_plans) _ _ h1 in
      let (c, checked, next, previous) =
        finish_plan-validate_batches start p b planned low finished in
      let made : record p {
        batches = p.batches ++ b ∷ [];
        raw = [];
        count = 0;
        blobs = [];
        previous = some b.sha256;
      }
          ≡ q =
        cc h2 in
      subst (λ x. IsPlanning start x × (x.expected ≡ p.expected) × (length x.raw ≡ 0)) made
        (
          record {
            made = c;
            checked = checked;
            previous = previous;
            next = omega (arith, next);
            first = inl (refl, refl);
            small = omega arith;
            blobs = refl;
          },
          refl,
          refl,
        )

  gather-IsPlanning :
      (start : Checked) (e : EventEnvelope) (line : Bytes) (p q : Planning)
      → IsPlanning start p
      → e.sequence ≡ p.expected
      → validate_envelope e ≡ ok tt
      → 1 ≤ length line
      → length p.raw + length line ≤ default_batch_bytes
      → gather to_vec digest clock e line (record p { expected = p.expected + 1 }) ≡ ok q
      → IsPlanning start q × (q.expected ≡ p.expected + 1)
  unfolding gather
  gather-IsPlanning start e line p q planned next valid some_bytes fits h =
      let (blobs, added, h1) = >>=-eq-ok (add_blob_plan p.blobs e.raw) _ h in
      let made : record p {
        raw = p.raw ++ line;
        first_seq = (if p.count == 0 then e.sequence else p.first_seq);
        last_seq = e.sequence;
        count = p.count + 1;
        blobs = blobs;
        expected = p.expected + 1;
      }
          ≡ q =
        cc h1 in
      subst (λ x. IsPlanning start x × (x.expected ≡ p.expected + 1)) made
        (
          record {
            made = planned.made;
            checked = planned.checked;
            previous = planned.previous;
            next = omega (arith, planned.next);
            first = inr (
              elim planned.first [
                | inl (none_yet, empty) ↦ ground (arith, none_yet, next, planned.next)
                | inr (first, last, raw, some_count) ↦ ground (arith, first, next, planned.next)
              ],
              omega (arith, next),
              omega (arith, some_bytes, length-append p.raw line),
              omega arith,
            );
            small = omega (arith, fits, length-append p.raw line);
            blobs =
                add_blob_plan-validate_blobs p.blobs blobs e.raw (validate_envelope-payload e valid)
                  planned.blobs added;
          },
          refl,
        )

  -- There is room for the line, in the batch or in the next one.
  choice-IsPlanning :
      (start : Checked) (p r : Planning) (line : Bytes)
      → IsPlanning start p
      → p.expected ≤ max_platform_sequence + 1
      → length line ≤ default_batch_bytes
      → (if is_full to_vec digest clock p line then close_batch to_vec digest clock p else ok p)
        ≡ ok r
      → IsPlanning start r
        × (r.expected ≡ p.expected)
        × (length r.raw + length line ≤ default_batch_bytes)
  choice-IsPlanning start p r line planned low short h =
      elim (Bool-cases (is_full to_vec digest clock p line)) [
        | inl e ↦
            let (planned', same, empty) =
              close_batch-IsPlanning start p r planned low (ground (arith, e, h)) in
            (planned', same, omega (arith, empty, short))
        | inr e ↦
            let same : p ≡ r = ground (arith, e, h) in
            subst
              (λ x.
                IsPlanning start x
                × (x.expected ≡ p.expected)
                × (length x.raw + length line ≤ default_batch_bytes))
              same
              (
                planned,
                refl,
                elim planned.first [
                  | inl (none_yet, empty) ↦ omega (arith, empty, short)
                  | inr (first, last, raw, some_count) ↦ ground (arith, e, some_count)
                ],
              )
      ]

  plan_event-IsPlanning :
      (start : Checked) (e : EventEnvelope) (p q : Planning)
      → IsPlanning start p
      → p.expected ≤ max_platform_sequence + 1
      → validate_envelope e ≡ ok tt
      → plan_event to_vec digest clock e p ≡ ok q
      → IsPlanning start q × (q.expected ≡ p.expected + 1) × (e.sequence ≡ p.expected)
  unfolding plan_event
  plan_event-IsPlanning start e p q planned low valid h =
      let line : Bytes = to_vec e ++ newline ∷ [] in
      let (next, h1) = ensure-then (e.sequence == p.expected) _ _ h in
      let (within, h2) = ensure-then (ltb p.expected u64_max) _ _ h1 in
      let (short, h3) = ensure-then (leb (length line) default_batch_bytes) _ _ h2 in
      let (r, chosen, h4) =
        >>=-eq-ok
          (if is_full to_vec digest clock p line then close_batch to_vec digest clock p else ok p) _
          h3 in
      let some_bytes : 1 ≤ length line = omega (arith, length-append (to_vec e) (newline ∷ [])) in
      let (planned', same, fits) =
        choice-IsPlanning start p r line planned low (ground (arith, short)) chosen in
      let (planned'', more) =
        gather-IsPlanning start e line r q planned' (ground (arith, next, same)) valid some_bytes
          fits
          (subst (λ n. gather to_vec digest clock e line (record r { expected = n }) ≡ ok q)
            (ap (λ n. n + 1) (sym same)) h4) in
      (planned'', omega (arith, more, same), ground (arith, next))

  pub plan_events-IsPlanning :
      (start : Checked) (first last : ℕ) (events : List (Result UploadError EventEnvelope))
      (p q : Planning)
      → last ≤ max_platform_sequence
      → All IsValidEvent events
      → IsPlanning start p
      → p.expected ≤ last + 1
      → plan_events to_vec digest clock first last events p ≡ ok q
      → IsPlanning start q × (q.expected ≤ last + 1)
  unfolding plan_events
  plan_events-IsPlanning start first last [] p q low valid planned within h =
      let same : p ≡ q = cc h in
      subst (λ x. IsPlanning start x × (x.expected ≤ last + 1)) same (planned, within)
  plan_events-IsPlanning start first last (err failure ∷ events) p q low valid planned within h =
      absurd (cc h)
  plan_events-IsPlanning start first last (ok e ∷ events) p q low (one, valid) planned within h =
      elim (Bool-cases (ltb e.sequence first)) [
        | inl early ↦
            plan_events-IsPlanning start first last events p q low valid planned within
              (ground (arith, early, h))
        | inr later ↦ elim (Bool-cases (ltb last e.sequence)) [
          | inl beyond ↦
              let same : p ≡ q = ground (arith, later, beyond, h) in
              subst (λ x. IsPlanning start x × (x.expected ≤ last + 1)) same (planned, within)
          | inr inside ↦
              let taken : (plan_event to_vec digest clock e p
                    >>= (λ r. plan_events to_vec digest clock first last events r))
                  ≡ ok q =
                ground (arith, later, inside, h) in
              let (r, planned_one, rest) = >>=-eq-ok (plan_event to_vec digest clock e p) _ taken in
              let (planned', more, next) =
                plan_event-IsPlanning start e p r planned (omega (arith, within, low)) (one e refl)
                  planned_one in
              plan_events-IsPlanning start first last events r q low valid planned'
                (ground (arith, more, next, inside)) rest
        ]
      ]
