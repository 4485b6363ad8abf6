-- ===== src/Upload/Finish.antt =====
-- The loop over the batches of an upload of src/upload.rs.
use inference_io.Prelude.{
  ℕ, ◌+◌, ◌-◌, ◌≤◌, ◌≡◌, refl, sym, ◌∙◌, subst, Bool, true, false, List, [], ◌∷◌, Option, none,
  arith, leb, if◌then◌else◌, inl, inr, All, Result, err, ok, Result-cases,
}
use inference_io.Bytes.{Bytes}
use inference_io.Upload.State.{
  BatchPlan, UploadState, UploadError, five_minutes, Check, last_batch, last_seq_or,
  planned_sequence,
}
use inference_io.Upload.Remote.{BatchAck, Target, Uploading, reached, upload_batch, upload_batches}
use inference_io.Upload.Progress.{
  IsValid, IsValid-parts, IsValid-acked_from, IsAfter, IsTarget, upload_batch-IsAfter,
}

last_seq_or-le :
    (n first : ℕ) (batches : List BatchPlan)
    → first ≤ n
    → All (λ b. b.last_seq ≤ n) batches
    → last_seq_or first batches ≤ n
unfolding last_batch
last_seq_or-le n first [] h all = h
last_seq_or-le n first (b ∷ []) h (one, all) = one
last_seq_or-le n first (b ∷ c ∷ batches) h (one, all) = last_seq_or-le n first (c ∷ batches) h all

All-le_trans :
    (m n : ℕ) (batches : List BatchPlan)
    → m ≤ n
    → All (λ b. b.last_seq ≤ m) batches
    → All (λ b. b.last_seq ≤ n) batches
All-le_trans m n [] h all = tt
All-le_trans m n (b ∷ batches) h (one, all) =
    (omega (arith, h, one), All-le_trans m n batches h all)

module _ (run_id recording_id api_origin : Bytes) (available_seq : ℕ) where
  abbrev After : ℕ → UploadState → UploadState → Type 0
  After = IsAfter run_id recording_id api_origin available_seq

  IsAfter_trans : (p : ℕ) (s t u : UploadState) → After p s t → After p t u → After p s u
  IsAfter_trans p s t u a b = record {
    valid = b.valid;
    first_seq = b.first_seq ∙ a.first_seq;
    batches = b.batches ∙ a.batches;
    created_at = b.created_at ∙ a.created_at;
    no_less = omega (arith, a.no_less, b.no_less);
  }

  -- What an upload gives that goes on from a state: states after the first are written, and one is
  -- returned that has no less acknowledged, and all the batches if their number is not limited.
  abbrev pub IsUpload :
      Option ℕ → ℕ → UploadState → UploadState → List BatchPlan → Uploading → Type 0
  IsUpload maximum p first s batches u =
      All (After p first) u.written
      × ((t : UploadState)
          → u.outcome ≡ ok t
          → After p first t
            × (s.acked_seq ≤ t.acked_seq)
            × (maximum ≡ none → All (λ b. b.last_seq ≤ t.acked_seq) batches))

  if_IsUpload :
      (maximum : Option ℕ) (p : ℕ) (first s : UploadState) (batches : List BatchPlan) (test : Bool)
      (u v : Uploading)
      → (test ≡ true → IsUpload maximum p first s batches u)
      → (test ≡ false → IsUpload maximum p first s batches v)
      → IsUpload maximum p first s batches (if test then u else v)
  if_IsUpload maximum p first s batches true u v hu hv = hu refl
  if_IsUpload maximum p first s batches false u v hu hv = hv refl

  failed-IsUpload :
      (maximum : Option ℕ) (p : ℕ) (first s : UploadState) (batches : List BatchPlan)
      (written : List UploadState) (e : UploadError)
      → All (After p first) written
      → IsUpload maximum p first s batches (record { written = written; outcome = err e })
  failed-IsUpload maximum p first s batches written e ws = (ws, (λ t h. cc h))

  IsUpload-next :
      (maximum : Option ℕ) (p : ℕ) (first s t : UploadState) (b : BatchPlan)
      (batches : List BatchPlan) (u : Uploading)
      → s.acked_seq ≤ t.acked_seq
      → b.last_seq ≤ t.acked_seq
      → IsUpload maximum p first t batches u
      → IsUpload maximum p first s (b ∷ batches) u
  IsUpload-next maximum p first s t b batches u le done (ws, result) = (
    ws,
    (λ x h.
        let (after, more, all) = result x h in
        (after, omega (arith, le, more), (λ e. (omega (arith, done, more), all e)))),
  )

  returned-IsUpload :
      (maximum : Option ℕ) (p : ℕ) (first t : UploadState) (batches : List BatchPlan)
      (written : List UploadState)
      → After p first t
      → All (After p first) written
      → (maximum ≡ none → All (λ b. b.last_seq ≤ t.acked_seq) batches)
      → IsUpload maximum p first t batches (record { written = written; outcome = ok t })
  returned-IsUpload maximum p first t batches written after ws all = (
    ws,
    (λ x h.
        let same : t ≡ x = cc h in
        subst
          (λ y.
            After p first y
            × (t.acked_seq ≤ y.acked_seq)
            × (maximum ≡ none → All (λ b. b.last_seq ≤ y.acked_seq) batches))
          same (after, omega arith, all)),
  )

  module _ (read_batch : BatchPlan → Check)
      (exchange : UploadState → BatchPlan → Result UploadError BatchAck) (clock : UploadState → ℕ)
      (target : Target) where
    upload_batches-IsUpload :
        (p : ℕ) (maximum : Option ℕ) (uploaded : ℕ) (batches : List BatchPlan)
        (first s : UploadState) (written : List UploadState)
        → IsTarget target p
        → ((x : UploadState) → first.created_at ≤ clock x + five_minutes)
        → After p first s
        → All (After p first) written
        → IsUpload maximum p first s batches
            (upload_batches read_batch exchange clock target maximum uploaded batches s written)
    unfolding upload_batches
    upload_batches-IsUpload p maximum uploaded [] first s written is_target time after ws =
        returned-IsUpload maximum p first s [] written after ws (λ e. tt)
    upload_batches-IsUpload p maximum uploaded (b ∷ batches) first s written is_target time after
          ws =
        elim (Result-cases (read_batch b)) [
          | inr (e, r) ↦
              rw (r, upload_batches) (failed-IsUpload maximum p first s (b ∷ batches) written e ws)
          | inl (u, r) ↦
              rw (r, upload_batches)
                (if_IsUpload maximum p first s (b ∷ batches) (leb b.last_seq s.acked_seq) _ _
                  (λ old.
                    IsUpload-next maximum p first s s b batches _ (omega arith)
                      (ground (arith, old))
                      (upload_batches-IsUpload p maximum uploaded batches first s written is_target
                        time after ws))
                  (λ new. elim (Result-cases (upload_batch read_batch exchange clock target b s)) [
                    | inr (e, q) ↦
                        rw q (failed-IsUpload maximum p first s (b ∷ batches) written e ws)
                    | inl (t, q) ↦
                        let (next, done) =
                          upload_batch-IsAfter run_id recording_id api_origin available_seq
                            read_batch exchange clock target p s t b is_target
                            (subst (λ c. c ≤ clock s + five_minutes) (sym after.created_at)
                              (time s))
                            after.valid (ground (arith, new)) q in
                        let after' : After p first t = IsAfter_trans p first s t after next in
                        rw q (
                          IsUpload-next maximum p first s t b batches _ next.no_less done (
                            if_IsUpload maximum p first t batches (reached maximum (uploaded + 1)) _
                              _
                              (λ full.
                                returned-IsUpload maximum p first t batches (t ∷ written) after'
                                  (after', ws) (λ e. absurd (cc (e, full))))
                              (λ more.
                                upload_batches-IsUpload p maximum (uploaded + 1) batches first t
                                  (t ∷ written) is_target time after' (after', ws))))
                  ]))
        ]

    -- Let a state be valid, the upload's target be its plan's last event, and the clock be at most five
    -- minutes behind the state's creation. Whatever the platform answers, and wherever the upload fails or
    -- stops, each state that the loop writes to the spool is valid, has the same plan, and has no less
    -- acknowledged than the first; and when it does not fail and the number of its batches is not
    -- limited, the state that it returns has the whole plan acknowledged.
    pub upload_batches-whole :
        (p : ℕ) (maximum : Option ℕ) (s : UploadState)
        → IsValid run_id recording_id api_origin available_seq p s
        → IsTarget target p
        → ((x : UploadState) → s.created_at ≤ clock x + five_minutes)
        → (let u = upload_batches read_batch exchange clock target maximum 0 s.batches s [] in
            All (IsAfter run_id recording_id api_origin available_seq p s) u.written
            × ((t : UploadState) → u.outcome ≡ ok t → maximum ≡ none → t.acked_seq ≡ p))
    unfolding planned_sequence
    upload_batches-whole p maximum s valid is_target time =
        let here : After p s s = record {
          valid = valid;
          first_seq = refl;
          batches = refl;
          created_at = refl;
          no_less = omega arith;
        } in
        let (ws, result) =
          upload_batches-IsUpload p maximum 0 s.batches s s [] is_target time here tt in
        (
          ws,
          (λ t h e.
              let (after, more, all) = result t h in
              let (planned, acked, done) =
                IsValid-parts run_id recording_id api_origin available_seq p s valid in
              let (planned', acked', done') =
                IsValid-parts run_id recording_id api_origin available_seq p t after.valid in
              let low : s.first_seq - 1 ≤ t.acked_seq = omega (
                arith,
                more,
                IsValid-acked_from run_id recording_id api_origin available_seq p s valid,
              ) in
              omega (
                arith,
                acked',
                planned,
                last_seq_or-le t.acked_seq (s.first_seq - 1) s.batches low (all e),
              )),
        )
