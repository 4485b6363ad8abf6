-- ===== src/Upload/Acked.antt =====
-- What the retention gate of src/upload.rs lets pass: every event of the run is in a batch that has been
-- acknowledged.
use inference_io.Prelude.{
  ℕ, ◌+◌, ◌-◌, ◌≤◌, ◌≡◌, ap, subst, Bool, true, false, List, [], ◌∷◌, Option, none, some, arith,
  leb, ltb, ◌==◌, if◌then◌else◌, inl, inr, All, Exists, ok, ◌>>=◌, ◌>>◌, ensure, ensure-then,
  length, >>=-eq-ok, Option-cases, dec_lt,
}
use inference_io.Bytes.{Bytes}
use inference_io.Upload.State.{
  UploadState, segment_limit_exceeded, max_recording_segments, Checked, validate_batches,
  validate_state_prefix, validate_identity, recording_id_for_segment, omit_sensitive_blob_plans,
}
use inference_io.Upload.Chain.{
  Spool, max_state_bytes, SegmentState, segment_of, load_segment, load_segments, load_segment_chain,
  place, sort_segments, check_chain, last_segment, all_complete, segment_chain_complete,
  parse_state, check_json,
}
use inference_io.Upload.Coverage.{IsIn, validate_batches-IsIn}

-- An event is in a batch of a segment that has been acknowledged.
abbrev pub IsAcked : ℕ → SegmentState → Type 0
IsAcked sequence s =
    Exists (λ b. IsIn sequence b × (b.last_seq ≤ s.state.acked_seq)) s.state.batches

-- Between the first and the last event of a segment's plan.
abbrev pub IsPlanned : ℕ → SegmentState → Type 0
IsPlanned sequence s = (s.state.first_seq ≤ sequence) × (sequence ≤ s.planned_seq)

Exists-All :
    {X : Type 0} (P Q R : X → Type 0) (xs : List X)
    → All P xs
    → Exists Q xs
    → ((x : X) → P x → Q x → R x)
    → Exists R xs
Exists-All P Q R [] ps qs f = absurd qs
Exists-All P Q R (x ∷ xs) (p, ps) (inl q) f = inl (f x p q)
Exists-All P Q R (x ∷ xs) (p, ps) (inr qs) f = inr (Exists-All P Q R xs ps qs f)

Exists-map :
    {X : Type 0} (Q R : X → Type 0) (xs : List X)
    → Exists Q xs
    → ((x : X) → Q x → R x)
    → Exists R xs
Exists-map Q R [] qs f = absurd qs
Exists-map Q R (x ∷ xs) (inl q) f = inl (f x q)
Exists-map Q R (x ∷ xs) (inr qs) f = inr (Exists-map Q R xs qs f)

-- An event of the chain is in one of its segments.
pub check_chain-IsPlanned :
    (segment first sequence : ℕ) (states : List SegmentState) {last : SegmentState}
    → check_chain segment first states ≡ ok tt
    → last_segment states ≡ some last
    → first ≤ sequence
    → sequence ≤ last.planned_seq
    → Exists (IsPlanned sequence) states
unfolding check_chain last_segment
check_chain-IsPlanned segment first sequence [] h e from to = absurd (cc e)
check_chain-IsPlanned segment first sequence (item ∷ []) {last} h e from to =
    let same : item ≡ last = cc e in
    inl (ground (arith, h, from), omega (arith, to, ap (λ s. s.planned_seq) same))
check_chain-IsPlanned segment first sequence (item ∷ other ∷ states) h e from to =
    elim (dec_lt item.planned_seq sequence) [
      | no here ↦ inl (ground (arith, h, from), omega (arith, here))
      | yes later ↦ inr (
          check_chain-IsPlanned (segment + 1) (item.planned_seq + 1) sequence (other ∷ states)
            (ground (arith, h)) e (omega (arith, later)) to)
    ]

all_complete-acked :
    (states : List SegmentState)
    → all_complete states ≡ true
    → All (λ s. s.state.acked_seq ≡ s.planned_seq) states
unfolding all_complete
all_complete-acked [] h = tt
all_complete-acked (s ∷ states) h =
    (ground (arith, h), all_complete-acked states (ground (arith, h)))

-- A state passes its check, with its plan's last event.
abbrev pub IsChecked : SegmentState → Type 0
IsChecked s =
    (run_id : Bytes) × (recording_id : Bytes) × (api_origin : Bytes) × (available_seq : ℕ)
    × (validate_state_prefix s.state run_id recording_id api_origin available_seq
        ≡ ok s.planned_seq)

validate_state_prefix-batches :
    (s : UploadState) (run_id recording_id api_origin : Bytes) (available_seq planned_seq : ℕ)
    → validate_state_prefix s run_id recording_id api_origin available_seq ≡ ok planned_seq
    → (c : Checked) × (validate_batches s.batches
          (record { next = s.first_seq; previous = none; blob_count = 0 })
        ≡ ok c)
      × (planned_seq ≡ c.next - 1)
unfolding validate_state_prefix
validate_state_prefix-batches s run_id recording_id api_origin available_seq planned_seq h =
    let (u, identity, rest) = >>=-eq-ok (validate_identity s run_id recording_id api_origin) _ h in
    let (c, checked, last) = >>=-eq-ok (validate_batches s.batches _) _ rest in
    (c, checked, ground (arith, last))

pub IsChecked-IsAcked :
    (s : SegmentState) (sequence : ℕ)
    → 1 ≤ sequence
    → IsChecked s
    → s.state.acked_seq ≡ s.planned_seq
    → IsPlanned sequence s
    → IsAcked sequence s
IsChecked-IsAcked s sequence positive (run_id, recording_id, api_origin, available_seq, h) acked
      (from, to) =
    let (c, checked, last) =
      validate_state_prefix-batches s.state run_id recording_id api_origin available_seq
        s.planned_seq h in
    Exists-map _ _ s.state.batches
      (validate_batches-IsIn s.state.batches _ c sequence checked from
        (omega (arith, to, last, positive)))
      (λ b. λ (is_in, below). (is_in, omega (arith, below, acked, last)))

pub IsPlanned-IsAcked :
    (sequence : ℕ) (states : List SegmentState)
    → 1 ≤ sequence
    → All IsChecked states
    → All (λ s. s.state.acked_seq ≡ s.planned_seq) states
    → Exists (IsPlanned sequence) states
    → Exists (IsAcked sequence) states
IsPlanned-IsAcked sequence states positive checked acked planned =
    Exists-All IsChecked (λ s. IsPlanned sequence s × (s.state.acked_seq ≡ s.planned_seq))
      (IsAcked sequence) states checked
      (Exists-All (λ s. s.state.acked_seq ≡ s.planned_seq) (IsPlanned sequence) _ states acked
        planned (λ s a p. (p, a)))
      (λ s valid (p, a). IsChecked-IsAcked s sequence positive valid a p)

All-if :
    (P : SegmentState → Type 0) (test : Bool) (xs ys : List SegmentState)
    → All P xs
    → All P ys
    → All P (if test then xs else ys)
All-if P true xs ys ps qs = ps
All-if P false xs ys ps qs = qs

All-place :
    (P : SegmentState → Type 0) (s : SegmentState) (states : List SegmentState)
    → P s
    → All P states
    → All P (place s states)
All-place P s [] p ps = (p, tt)
All-place P s (t ∷ states) p (q, ps) =
    All-if P (leb s.state.segment_no t.state.segment_no) (s ∷ t ∷ states) (t ∷ place s states)
      (p, (q, ps)) (q, All-place P s states p ps)

All-sort_segments :
    (P : SegmentState → Type 0) (states : List SegmentState)
    → All P states
    → All P (sort_segments states)
All-sort_segments P [] ps = tt
All-sort_segments P (s ∷ states) (p, ps) =
    All-place P s (sort_segments states) p (All-sort_segments P states ps)

module _ (digest : Bytes → Bytes) (from_slice : Bytes → Option UploadState)
    (api_origin run_id : Bytes) (available_seq : ℕ) where
  load_segment-IsChecked :
      (name : Bytes) (segment_no : ℕ) (text : Bytes) (s : SegmentState)
      → load_segment digest from_slice api_origin run_id available_seq name segment_no text ≡ ok s
      → IsChecked s
  unfolding load_segment
  load_segment-IsChecked name segment_no text s h =
      let (fits, h1) = ensure-then (leb (length text) max_state_bytes) _ _ h in
      let (v, simple, h2) = >>=-eq-ok (check_json text) _ h1 in
      let (parsed, read, h3) = >>=-eq-ok (parse_state digest from_slice text) _ h2 in
      let state = omit_sensitive_blob_plans parsed in
      let (numbered, h4) = ensure-then (state.segment_no == segment_no) _ _ h3 in
      let (planned_seq, valid, h5) =
        >>=-eq-ok
          (validate_state_prefix state run_id (recording_id_for_segment digest run_id segment_no)
            api_origin available_seq)
          _ h4 in
      let made : record {
        path = name;
        state = omit_sensitive_blob_plans parsed;
        planned_seq = planned_seq;
      }
          ≡ s =
        ground (arith, h5) in
      subst IsChecked made (
        run_id,
        recording_id_for_segment digest run_id segment_no,
        api_origin,
        available_seq,
        valid,
      )

  load_segments-IsChecked :
      (count : ℕ) (spool : Spool) (states : List SegmentState)
      → load_segments digest from_slice api_origin run_id available_seq count spool ≡ ok states
      → All IsChecked states
  unfolding load_segments
  load_segments-IsChecked count [] states h =
      let none_loaded : [] ≡ states = cc h in subst (All IsChecked) none_loaded tt
  load_segments-IsChecked count ((name, text) ∷ files) states h =
      let (found, is_found, rest) = >>=-eq-ok (segment_of digest from_slice api_origin name) _ h in
      elim (Option-cases found) [
        | inl e ↦ load_segments-IsChecked count files states (ground (arith, rest, e))
        | inr (segment_no, e) ↦
            let taken : (ensure (ltb count max_recording_segments) segment_limit_exceeded
                  >> (load_segment digest from_slice api_origin run_id available_seq name segment_no
                        text
                      >>= (λ s.
                          load_segments digest from_slice api_origin run_id available_seq
                            (count + 1) files
                          >>= (λ more. ok (s ∷ more)))))
                ≡ ok states =
              ground (arith, rest, e) in
            let (few, h1) = ensure-then (ltb count max_recording_segments) _ _ taken in
            let (s, loaded, h2) =
              >>=-eq-ok
                (load_segment digest from_slice api_origin run_id available_seq name segment_no
                  text)
                _ h1 in
            let (more, others, h3) =
              >>=-eq-ok
                (load_segments digest from_slice api_origin run_id available_seq (count + 1) files)
                _ h2 in
            let made : s ∷ more ≡ states = cc h3 in
            subst (All IsChecked) made (
              load_segment-IsChecked name segment_no text s loaded,
              load_segments-IsChecked (count + 1) files more others,
            )
      ]

  pub load_segment_chain-parts :
      (spool : Spool) (states : List SegmentState)
      → load_segment_chain digest from_slice api_origin run_id available_seq spool ≡ ok states
      → All IsChecked states × (check_chain 0 1 states ≡ ok tt)
  unfolding load_segment_chain
  load_segment_chain-parts spool states h =
      let (loaded, is_loaded, h1) =
        >>=-eq-ok (load_segments digest from_slice api_origin run_id available_seq 0 spool) _ h in
      let (u, chained, h2) = >>=-eq-ok (check_chain 0 1 (sort_segments loaded)) _ h1 in
      let made : sort_segments loaded ≡ states = cc h2 in
      (
        subst (All IsChecked) made
            (All-sort_segments IsChecked loaded (load_segments-IsChecked 0 spool loaded is_loaded)),
        subst (λ s. check_chain 0 1 s ≡ ok tt) made chained,
      )

  -- Of a chain that has been loaded and is complete.
  pub load_segment_chain-IsAcked :
      (spool : Spool) (states : List SegmentState) (final_seq sequence : ℕ)
      → load_segment_chain digest from_slice api_origin run_id available_seq spool ≡ ok states
      → segment_chain_complete states final_seq ≡ true
      → 1 ≤ sequence
      → sequence ≤ final_seq
      → Exists (IsAcked sequence) states
  unfolding segment_chain_complete
  load_segment_chain-IsAcked spool states final_seq sequence h complete positive below =
      let (checked, chained) = load_segment_chain-parts spool states h in
      elim (Option-cases (last_segment states)) [
        | inl e ↦ absurd (ground (arith, e, complete))
        | inr (last, e) ↦
            let acked = all_complete-acked states (ground (arith, e, complete)) in
            let ends : last.planned_seq ≡ final_seq = ground (arith, e, complete) in
            IsPlanned-IsAcked sequence states positive checked acked (
              check_chain-IsPlanned 0 1 sequence states chained e positive
                (omega (arith, below, ends)))
      ]
