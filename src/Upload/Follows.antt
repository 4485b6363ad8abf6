-- ===== src/Upload/Follows.antt =====
-- Where an upload of src/upload.rs goes on, everything before has been acknowledged.
use inference_io.Prelude.{
  ℕ, ◌+◌, ◌≤◌, ◌<◌, ◌≡◌, sym, ap, subst, true, not, ◌||◌, List, [], ◌∷◌, Option, some, arith, ◌==◌,
  inl, inr, All, Exists, ok, >>=-eq-ok, Bool-cases, Option-cases, dec_lt,
}
use inference_io.Bytes.{Bytes}
use inference_io.Upload.State.{UploadState}
use inference_io.Upload.Chain.{
  Spool, SegmentState, SegmentCursor, check_chain, last_segment, load_segment_chain, cursor_after,
  select_segment_cursor,
}
use inference_io.Upload.Acked.{
  IsPlanned-IsAcked, check_chain-IsPlanned, IsAcked, IsChecked, IsChecked-IsAcked,
  load_segment_chain-parts,
}
use inference_io.Upload.Progress.{IsValid-parts}

-- What has been acknowledged of a chain, up to the first event of its last segment, or, if that is
-- sealed, up to the last.
check_chain-IsAcked :
    (segment first sequence : ℕ) (states : List SegmentState) {last : SegmentState}
    → check_chain segment first states ≡ ok tt
    → All IsChecked states
    → last_segment states ≡ some last
    → 1 ≤ sequence
    → first ≤ sequence
    → sequence < last.state.first_seq
    → Exists (IsAcked sequence) states
unfolding check_chain last_segment
check_chain-IsAcked segment first sequence [] h cs e positive from to = absurd (cc e)
check_chain-IsAcked segment first sequence (item ∷ []) {last} h cs e positive from to =
    let same : item ≡ last = cc e in
    absurd (ground (arith, h, from, to, ap (λ s. s.state.first_seq) same))
check_chain-IsAcked segment first sequence (item ∷ other ∷ states) h (c, cs) e positive from to =
    elim (dec_lt item.planned_seq sequence) [
      | no here ↦ inl (
          IsChecked-IsAcked item sequence positive c (ground (arith, h))
            (ground (arith, h, from), omega (arith, here)))
      | yes later ↦ inr (
          check_chain-IsAcked (segment + 1) (item.planned_seq + 1) sequence (other ∷ states)
            (ground (arith, h)) cs e positive (omega (arith, later)) to)
    ]

IsChecked-sealed :
    (s : SegmentState) → IsChecked s → s.state.sealed ≡ true → s.state.acked_seq ≡ s.planned_seq
IsChecked-sealed s (run_id, recording_id, api_origin, available_seq, h) sealed =
    let (planned, acked, done) =
      IsValid-parts run_id recording_id api_origin available_seq s.planned_seq s.state h in
    done sealed

check_chain-acked :
    (segment first : ℕ) (states : List SegmentState) {last : SegmentState}
    → check_chain segment first states ≡ ok tt
    → All IsChecked states
    → last_segment states ≡ some last
    → last.state.sealed ≡ true
    → All (λ s. s.state.acked_seq ≡ s.planned_seq) states
unfolding check_chain last_segment
check_chain-acked segment first [] h cs e sealed = tt
check_chain-acked segment first (item ∷ []) {last} h (c, cs) e sealed =
    let same : item ≡ last = cc e in
    (IsChecked-sealed item c (subst (λ s. s.state.sealed ≡ true) (sym same) sealed), tt)
check_chain-acked segment first (item ∷ other ∷ states) h (c, cs) e sealed = (
  ground (arith, h),
  check_chain-acked (segment + 1) (item.planned_seq + 1) (other ∷ states) (ground (arith, h)) cs e
      sealed,
)

module _ (digest : Bytes → Bytes) (from_slice : Bytes → Option UploadState)
    (api_origin run_id : Bytes) (available_seq : ℕ) where
  cursor_after-IsAcked :
      (states : List SegmentState) (cursor : SegmentCursor) (sequence : ℕ)
      → All IsChecked states
      → check_chain 0 1 states ≡ ok tt
      → cursor_after digest from_slice api_origin run_id available_seq (last_segment states)
        ≡ ok cursor
      → 1 ≤ sequence
      → sequence < cursor.first_seq
      → Exists (IsAcked sequence) states
  unfolding cursor_after
  cursor_after-IsAcked states cursor sequence checked chained h positive before =
      elim (Option-cases (last_segment states)) [
        | inl e ↦ absurd (ground (arith, e, h, positive, before))
        | inr (last, e) ↦
            elim (Bool-cases (not last.state.sealed || (last.planned_seq == available_seq))) [
              | inl stays ↦
                  check_chain-IsAcked 0 1 sequence states chained checked e positive positive
                    (ground (arith, e, stays, h, before))
              | inr onward ↦
                  let below : sequence ≤ last.planned_seq = ground (arith, e, onward, h, before) in
                  IsPlanned-IsAcked sequence states positive checked
                    (check_chain-acked 0 1 states chained checked e (ground (arith, onward)))
                    (check_chain-IsPlanned 0 1 sequence states chained e positive below)
            ]
      ]

  -- When select_segment_cursor gives a chain and where the upload goes on, every event before the first
  -- of that segment lies in a batch of the chain whose last event the platform has acknowledged.
  pub select_segment_cursor-IsAcked :
      (spool : Spool) (states : List SegmentState) (cursor : SegmentCursor) (sequence : ℕ)
      → select_segment_cursor digest from_slice api_origin run_id available_seq spool
        ≡ ok (states, cursor)
      → 1 ≤ sequence
      → sequence < cursor.first_seq
      → Exists (IsAcked sequence) states
  unfolding select_segment_cursor
  select_segment_cursor-IsAcked spool states cursor sequence h positive before =
      let (loaded, is_loaded, h1) =
        >>=-eq-ok (load_segment_chain digest from_slice api_origin run_id available_seq spool) _
          h in
      let (found, is_found, h2) =
        >>=-eq-ok
          (cursor_after digest from_slice api_origin run_id available_seq (last_segment loaded)) _
          h1 in
      let same_states : loaded ≡ states = cc h2 in
      let same_cursor : found ≡ cursor = cc h2 in
      let (checked, chained) =
        load_segment_chain-parts digest from_slice api_origin run_id available_seq spool loaded
          is_loaded in
      subst (Exists (IsAcked sequence)) same_states (
        cursor_after-IsAcked loaded found sequence checked chained is_found positive
          (subst (λ c. sequence < c.first_seq) (sym same_cursor) before))
