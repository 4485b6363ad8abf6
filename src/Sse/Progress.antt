-- ===== src/Sse/Progress.antt =====
-- What `push` of src/sse.rs does to the bytes: none is lost, added or moved.
use mathlib.Core.List.{append_assoc, append-nil}
use inference_io.Prelude.{
  ℕ, zero, suc, ◌≤◌, ◌≡◌, refl, sym, ◌∙◌, inl, inr, false, List, [], ◌∷◌, ◌++◌, none, some, arith,
  ltb, Bool-cases, Option-cases, length, take, drop, take-append-drop, length-drop, length-take_le,
  All, All-append,
}
use inference_io.Sse.Scan.{
  find_event_end, find_event_end-nil, find_event_end_bounds, find_event_end-take,
}
use inference_io.Sse.Event.{SseEvent, parse_event}
use inference_io.Sse.Parser.{
  SseParser, Drained, too_large, drained, drain, drain_stop, drain_step, settle, Pushed, ok, push,
}

-- The bytes of the events, in order.
abbrev pub raws : List SseEvent → List ℕ
raws [] = []
raws (e ∷ es) = e.raw ++ raws es

pub raws-append : (xs ys : List SseEvent) → raws (xs ++ ys) ≡ raws xs ++ raws ys
raws-append [] ys = refl
raws-append (x ∷ xs) ys = rw (raws-append xs ys) (sym (append_assoc x.raw (raws xs) (raws ys)))

-- An event of a stream: read from its own bytes, which are one event and fit the limit.
pub record IsComplete (max : ℕ) (e : SseEvent) : Type 0 where
  pub parsed : e ≡ parse_event e.raw
  pub one_event : find_event_end e.raw ≡ some (length e.raw)
  pub fits : length e.raw ≤ max

-- A drained buffer holds no further end, and what came out is what went in.
pub record IsDrain (max : ℕ) (output : List SseEvent) (buffer : List ℕ) (es : List SseEvent)
    (left : List ℕ) : Type 0 where
  pub exhausted : find_event_end left ≡ none
  pub conserved : raws es ++ left ≡ raws output ++ buffer
  pub complete : All (IsComplete max) es

raw-parse_event : (raw : List ℕ) → (parse_event raw).raw ≡ raw
unfolding parse_event
raw-parse_event raw = refl

-- One round: the event that is taken off the buffer.
module _ (max : ℕ) (output : List SseEvent) (buffer : List ℕ) (end : ℕ) where
  abbrev output' : List SseEvent
  output' = output ++ parse_event (take end buffer) ∷ []

  taken-IsComplete :
      find_event_end buffer ≡ some end
      → ltb max end ≡ false
      → IsComplete max (parse_event (take end buffer))
  unfolding parse_event
  taken-IsComplete h small =
      let size : length (take end buffer) ≡ end =
        length-take_le end buffer (find_event_end_bounds buffer end h).1 in
      record {
        parsed = refl;
        one_event = rw size (find_event_end-take buffer end h);
        fits = rw size (ground arith);
      }

  round_conserves : raws output' ++ drop end buffer ≡ raws output ++ buffer
  round_conserves = rw (raws-append output (parse_event (take end buffer) ∷ [])) (
      rw (raw-parse_event (take end buffer))
        (rw (append-nil, append_assoc, take-append-drop end buffer)))

  rest_shorter :
      (fuel : ℕ)
      → find_event_end buffer ≡ some end
      → length buffer ≤ suc fuel
      → length (drop end buffer) ≤ fuel
  rest_shorter fuel h le = omega (arith, length-drop end buffer, find_event_end_bounds buffer end h)

module _ (max : ℕ) where
  stop-IsDrain :
      (output : List SseEvent) (buffer : List ℕ) (es : List SseEvent) (left : List ℕ)
      → find_event_end buffer ≡ none
      → All (IsComplete max) output
      → drained output buffer ≡ drained es left
      → IsDrain max output buffer es left
  stop-IsDrain output buffer es left none_found done h =
      let same_events : es ≡ output = cc in
      let same_left : left ≡ buffer = cc in
      rw (same_events, same_left)
        (record { exhausted = none_found; conserved = refl; complete = done })

  pub drain-IsDrain :
      (fuel : ℕ) (output : List SseEvent) (buffer : List ℕ) (es : List SseEvent) (left : List ℕ)
      → length buffer ≤ fuel
      → All (IsComplete max) output
      → drain fuel max output buffer ≡ drained es left
      → IsDrain max output buffer es left
  drain-IsDrain zero output [] es left le done h =
      stop-IsDrain output [] es left find_event_end-nil done (unfold drain in h)
  drain-IsDrain zero output (b ∷ buffer) es left le done h = absurd (omega arith)
  drain-IsDrain (suc fuel) output buffer es left le done h =
      elim (Option-cases (find_event_end buffer)) [
        | inl e ↦
            stop-IsDrain output buffer es left e done
              (sym (drain_stop fuel max output buffer e) ∙ h)
        | inr (end, e) ↦ elim (Bool-cases (ltb max end)) [
          | inl large ↦ absurd (cc (drain_step fuel max output buffer end e, h, large))
          | inr small ↦
              let next : IsDrain max (output ++ parse_event (take end buffer) ∷ [])
                  (drop end buffer) es left =
                drain-IsDrain fuel (output ++ parse_event (take end buffer) ∷ []) (drop end buffer)
                  es left (rest_shorter max output buffer end fuel e le)
                  (All-append (IsComplete max) output (parse_event (take end buffer) ∷ []) done
                    (taken-IsComplete max output buffer end e small, tt))
                  (rw small at (sym (drain_step fuel max output buffer end e) ∙ h)) in
              record {
                exhausted = next.exhausted;
                conserved = next.conserved ∙ round_conserves max output buffer end;
                complete = next.complete;
              }
        ]
      ]

-- What a successful `push` leaves and returns.
pub record IsPush (p : SseParser) (bytes : List ℕ) (q : SseParser) (es : List SseEvent)
    : Type 0 where
  pub conserved : raws es ++ q.buffer ≡ p.buffer ++ bytes
  pub exhausted : find_event_end q.buffer ≡ none
  pub bounded : length q.buffer ≤ p.max_event_bytes
  pub same_limit : q.max_event_bytes ≡ p.max_event_bytes
  pub complete : All (IsComplete p.max_event_bytes) es

kept :
    (p q : SseParser) (buffer : List ℕ) (output es : List SseEvent)
    → ◌≡◌ {A = SseParser × Pushed} (record p { buffer = buffer }, ok output) (q, ok es)
    → (q ≡ record p { buffer = buffer }) × (es ≡ output)
kept p q buffer output es h = (cc, cc)

settle-IsPush :
    (p : SseParser) (bytes : List ℕ) (q : SseParser) (es : List SseEvent) (d : Drained)
    → drain (length (p.buffer ++ bytes)) p.max_event_bytes [] (p.buffer ++ bytes) ≡ d
    → settle p d ≡ (q, ok es)
    → IsPush p bytes q es
settle-IsPush p bytes q es too_large e h = cc
settle-IsPush p bytes q es (drained output buffer) e h =
    elim (Bool-cases (ltb p.max_event_bytes (length buffer))) [
      | inl large ↦ cc (rw large at h)
      | inr small ↦
          let d : IsDrain p.max_event_bytes [] (p.buffer ++ bytes) output buffer =
            drain-IsDrain p.max_event_bytes (length (p.buffer ++ bytes)) [] (p.buffer ++ bytes)
              output buffer (omega arith) tt e in
          let fits : length buffer ≤ p.max_event_bytes = ground arith in
          let (same_state, same_events) = kept p q buffer output es (rw small at h) in
          rw (same_state, same_events)
            (record {
              conserved = d.conserved;
              exhausted = d.exhausted;
              bounded = fits;
              same_limit = refl;
              complete = d.complete;
            })
    ]

-- After a successful push the raw bytes of the events, followed by the new buffer, are the old
-- buffer followed by the bytes pushed; the buffer holds no complete event and fits the limit; and
-- each event is parsed from its raw bytes, which are exactly one event and fit the limit.
pub push-IsPush :
    (p : SseParser) (bytes : List ℕ) (q : SseParser) (es : List SseEvent)
    → push p bytes ≡ (q, ok es)
    → IsPush p bytes q es
unfolding push
push-IsPush p bytes q es h =
    settle-IsPush p bytes q es
      (drain (length (p.buffer ++ bytes)) p.max_event_bytes [] (p.buffer ++ bytes)) refl h
