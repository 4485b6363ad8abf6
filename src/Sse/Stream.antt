-- ===== src/Sse/Stream.antt =====
-- Whole streams through `push` of src/sse.rs: formatted events, the size limit, and a line end that
-- two chunks share.
use mathlib.Core.List.{append_assoc, append-nil}
use inference_io.Prelude.{
  ℕ, zero, suc, ◌≤◌, ◌<◌, ◌≡◌, refl, ◌∙◌, inl, inr, true, false, List, [], ◌∷◌, ◌++◌, map, none,
  some, arith, dec_lt, ltb, Bool-cases, Option-cases, length, take, drop, take-length_append,
  drop-length_append, length-append, length-drop, All,
}
use inference_io.Bytes.{Bytes, all}
use inference_io.Bytes.Utf8.{from_utf8}
use inference_io.Sse.Scan.{find_event_end, find_event_end-nil, find_event_end_bounds}
use inference_io.Sse.Event.{SseEvent, join_lines, parse_event}
use inference_io.Sse.Parser.{
  SseError, event_too_large, SseParser, new, Drained, too_large, drained, drain, drain_stop,
  drain_step, fail, settle, ok, err, push,
}
use inference_io.Sse.Format.{IsLine, encode, parse_event-encode, find_event_end-encode}

pub record Message : Type 0 where
  pub name : Bytes
  pub lines : List Bytes

abbrev pub wire : Message → Bytes
wire m = encode m.name m.lines

abbrev pub expected : Message → SseEvent
expected m = record {
  raw = wire m;
  event = some m.name;
  id = none;
  retry_ms = none;
  content = join_lines m.lines;
  valid_utf8 = all from_utf8 m.lines;
}

pub record IsMessage (max : ℕ) (m : Message) : Type 0 where
  pub name_line : IsLine m.name
  pub name_utf8 : from_utf8 m.name ≡ true
  pub data_lines : All IsLine m.lines
  pub fits : length (wire m) ≤ max

abbrev pub stream : List Message → Bytes
stream [] = []
stream (m ∷ ms) = wire m ++ stream ms

wire_pos : (m : Message) → 0 < length (wire m)
unfolding encode
wire_pos m = omega arith

-- A buffer that begins with a whole event within the limit.
pub drain_whole :
    (fuel max : ℕ) (output : List SseEvent) (whole rest : Bytes)
    → find_event_end (whole ++ rest) ≡ some (length whole)
    → length whole ≤ max
    → drain (suc fuel) max output (whole ++ rest)
      ≡ drain fuel max (output ++ parse_event whole ∷ []) rest
drain_whole fuel max output whole rest e fits =
    let small : ltb max (length whole) ≡ false = ground arith in
    drain_step fuel max output (whole ++ rest) (length whole) e
    ∙ rw small (rw (take-length_append whole rest, drop-length_append whole rest))

module _ (max : ℕ) where
  drain-stream :
      (fuel : ℕ) (output : List SseEvent) (ms : List Message)
      → length (stream ms) ≤ fuel
      → All (IsMessage max) ms
      → drain fuel max output (stream ms) ≡ drained (output ++ map expected ms) []
  drain-stream zero output [] le h = unfold drain in rw append-nil
  drain-stream (suc fuel) output [] le h =
      drain_stop fuel max output [] find_event_end-nil ∙ rw append-nil
  drain-stream zero output (m ∷ ms) le (h, hs) =
      absurd (omega (arith, wire_pos m, length-append (wire m) (stream ms)))
  drain-stream (suc fuel) output (m ∷ ms) le (h, hs) =
      drain_whole fuel max output (wire m) (stream ms)
        (find_event_end-encode m.name m.lines (stream ms) h.name_line h.data_lines) h.fits
      ∙ drain-stream fuel (output ++ parse_event (wire m) ∷ []) ms
          (omega (arith, wire_pos m, length-append (wire m) (stream ms))) hs
      ∙ rw (parse_event-encode m.name m.lines h.name_line h.name_utf8 h.data_lines)
          (rw (append_assoc output (expected m ∷ []) (map expected ms)))

-- A stream of formatted events, each within the limit, pushed at once comes back event by event,
-- each with its name and with its data lines joined by line feeds, and the buffer is empty again.
pub push-stream :
    (max : ℕ) (ms : List Message)
    → All (IsMessage max) ms
    → push (new max) (stream ms) ≡ (new max, ok (map expected ms))
unfolding push
push-stream max ms h =
    let small : ltb max 0 ≡ false = ground arith in
    rw (drain-stream max (length (stream ms)) [] ms (omega arith) h) (rw small)

-- The limit alone decides: input that fits it together with the buffer is never refused, and a
-- refusal empties the buffer and keeps the limit.
drain-total :
    (fuel max : ℕ) (output : List SseEvent) (buffer : Bytes)
    → length buffer ≤ max
    → (es : List SseEvent) × (left : Bytes) × (drain fuel max output buffer ≡ drained es left)
      × (length left ≤ length buffer)
drain-total zero max output buffer h = (output, buffer, unfold drain in refl, omega arith)
drain-total (suc fuel) max output buffer h = elim (Option-cases (find_event_end buffer)) [
  | inl e ↦ (output, buffer, drain_stop fuel max output buffer e, omega arith)
  | inr (end, e) ↦
      let bounds = find_event_end_bounds buffer end e in
      let small : ltb max end ≡ false = ground (arith, bounds) in
      let (es, left, runs, le) =
        drain-total fuel max (output ++ parse_event (take end buffer) ∷ []) (drop end buffer)
          (omega (arith, length-drop end buffer)) in
      (
        es,
        left,
        drain_step fuel max output buffer end e ∙ rw small runs,
        omega (arith, length-drop end buffer),
      )
]

push_lem :
    (p : SseParser) (bytes : Bytes)
    → settle p (drain (length (p.buffer ++ bytes)) p.max_event_bytes [] (p.buffer ++ bytes))
      ≡ push p bytes
unfolding push
push_lem p bytes = refl

fail_kept :
    (p q : SseParser) (e : SseError)
    → fail p ≡ (q, err e)
    → (q ≡ new p.max_event_bytes) × (e ≡ event_too_large p.max_event_bytes)
fail_kept p q e h = (cc, cc)

settle_fail :
    (p q : SseParser) (e : SseError) (d : Drained)
    → settle p d ≡ (q, err e)
    → (q ≡ new p.max_event_bytes) × (e ≡ event_too_large p.max_event_bytes)
settle_fail p q e too_large h = fail_kept p q e h
settle_fail p q e (drained output left) h =
    elim (Bool-cases (ltb p.max_event_bytes (length left))) [
      | inl large ↦ fail_kept p q e (rw large at h)
      | inr small ↦ cc (rw small at h)
    ]

-- Input that fits the limit together with the buffer is accepted.
push_within :
    (p : SseParser) (bytes : Bytes)
    → length (p.buffer ++ bytes) ≤ p.max_event_bytes
    → (q : SseParser) × (es : List SseEvent) × (push p bytes ≡ (q, ok es))
unfolding push
push_within p bytes h =
    let joined : Bytes = p.buffer ++ bytes in
    let (es, left, runs, le) = drain-total (length joined) p.max_event_bytes [] joined h in
    let small : ltb p.max_event_bytes (length left) ≡ false = ground arith in
    (record p { buffer = left }, es, rw runs (rw small))

-- A push fails only on input that exceeds the limit together with the buffer; it then names the
-- limit, and leaves an empty parser with the same limit.
pub push_refuses :
    (p q : SseParser) (bytes : Bytes) (e : SseError)
    → push p bytes ≡ (q, err e)
    → (q ≡ new p.max_event_bytes)
      × (e ≡ event_too_large p.max_event_bytes)
      × (p.max_event_bytes < length (p.buffer ++ bytes))
push_refuses p q bytes e h =
    let joined : Bytes = p.buffer ++ bytes in
    let (emptied, named) =
      settle_fail p q e (drain (length joined) p.max_event_bytes [] joined)
        (push_lem p bytes ∙ h) in
    elim (dec_lt p.max_event_bytes (length joined)) [
      | yes large ↦ (emptied, named, large)
      | no small ↦
          let (r, es, accepted) = push_within p bytes (omega arith) in absurd (cc (accepted, h))
    ]
