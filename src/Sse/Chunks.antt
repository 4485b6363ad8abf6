-- ===== src/Sse/Chunks.antt =====
-- `push` of src/sse.rs under another division of the stream into chunks.
use mathlib.Core.List.{append_assoc, append-nil}
use inference_io.Prelude.{
  ℕ, zero, suc, ◌≤◌, ◌<◌, ◌≡◌, refl, sym, ap, ◌∙◌, inl, inr, false, List, [], ◌∷◌, ◌++◌, none,
  arith, ltb, ltb→lt, lt→ltb, Bool-cases, Option-cases, length, drop, length-append,
}
use inference_io.Sse.Scan.{find_event_end, find_event_end_beyond, ends_in_cr}
use inference_io.Sse.Event.{SseEvent}
use inference_io.Sse.Drain.{
  ends_in_cr-drop, step_output, shorter, drain_fuel, after_events, drain-after_events, then_drain,
  drain-then_drain,
}
use inference_io.Sse.Parser.{
  SseParser, Drained, too_large, drained, drain, drain_stop, drain_step, fail, settle, Pushed, ok,
  err, push,
}

abbrev after_pushed : List SseEvent → SseParser × Pushed → SseParser × Pushed
after_pushed es (q, ok fs) = (q, ok (es ++ fs))
after_pushed es (q, err e) = (q, err e)

-- A caller that pushes a second chunk after a first one that was accepted.
abbrev pub then_push : List ℕ → SseParser × Pushed → SseParser × Pushed
then_push more (q, ok es) = after_pushed es (push q more)
then_push more (q, err e) = (q, err e)

settle-after_events :
    (p : SseParser) (es : List SseEvent) (d : Drained)
    → settle p (after_events es d) ≡ after_pushed es (settle p d)
settle-after_events p es too_large = refl
settle-after_events p es (drained output left) =
    elim (Bool-cases (ltb p.max_event_bytes (length left))) [ inl e ↦ rw e | inr e ↦ rw e ]

settle-buffer :
    (p : SseParser) (left : List ℕ) (d : Drained)
    → settle (record p { buffer = left }) d ≡ settle p d
settle-buffer p left too_large = refl
settle-buffer p left (drained output rest) = refl

-- What is left over ends as the buffer ended, and holds no event.
record IsLeft (left : List ℕ) : Type 0 where
  open_end : ends_in_cr left ≡ false
  no_event : find_event_end left ≡ none

stop-IsLeft :
    (output es : List SseEvent) (buffer left : List ℕ)
    → ends_in_cr buffer ≡ false
    → find_event_end buffer ≡ none
    → drained output buffer ≡ drained es left
    → IsLeft left
stop-IsLeft output es buffer left c e h =
    let same : left ≡ buffer = cc in rw same (record { open_end = c; no_event = e })

drain-IsLeft :
    (fuel max : ℕ) (output : List SseEvent) (buffer : List ℕ) (es : List SseEvent) (left : List ℕ)
    → ends_in_cr buffer ≡ false
    → length buffer ≤ fuel
    → drain fuel max output buffer ≡ drained es left
    → IsLeft left
drain-IsLeft zero max output [] es left c le h =
    stop-IsLeft output es [] left c (unfold find_event_end in refl) (unfold drain in h)
drain-IsLeft zero max output (b ∷ buffer) es left c le h = absurd (omega arith)
drain-IsLeft (suc fuel) max output buffer es left c le h =
    elim (Option-cases (find_event_end buffer)) [
      | inl e ↦
          stop-IsLeft output es buffer left c e (sym (drain_stop fuel max output buffer e) ∙ h)
      | inr (end, e) ↦ elim (Bool-cases (ltb max end)) [
        | inl large ↦ absurd (cc (drain_step fuel max output buffer end e, h, large))
        | inr small ↦
            drain-IsLeft fuel max (step_output output buffer end) (drop end buffer) es left
              (ends_in_cr-drop end buffer c) (shorter buffer end fuel e le)
              (rw small at (sym (drain_step fuel max output buffer end e) ∙ h))
      ]
    ]

-- What is left beyond the limit fails, whatever comes next.
settle_beyond :
    (p : SseParser) (es : List SseEvent) (left more : List ℕ)
    → IsLeft left
    → p.max_event_bytes < length left
    → settle p (drain (suc (length (left ++ more))) p.max_event_bytes es (left ++ more)) ≡ fail p
settle_beyond p es left more k large = elim (Option-cases (find_event_end (left ++ more))) [
  | inl e ↦ rw (drain_stop (length (left ++ more)) p.max_event_bytes es (left ++ more) e) (
      rw
        (lt→ltb p.max_event_bytes (length (left ++ more)) (omega (arith, length-append left more))))
  | inr (end, e) ↦
      rw (drain_step (length (left ++ more)) p.max_event_bytes es (left ++ more) end e) (
        rw (
          lt→ltb p.max_event_bytes end
            (omega (arith, find_event_end_beyond left more end k.open_end k.no_event e))))
]

drain_more_fuel :
    (max : ℕ) (es : List SseEvent) (buffer : List ℕ)
    → drain (length buffer) max es buffer ≡ drain (suc (length buffer)) max es buffer
drain_more_fuel max es buffer =
    drain_fuel (length buffer) (suc (length buffer)) max es buffer (omega arith) (omega arith)

push_left :
    (p : SseParser) (left more : List ℕ)
    → settle
        (record p { buffer = left })
        (drain (length (left ++ more)) p.max_event_bytes [] (left ++ more))
      ≡ push (record p { buffer = left }) more
unfolding push
push_left p left more = refl

settle-then_drain :
    (p : SseParser) (more : List ℕ) (d : Drained)
    → ((es : List SseEvent) (left : List ℕ) → d ≡ drained es left → IsLeft left)
    → settle p (then_drain p.max_event_bytes more d) ≡ then_push more (settle p d)
settle-then_drain p more too_large h = refl
settle-then_drain p more (drained es left) h =
    elim (Bool-cases (ltb p.max_event_bytes (length left))) [
      | inl large ↦ rw large (
          rw (drain_more_fuel p.max_event_bytes es (left ++ more)) (
            settle_beyond p es left more (h es left refl)
              (ltb→lt p.max_event_bytes (length left) large)))
      | inr small ↦
          let again : Drained = drain (length (left ++ more)) p.max_event_bytes [] (left ++ more) in
          rw small (
            ap (λ xs. settle p (drain (length (left ++ more)) p.max_event_bytes xs (left ++ more)))
              (sym (append-nil es))
            ∙ ap (settle p)
                (drain-after_events (length (left ++ more)) p.max_event_bytes es [] (left ++ more))
            ∙ settle-after_events p es again
            ∙ ap (after_pushed es) (sym (settle-buffer p left again) ∙ push_left p left more))
    ]

-- Pushing two chunks one after the other returns the events of pushing them at once and leaves the
-- same parser, and fails exactly when that fails, if the buffer with the first chunk does not end
-- in a carriage return.
pub push-append :
    (p : SseParser) (first more : List ℕ)
    → ends_in_cr (p.buffer ++ first) ≡ false
    → push p (first ++ more) ≡ then_push more (push p first)
unfolding push
push-append p first more c =
    let joined : List ℕ = p.buffer ++ first in
    let once : Drained = drain (length joined) p.max_event_bytes [] joined in
    ap (λ xs. settle p (drain (length xs) p.max_event_bytes [] xs))
      (sym (append_assoc p.buffer first more))
    ∙ ap (settle p) (
        drain-then_drain p.max_event_bytes more (length joined) (length (joined ++ more)) [] joined
          c (omega arith) (omega arith))
    ∙ settle-then_drain p more once (λ es left e.
      drain-IsLeft (length joined) p.max_event_bytes [] joined es left c (omega arith) e)
