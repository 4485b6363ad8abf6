-- ===== src/Sse/Drain.antt =====
-- The loop of `push` of src/sse.rs: its fuel, and its buffer in two parts.
use mathlib.Core.List.{append_assoc}
use inference_io.Prelude.{
  ℕ, zero, suc, ◌≤◌, ◌≡◌, refl, sym, ap, ◌∙◌, inl, inr, false, List, [], ◌∷◌, ◌++◌, some, arith,
  ltb, if◌then◌else◌, Bool-cases, Option-cases, length, take, drop, length-append, length-drop,
  take-append_le, drop-append_le,
}
use inference_io.Sse.Scan.{find_event_end, find_event_end_bounds, find_event_end-append, ends_in_cr}
use inference_io.Sse.Event.{SseEvent, parse_event}
use inference_io.Sse.Parser.{Drained, too_large, drained, drain, drain_stop, drain_step}

pub ends_in_cr-drop :
    (n : ℕ) (bytes : List ℕ) → ends_in_cr bytes ≡ false → ends_in_cr (drop n bytes) ≡ false
ends_in_cr-drop zero bytes h = h
ends_in_cr-drop (suc n) [] h = h
ends_in_cr-drop (suc zero) (b ∷ []) h = refl
ends_in_cr-drop (suc (suc n)) (b ∷ []) h = refl
ends_in_cr-drop (suc n) (b ∷ c ∷ bytes) h = ends_in_cr-drop n (c ∷ bytes) h

abbrev pub step_output : List SseEvent → List ℕ → ℕ → List SseEvent
step_output output buffer end = output ++ parse_event (take end buffer) ∷ []

pub shorter :
    (buffer : List ℕ) (end fuel : ℕ)
    → find_event_end buffer ≡ some end
    → length buffer ≤ suc fuel
    → length (drop end buffer) ≤ fuel
shorter buffer end fuel e le =
    omega (arith, length-drop end buffer, find_event_end_bounds buffer end e)

-- Fuel beyond the length of the buffer changes nothing.
pub drain_fuel :
    (f g max : ℕ) (output : List SseEvent) (buffer : List ℕ)
    → length buffer ≤ f
    → length buffer ≤ g
    → drain f max output buffer ≡ drain g max output buffer
drain_fuel zero zero max output buffer hf hg = refl
drain_fuel zero (suc g) max output [] hf hg =
    unfold drain in sym (drain_stop g max output [] (unfold find_event_end in refl))
drain_fuel (suc f) zero max output [] hf hg =
    unfold drain in drain_stop f max output [] (unfold find_event_end in refl)
drain_fuel zero (suc g) max output (b ∷ buffer) hf hg = absurd (omega arith)
drain_fuel (suc f) zero max output (b ∷ buffer) hf hg = absurd (omega arith)
drain_fuel (suc f) (suc g) max output buffer hf hg = elim (Option-cases (find_event_end buffer)) [
  | inl e ↦ drain_stop f max output buffer e ∙ sym (drain_stop g max output buffer e)
  | inr (end, e) ↦
      drain_step f max output buffer end e
      ∙ ap (λ d. if ltb max end then too_large else d)
          (drain_fuel f g max (step_output output buffer end) (drop end buffer)
            (shorter buffer end f e hf) (shorter buffer end g e hg))
      ∙ sym (drain_step g max output buffer end e)
]

-- What came out before stays in front.
abbrev pub after_events : List SseEvent → Drained → Drained
after_events es too_large = too_large
after_events es (drained output left) = drained (es ++ output) left

after_events-if :
    (es : List SseEvent) (max end : ℕ) (d : Drained)
    → after_events es (if ltb max end then too_large else d)
      ≡ (if ltb max end then too_large else after_events es d)
after_events-if es max end d = ground arith

pub drain-after_events :
    (f max : ℕ) (es output : List SseEvent) (buffer : List ℕ)
    → drain f max (es ++ output) buffer ≡ after_events es (drain f max output buffer)
drain-after_events zero max es output buffer = unfold drain in refl
drain-after_events (suc f) max es output buffer = elim (Option-cases (find_event_end buffer)) [
  | inl e ↦ rw (drain_stop f max (es ++ output) buffer e, drain_stop f max output buffer e)
  | inr (end, e) ↦
      rw (drain_step f max (es ++ output) buffer end e, drain_step f max output buffer end e)
        (rw (append_assoc es output (parse_event (take end buffer) ∷ [])) (
          rw (drain-after_events f max es (step_output output buffer end) (drop end buffer)) (
            sym (
              after_events-if es max end
                (drain f max (step_output output buffer end) (drop end buffer))))))
]

-- Draining more bytes is draining them after what the first ones left.
abbrev pub then_drain : ℕ → List ℕ → Drained → Drained
then_drain max more too_large = too_large
then_drain max more (drained es left) = drain (length (left ++ more)) max es (left ++ more)

then_drain-if :
    (max end : ℕ) (more : List ℕ) (d : Drained)
    → then_drain max more (if ltb max end then too_large else d)
      ≡ (if ltb max end then too_large else then_drain max more d)
then_drain-if max end more d = elim (Bool-cases (ltb max end)) [ inl e ↦ rw e | inr e ↦ rw e ]

module _ (max : ℕ) (more : List ℕ) where
  -- A buffer with an event in front is stepped alike with more bytes behind it.
  drain_step-append :
      (f : ℕ) (output : List SseEvent) (buffer : List ℕ) (end : ℕ)
      → ends_in_cr buffer ≡ false
      → find_event_end buffer ≡ some end
      → drain (suc f) max output (buffer ++ more) ≡ (
          if ltb max end
          then too_large
          else drain f max (step_output output buffer end) (drop end buffer ++ more))
  drain_step-append f output buffer end c e =
      let fits : end ≤ length buffer = (find_event_end_bounds buffer end e).1 in
      drain_step f max output (buffer ++ more) end (find_event_end-append buffer more end c e)
      ∙ rw (take-append_le end buffer more fits, drop-append_le end buffer more fits)

  append_shorter :
      (f : ℕ) (buffer : List ℕ) (end : ℕ)
      → find_event_end buffer ≡ some end
      → length (buffer ++ more) ≤ suc f
      → length (drop end buffer ++ more) ≤ f
  append_shorter f buffer end e le = omega (
    arith,
    length-append buffer more,
    length-append (drop end buffer) more,
    length-drop end buffer,
    find_event_end_bounds buffer end e,
  )

  pub drain-then_drain :
      (g f : ℕ) (output : List SseEvent) (buffer : List ℕ)
      → ends_in_cr buffer ≡ false
      → length buffer ≤ g
      → length (buffer ++ more) ≤ f
      → drain f max output (buffer ++ more) ≡ then_drain max more (drain g max output buffer)
  drain-then_drain zero f output buffer c hg hf =
      unfold drain in
      drain_fuel f (length (buffer ++ more)) max output (buffer ++ more) hf (omega arith)
  drain-then_drain (suc g) zero output [] c hg hf =
      rw (drain_stop g max output [] (unfold find_event_end in refl))
        (drain_fuel zero (length more) max output more hf (omega arith))
  drain-then_drain (suc g) zero output (b ∷ buffer) c hg hf = absurd (omega arith)
  drain-then_drain (suc g) (suc f) output buffer c hg hf =
      elim (Option-cases (find_event_end buffer)) [
        | inl e ↦ rw (drain_stop g max output buffer e) (
            drain_fuel (suc f) (length (buffer ++ more)) max output (buffer ++ more) hf
              (omega arith))
        | inr (end, e) ↦
            drain_step-append f output buffer end c e
            ∙ ap (λ d. if ltb max end then too_large else d)
                (drain-then_drain g f (step_output output buffer end) (drop end buffer)
                  (ends_in_cr-drop end buffer c) (shorter buffer end g e hg)
                  (append_shorter f buffer end e hf))
            ∙ sym (
                then_drain-if max end more
                  (drain g max (step_output output buffer end) (drop end buffer)))
            ∙ ap (then_drain max more) (sym (drain_step g max output buffer end e))
      ]
