-- ===== src/State/Account.antt =====
-- What analyze_with_key_and_limit (src/state.rs) keeps within its limit and what it counts.
use inference_io.Prelude.{
  ℕ, ◌≤◌, ◌≡◌, ◌↔◌, refl, Bool, true, false, List, [], ◌∷◌, Option, none, some, arith,
  if◌then◌else◌, length, length-append, saturating_add, Bool-cases,
}
use inference_io.Bytes.{Bytes, ascii}
use inference_io.Bytes.Map.{length-insert_le}
use inference_io.Json.{Value}
use inference_io.State.Observe.{
  Event, Observed, nothing_observed, get_in, push_text, observe_response, observe_target,
  observe_summary, observe_response_id, observe_semantic, observe_inference, observe, observe_all,
  is_proxy_event,
}
use inference_io.State.Build.{graph_of, analyze_with_limit}

-- Within the limit, and truncated exactly when something was omitted.
abbrev pub IsAccounted : ℕ → Observed → Type 0
IsAccounted limit s =
    (length s.references ≤ limit)
    × (length s.response_nodes ≤ limit)
    × (length s.inference_targets ≤ limit)
    × (s.analysis_truncated ≡ false → s.omitted_observations ≡ 0)
    × (s.analysis_truncated ≡ true → 1 ≤ s.omitted_observations)

module _ (limit : ℕ) where
  push_text-IsAccounted :
      (kind : Bytes) (text : Option Bytes) (inference_id : Bytes) (sequence : ℕ) (s : Observed)
      → IsAccounted limit s
      → IsAccounted limit (push_text limit kind text inference_id sequence s)
  unfolding push_text saturating_add
  push_text-IsAccounted kind none inference_id sequence s h = h
  push_text-IsAccounted kind (some []) inference_id sequence s h = h
  push_text-IsAccounted kind (some (b ∷ bs)) inference_id sequence s h = ground (
    arith,
    h,
    length-append s.references (
        record { kind = kind; id = b ∷ bs; inference_id = inference_id; sequence = sequence } ∷ []),
  )

  observe_response-IsAccounted :
      (id : Bytes) (sequence : ℕ) (s : Observed)
      → IsAccounted limit s
      → IsAccounted limit (observe_response limit id sequence s)
  unfolding observe_response saturating_add
  observe_response-IsAccounted id sequence s h =
      ground (arith, h, length-insert_le id sequence s.response_nodes)

  observe_target-IsAccounted :
      (inference_id response : Bytes) (s : Observed)
      → IsAccounted limit s
      → IsAccounted limit (observe_target limit inference_id response s)
  unfolding observe_target saturating_add
  observe_target-IsAccounted inference_id response s h =
      ground (arith, h, length-insert_le inference_id response s.inference_targets)

  observe_summary-IsAccounted :
      (inference_id : Bytes) (sequence : ℕ) (summary : Option Value) (s : Observed)
      → IsAccounted limit s
      → IsAccounted limit (observe_summary limit inference_id sequence summary s)
  unfolding observe_summary
  observe_summary-IsAccounted inference_id sequence none s h = h
  observe_summary-IsAccounted inference_id sequence (some summary) s h =
      push_text-IsAccounted _ _ inference_id sequence _ (
        push_text-IsAccounted _ _ inference_id sequence _
          (push_text-IsAccounted _ _ inference_id sequence s h))

  observe_response_id-IsAccounted :
      (inference_id : Bytes) (sequence : ℕ) (response : Option Bytes) (s : Observed)
      → IsAccounted limit s
      → IsAccounted limit (observe_response_id limit inference_id sequence response s)
  unfolding observe_response_id
  observe_response_id-IsAccounted inference_id sequence none s h = h
  observe_response_id-IsAccounted inference_id sequence (some response) s h =
      observe_target-IsAccounted inference_id response (observe_response limit response sequence s)
        (observe_response-IsAccounted response sequence s h)

  observe_semantic-IsAccounted :
      (inference_id : Bytes) (sequence : ℕ) (semantic : Option Value) (s : Observed)
      → IsAccounted limit s
      → IsAccounted limit (observe_semantic limit inference_id sequence semantic s)
  unfolding observe_semantic
  observe_semantic-IsAccounted inference_id sequence none s h = h
  observe_semantic-IsAccounted inference_id sequence (some semantic) s h =
      push_text-IsAccounted _ _ inference_id sequence _
        (observe_response_id-IsAccounted inference_id sequence _ s h)

  if-IsAccounted :
      (b : Bool) (s t : Observed)
      → IsAccounted limit s
      → IsAccounted limit t
      → IsAccounted limit (if b then s else t)
  if-IsAccounted true s t hs ht = hs
  if-IsAccounted false s t hs ht = ht

  observe_inference-IsAccounted :
      (e : Event) (inference_id : Option Bytes) (s : Observed)
      → IsAccounted limit s
      → IsAccounted limit (observe_inference limit e inference_id s)
  unfolding observe_inference
  observe_inference-IsAccounted e none s h = h
  observe_inference-IsAccounted e (some inference_id) s h =
      let requested =
        if-IsAccounted (is_proxy_event (ascii "logical_inference_request") e) _ s
          (observe_summary-IsAccounted inference_id e.sequence
            (get_in (ascii "summary") e.normalized) s h)
          h in
      if-IsAccounted (is_proxy_event (ascii "sse_event") e) _ _
        (observe_semantic-IsAccounted inference_id e.sequence
          (get_in (ascii "semantic") e.normalized) _ requested)
        requested

  observe_all-IsAccounted :
      (events : List Event) (s : Observed)
      → IsAccounted limit s
      → IsAccounted limit (observe_all limit events s)
  unfolding observe_all
  observe_all-IsAccounted [] s h = h
  observe_all-IsAccounted (e ∷ events) s h =
      observe_all-IsAccounted events (observe limit e s)
        (observe_inference-IsAccounted e e.inference_id s h)

-- For every limit and every list of events, the analysis keeps at most that many references, responses
-- and targets, and its graph is marked as truncated exactly when it counts an omitted observation.
pub analyze-IsAccounted :
    (limit : ℕ) (events : List Event)
    → (length (observe_all limit events nothing_observed).references ≤ limit)
      × (length (observe_all limit events nothing_observed).response_nodes ≤ limit)
      × (length (observe_all limit events nothing_observed).inference_targets ≤ limit)
      × ((analyze_with_limit limit events).analysis_truncated ≡ true
          ↔ 1 ≤ (analyze_with_limit limit events).omitted_observations)
unfolding analyze_with_limit graph_of
analyze-IsAccounted limit events = ground (
  arith,
  observe_all-IsAccounted limit events nothing_observed
      (omega arith, omega arith, omega arith, (λ e. refl), (λ e. cc e)),
  Bool-cases (observe_all limit events nothing_observed).analysis_truncated,
)
