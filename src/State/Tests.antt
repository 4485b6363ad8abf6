-- ===== src/State/Tests.antt =====
-- Runs of the analysis of src/state.rs, and its theorems at a concrete run.
use inference_io.Prelude.{
  ◌≤◌, ◌≡◌, ◌↔◌, refl, true, some, List, [], ◌∷◌, All, length, saturating_add,
}
use inference_io.Bytes.{Bytes, ascii}
use inference_io.Bytes.Map.{lookup, insert, or_insert, contains_key}
use inference_io.Json.{Value, object, string, entry, no_fields, get, find_field, as_str}
use inference_io.State.Observe.{
  Event, observe_all, nothing_observed, push_text, observe_summary, observe_semantic,
  observe_inference, observe_response, observe_target, observe_response_id,
}
use inference_io.State.Build.{
  node_key, analyze_with_limit, graph_of, add_references, add_reference, response_nodes, target_of,
  unresolved_of, unresolved_count,
}
use inference_io.State.Account.{analyze-IsAccounted}
use inference_io.State.Closed.{IsJoined, IsSeen, analyze-IsJoined, analyze-IsSeen}

abbrev field : Bytes → Value → Value
field key value = object (entry key value no_fields)

-- A request that refers to a response of another run, and the response to it.
abbrev events : List Event
events =
    record {
      source = ascii "proxy";
      event = ascii "logical_inference_request";
      inference_id = some (ascii "i1");
      sequence = 1;
      normalized =
          some
            (field (ascii "summary") (field (ascii "previous_response_id") (string (ascii "r0"))));
    }
    ∷ record {
      source = ascii "proxy";
      event = ascii "sse_event";
      inference_id = some (ascii "i1");
      sequence = 2;
      normalized =
          some (field (ascii "semantic") (field (ascii "response_id") (string (ascii "r1"))));
    }
    ∷ []

engine : Unit {0}
unfolding observe_all push_text observe_summary observe_semantic observe_inference observe_response
    observe_target observe_response_id analyze_with_limit graph_of add_references add_reference
    response_nodes target_of unresolved_of unresolved_count lookup insert or_insert contains_key get
    find_field as_str saturating_add
engine = tt

missing_response : (analyze_with_limit 10 events).unresolved ≡ ascii "response:r0" ∷ []
unfolding engine
missing_response = refl

one_unresolved : unresolved_count (analyze_with_limit 10 events) ≡ 1
unfolding engine
one_unresolved = refl

omitted_count : (analyze_with_limit 0 events).omitted_observations ≡ 3
unfolding engine
omitted_count = refl

seen : contains_key (ascii "r1") (observe_all 10 events nothing_observed).response_nodes ≡ true
unfolding engine
seen = refl

analyze-IsSeen_example :
    IsSeen (node_key (ascii "response") (ascii "r1")) (analyze_with_limit 10 events).nodes
analyze-IsSeen_example = analyze-IsSeen 10 events (ascii "r1") seen

analyze-IsJoined_example :
    All (IsJoined (analyze_with_limit 10 events).nodes) (analyze_with_limit 10 events).edges
analyze-IsJoined_example = analyze-IsJoined 10 events

analyze-IsAccounted_example :
    (length (observe_all 1 events nothing_observed).references ≤ 1)
    × (length (observe_all 1 events nothing_observed).response_nodes ≤ 1)
    × (length (observe_all 1 events nothing_observed).inference_targets ≤ 1)
    × ((analyze_with_limit 1 events).analysis_truncated ≡ true
        ↔ 1 ≤ (analyze_with_limit 1 events).omitted_observations)
analyze-IsAccounted_example = analyze-IsAccounted 1 events
