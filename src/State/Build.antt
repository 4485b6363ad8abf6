-- ===== src/State/Build.antt =====
-- The graph that analyze_with_key_and_limit (src/state.rs) builds from what it has observed.
use inference_io.Prelude.{
  ℕ, Bool, true, List, [], ◌∷◌, ◌++◌, ◌&&◌, Option, none, some, leb, if◌then◌else◌, length,
  saturating_add,
}
use inference_io.Bytes.{Bytes, ascii, bytes_eq}
use inference_io.Bytes.Map.{Map, contains_key, insert, or_insert, lookup}
use inference_io.State.Observe.{
  Event, Reference, Observed, observe_all, nothing_observed, max_state_tracked_items,
}

pub record StateNode : Type 0 where
  pub id : Bytes
  pub kind : Bytes
  pub observed : Bool
  pub first_sequence : ℕ

-- `from` and `to` of the source.
pub record StateEdge : Type 0 where
  pub source : Bytes
  pub target : Bytes
  pub relation : Bytes
  pub inference_id : Option Bytes

pub record StateGraph : Type 0 where
  pub nodes : Map StateNode
  pub edges : Map StateEdge
  pub unresolved : List Bytes
  pub analysis_truncated : Bool
  pub omitted_observations : ℕ

abbrev pub node_key : Bytes → Bytes → Bytes
node_key kind id = kind ++ (ascii ":" ++ id)

abbrev pub response_node : Bytes → ℕ → StateNode
response_node id sequence = record {
  id = id;
  kind = ascii "response";
  observed = true;
  first_sequence = sequence;
}

unfoldable pub response_nodes : Map ℕ → Map StateNode → Map StateNode
response_nodes [] nodes = nodes
response_nodes ((id, sequence) ∷ rest) nodes =
    response_nodes rest (insert (node_key (ascii "response") id) (response_node id sequence) nodes)

abbrev pub relation_of : Bytes → Bytes
relation_of kind =
    if bytes_eq kind (ascii "response")
    then ascii "previous_response"
    else if bytes_eq kind (ascii "conversation")
    then ascii "conversation_state"
    else if bytes_eq kind (ascii "cached_content")
    then ascii "cached_content"
    else ascii "reference"

unfoldable pub target_of : Map Bytes → Reference → Bytes
target_of targets r = elim (lookup r.inference_id targets) [
  | none ↦ ascii "inference:" ++ r.inference_id
  | some response ↦ node_key (ascii "response") response
]

abbrev pub edge_key : Bytes → Bytes → Bytes → Bytes
edge_key source target relation = source ++ (0 ∷ target ++ (0 ∷ relation))

unfoldable pub add_reference :
    Map Bytes → Reference → Map StateNode × Map StateEdge → Map StateNode × Map StateEdge
add_reference targets r (nodes, edges) =
    let key = node_key r.kind r.id in
    let observed = bytes_eq r.kind (ascii "response") && contains_key key nodes in
    let target = target_of targets r in
    let relation = relation_of r.kind in
    (
      or_insert target
          (record {
            id = r.inference_id;
            kind = ascii "inference";
            observed = true;
            first_sequence = r.sequence;
          })
          (or_insert key
            (record { id = r.id; kind = r.kind; observed = observed; first_sequence = r.sequence })
            nodes),
      or_insert (edge_key key target relation)
          (record {
            source = key;
            target = target;
            relation = relation;
            inference_id = some r.inference_id;
          })
          edges,
    )

unfoldable pub add_references :
    Map Bytes → List Reference → Map StateNode × Map StateEdge → Map StateNode × Map StateEdge
add_references targets [] graph = graph
add_references targets (r ∷ references) graph =
    add_references targets references (add_reference targets r graph)

unfoldable pub unresolved_of : Map StateNode → List Bytes
unresolved_of [] = []
unresolved_of ((key, node) ∷ nodes) =
    if node.observed then unresolved_of nodes else key ∷ unresolved_of nodes

unfoldable pub graph_of : Observed → StateGraph
graph_of s =
    let (nodes, edges) =
      add_references s.inference_targets s.references (response_nodes s.response_nodes [], []) in
    record {
      nodes = nodes;
      edges = edges;
      unresolved = unresolved_of nodes;
      analysis_truncated = s.analysis_truncated;
      omitted_observations = s.omitted_observations;
    }

unfoldable pub analyze_with_limit : ℕ → List Event → StateGraph
analyze_with_limit limit events = graph_of (observe_all limit events nothing_observed)

-- `analyze_with_key`.
abbrev pub analyze : List Event → StateGraph
analyze = analyze_with_limit max_state_tracked_items

unfoldable pub unresolved_count : StateGraph → ℕ
unresolved_count graph =
    let at_least_one = if leb graph.omitted_observations 1 then 1 else graph.omitted_observations in
    if graph.analysis_truncated
    then saturating_add (length graph.unresolved) at_least_one
    else length graph.unresolved
