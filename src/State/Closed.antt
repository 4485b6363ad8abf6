-- ===== src/State/Closed.antt =====
-- The graph of src/state.rs is closed, and a response that was observed is never unresolved.
use inference_io.Prelude.{
  ℕ, ◌≡◌, refl, subst, ◌∙◌, Bool, true, false, List, [], ◌∷◌, some, arith, if◌then◌else◌, All,
  Bool-cases, inl, inr, Option-cases,
}
use inference_io.Bytes.{Bytes, ascii, bytes_eq, bytes_eq_iff}
use inference_io.Bytes.Map.{
  Map, contains_key, insert, or_insert, lookup, lookup-insert_same, lookup-insert_other,
  lookup-or_insert_found, lookup-or_insert_present, All-insert,
}
use inference_io.State.Observe.{Event, Reference, observe_all, nothing_observed}
use inference_io.State.Build.{
  StateNode, StateEdge, node_key, response_node, response_nodes, target_of, add_reference,
  add_references, graph_of, analyze_with_limit,
}

contains_key-or_insert :
    {A : Type 0} (key other : Bytes) (value : A) (m : Map A)
    → contains_key key m ≡ true
    → contains_key key (or_insert other value m) ≡ true
unfolding contains_key
contains_key-or_insert key other value m h = elim (Option-cases (lookup key m)) [
  | inl e ↦ absurd (cc (e, h))
  | inr (found, e) ↦ ground (arith, lookup-or_insert_found key other value m e)
]

-- An edge whose ends are nodes.
abbrev pub IsJoined : Map StateNode → Bytes × StateEdge → Type 0
IsJoined nodes edge =
    (contains_key edge.1.source nodes ≡ true) × (contains_key edge.1.target nodes ≡ true)

All-IsJoined-or_insert :
    (key : Bytes) (node : StateNode) (nodes : Map StateNode) (edges : Map StateEdge)
    → All (IsJoined nodes) edges
    → All (IsJoined (or_insert key node nodes)) edges
All-IsJoined-or_insert key node nodes [] h = tt
All-IsJoined-or_insert key node nodes ((k, edge) ∷ edges) ((hs, ht), h) = (
  (
    contains_key-or_insert edge.source key node nodes hs,
    contains_key-or_insert edge.target key node nodes ht,
  ),
  All-IsJoined-or_insert key node nodes edges h,
)

All-or_insert :
    (Good : Bytes × StateEdge → Type 0) (key : Bytes) (edge : StateEdge) (edges : Map StateEdge)
    → Good (key, edge)
    → All Good edges
    → All Good (or_insert key edge edges)
unfolding or_insert
All-or_insert Good key edge edges g gs = go (contains_key key edges)
  where
    go : (b : Bool) → All Good (if b then edges else insert key edge edges)
    go true = gs
    go false = All-insert Good key edge edges g gs

add_reference-IsJoined :
    (targets : Map Bytes) (r : Reference) (nodes : Map StateNode) (edges : Map StateEdge)
    → All (IsJoined nodes) edges
    → All
        (IsJoined (add_reference targets r (nodes, edges)).0)
        (add_reference targets r (nodes, edges)).1
unfolding add_reference
add_reference-IsJoined targets r nodes edges h =
    All-or_insert _ _ _ edges
      (
        contains_key-or_insert (node_key r.kind r.id) (target_of targets r) _ _
            (lookup-or_insert_present (node_key r.kind r.id) _ nodes),
        lookup-or_insert_present (target_of targets r) _ _,
      )
      (All-IsJoined-or_insert (target_of targets r) _ _ edges
        (All-IsJoined-or_insert (node_key r.kind r.id) _ nodes edges h))

add_references-IsJoined :
    (targets : Map Bytes) (references : List Reference) (graph : Map StateNode × Map StateEdge)
    → All (IsJoined graph.0) graph.1
    → All
        (IsJoined (add_references targets references graph).0)
        (add_references targets references graph).1
unfolding add_references
add_references-IsJoined targets [] graph h = h
add_references-IsJoined targets (r ∷ references) (nodes, edges) h =
    add_references-IsJoined targets references (add_reference targets r (nodes, edges))
      (add_reference-IsJoined targets r nodes edges h)

-- In the graph of every list of events, at every limit, both ends of every edge are nodes.
pub analyze-IsJoined :
    (limit : ℕ) (events : List Event)
    → All (IsJoined (analyze_with_limit limit events).nodes) (analyze_with_limit limit events).edges
unfolding analyze_with_limit graph_of
analyze-IsJoined limit events = add_references-IsJoined _ _ (_, []) tt

-- A node that is there and was observed.
abbrev pub IsSeen : Bytes → Map StateNode → Type 0
IsSeen key nodes = (node : StateNode) × (lookup key nodes ≡ some node) × (node.observed ≡ true)

insert-IsSeen :
    (key other : Bytes) (node : StateNode) (nodes : Map StateNode)
    → node.observed ≡ true
    → IsSeen key nodes
    → IsSeen key (insert other node nodes)
insert-IsSeen key other node nodes seen (old, found, observed) =
    elim (Bool-cases (bytes_eq other key)) [
      | inl e ↦ (
        node,
        subst (λ k. lookup k (insert other node nodes) ≡ some node) ((bytes_eq_iff other key).0 e)
            (lookup-insert_same other node nodes),
        seen,
      )
      | inr e ↦ (old, lookup-insert_other key other node nodes e ∙ found, observed)
    ]

or_insert-IsSeen :
    (key other : Bytes) (node : StateNode) (nodes : Map StateNode)
    → IsSeen key nodes
    → IsSeen key (or_insert other node nodes)
or_insert-IsSeen key other node nodes (old, found, observed) =
    (old, lookup-or_insert_found key other node nodes found, observed)

response_nodes-IsSeen_old :
    (key : Bytes) (responses : Map ℕ) (nodes : Map StateNode)
    → IsSeen key nodes
    → IsSeen key (response_nodes responses nodes)
unfolding response_nodes
response_nodes-IsSeen_old key [] nodes h = h
response_nodes-IsSeen_old key ((id, sequence) ∷ rest) nodes h =
    response_nodes-IsSeen_old key rest _
      (insert-IsSeen key (node_key (ascii "response") id) _ nodes refl h)

response_nodes-IsSeen :
    (id : Bytes) (responses : Map ℕ) (nodes : Map StateNode)
    → contains_key id responses ≡ true
    → IsSeen (node_key (ascii "response") id) (response_nodes responses nodes)
unfolding response_nodes contains_key lookup
response_nodes-IsSeen id [] nodes h = absurd (cc h)
response_nodes-IsSeen id ((k, sequence) ∷ rest) nodes h = elim (Bool-cases (bytes_eq k id)) [
  | inl e ↦ response_nodes-IsSeen_old (node_key (ascii "response") id) rest _ (
      subst
        (λ t.
          IsSeen (node_key (ascii "response") t)
            (insert (node_key (ascii "response") k) (response_node k sequence) nodes))
        ((bytes_eq_iff k id).0 e)
        (
          response_node k sequence,
          lookup-insert_same (node_key (ascii "response") k) (response_node k sequence) nodes,
          refl,
        ))
  | inr e ↦ response_nodes-IsSeen id rest _ (ground (arith, e, h))
]

add_references-IsSeen :
    (key : Bytes) (targets : Map Bytes) (references : List Reference)
    (graph : Map StateNode × Map StateEdge)
    → IsSeen key graph.0
    → IsSeen key (add_references targets references graph).0
unfolding add_references add_reference
add_references-IsSeen key targets [] graph h = h
add_references-IsSeen key targets (r ∷ references) (nodes, edges) h =
    add_references-IsSeen key targets references _ (
      or_insert-IsSeen key (target_of targets r) _ _
        (or_insert-IsSeen key (node_key r.kind r.id) _ nodes h))

-- A response that the pass over the events has recorded is a node of the graph, marked as observed,
-- whatever refers to it.
pub analyze-IsSeen :
    (limit : ℕ) (events : List Event) (id : Bytes)
    → contains_key id (observe_all limit events nothing_observed).response_nodes ≡ true
    → IsSeen (node_key (ascii "response") id) (analyze_with_limit limit events).nodes
unfolding analyze_with_limit graph_of
analyze-IsSeen limit events id h =
    add_references-IsSeen (node_key (ascii "response") id) _ _ (_, [])
      (response_nodes-IsSeen id _ [] h)
