-- ===== src/State/Observe.antt =====
-- The pass of analyze_with_key_and_limit (src/state.rs) over the events of a run.
use inference_io.Prelude.{
  ℕ, Bool, true, false, List, [], ◌∷◌, ◌++◌, ◌&&◌, Option, none, some, ltb, if◌then◌else◌, length,
  saturating_add,
}
use inference_io.Bytes.{Bytes, ascii, bytes_eq}
use inference_io.Bytes.Map.{Map, contains_key, insert}
use inference_io.Json.{Value, get, as_str}

-- The fields of an event that the analysis reads.
pub record Event : Type 0 where
  pub source : Bytes
  pub event : Bytes
  pub inference_id : Option Bytes
  pub sequence : ℕ
  pub normalized : Option Value

pub record Reference : Type 0 where
  pub kind : Bytes
  pub id : Bytes
  pub inference_id : Bytes
  pub sequence : ℕ

pub record Observed : Type 0 where
  pub response_nodes : Map ℕ
  pub inference_targets : Map Bytes
  pub references : List Reference
  pub analysis_truncated : Bool
  pub omitted_observations : ℕ

abbrev pub nothing_observed : Observed
nothing_observed = record {
  response_nodes = [];
  inference_targets = [];
  references = [];
  analysis_truncated = false;
  omitted_observations = 0;
}

abbrev pub max_state_tracked_items : ℕ
max_state_tracked_items = 100_000

abbrev pub note_omission : Observed → Observed
note_omission s = record s {
  analysis_truncated = true;
  omitted_observations = saturating_add s.omitted_observations 1;
}

-- `value.and_then(Value::as_str)`.
abbrev pub text_of : Option Value → Option Bytes
text_of none = none
text_of (some value) = as_str value

-- `value.get(key)` of a value that may be missing.
abbrev pub get_in : Bytes → Option Value → Option Value
get_in key none = none
get_in key (some value) = get key value

unfoldable pub push_text : ℕ → Bytes → Option Bytes → Bytes → ℕ → Observed → Observed
push_text limit kind none inference_id sequence s = s
push_text limit kind (some []) inference_id sequence s = s
push_text limit kind (some (b ∷ bs)) inference_id sequence s =
    let reference : Reference = record {
      kind = kind;
      id = b ∷ bs;
      inference_id = inference_id;
      sequence = sequence;
    } in
    if ltb (length s.references) limit
    then record s { references = s.references ++ reference ∷ [] }
    else note_omission s

abbrev pub push_reference : ℕ → Bytes → Option Value → Bytes → ℕ → Observed → Observed
push_reference limit kind value inference_id sequence s =
    push_text limit kind (text_of value) inference_id sequence s

-- `insert_observation` into `response_nodes`.
unfoldable pub observe_response : ℕ → Bytes → ℕ → Observed → Observed
observe_response limit id sequence s =
    if contains_key id s.response_nodes
    then s
    else if ltb (length s.response_nodes) limit
    then record s { response_nodes = insert id sequence s.response_nodes }
    else note_omission s

-- `insert_observation` into `inference_targets`.
unfoldable pub observe_target : ℕ → Bytes → Bytes → Observed → Observed
observe_target limit inference_id response s =
    if contains_key inference_id s.inference_targets
    then s
    else if ltb (length s.inference_targets) limit
    then record s { inference_targets = insert inference_id response s.inference_targets }
    else note_omission s

abbrev pub is_proxy_event : Bytes → Event → Bool
is_proxy_event name e = bytes_eq e.source (ascii "proxy") && bytes_eq e.event name

-- The references of a logical inference request, whose summary is given.
unfoldable pub observe_summary : ℕ → Bytes → ℕ → Option Value → Observed → Observed
observe_summary limit inference_id sequence none s = s
observe_summary limit inference_id sequence (some summary) s =
    let responses =
      push_reference limit (ascii "response") (get (ascii "previous_response_id") summary)
        inference_id sequence s in
    let conversations =
      push_reference limit (ascii "conversation") (get (ascii "conversation") summary) inference_id
        sequence responses in
    push_reference limit (ascii "cached_content") (get (ascii "cached_content") summary)
      inference_id sequence conversations

-- The response that an event of a stream belongs to.
unfoldable pub observe_response_id : ℕ → Bytes → ℕ → Option Bytes → Observed → Observed
observe_response_id limit inference_id sequence none s = s
observe_response_id limit inference_id sequence (some response) s =
    observe_target limit inference_id response (observe_response limit response sequence s)

-- An event of a stream, whose meaning is given.
unfoldable pub observe_semantic : ℕ → Bytes → ℕ → Option Value → Observed → Observed
observe_semantic limit inference_id sequence none s = s
observe_semantic limit inference_id sequence (some semantic) s =
    push_reference limit (ascii "response") (get (ascii "previous_response_id") semantic)
      inference_id sequence
      (observe_response_id limit inference_id sequence
        (text_of (get (ascii "response_id") semantic)) s)

unfoldable pub observe_inference : ℕ → Event → Option Bytes → Observed → Observed
observe_inference limit e none s = s
observe_inference limit e (some inference_id) s =
    let requested =
      if is_proxy_event (ascii "logical_inference_request") e
      then observe_summary limit inference_id e.sequence (get_in (ascii "summary") e.normalized) s
      else s in
    if is_proxy_event (ascii "sse_event") e
    then observe_semantic limit inference_id e.sequence (get_in (ascii "semantic") e.normalized)
        requested
    else requested

abbrev pub observe : ℕ → Event → Observed → Observed
observe limit e s = observe_inference limit e e.inference_id s

unfoldable pub observe_all : ℕ → List Event → Observed → Observed
observe_all limit [] s = s
observe_all limit (e ∷ events) s = observe_all limit events (observe limit e s)
