-- ===== src/Control/Merge.antt =====
-- `merge_remote_config` of src/control.rs and what it calls: the platform's configuration laid over
-- the local policy. The test of http::header::HeaderName::from_bytes and the encoder of serde_json
-- are parameters.
use inference_io.Prelude.{
  ℕ, Bool, true, false, not, ◌&&◌, Option, none, some, List, [], ◌∷◌, ltb, leb, ◌==◌, length,
  if◌then◌else◌, Result, ok, err, ◌>>=◌, ◌>>◌, ensure, suc,
}
use inference_io.Bytes.{Bytes, ascii, any, to_ascii_lowercase}
use inference_io.Json.{
  Value, array, bool, Fields, no_fields, entry, Items, no_items, item, find_field, as_str,
}
use inference_io.Policy.Capture.{is_ascii_uppercase}
use inference_io.Policy.Secrets.{always_secret_headers}
use inference_io.Control.Fields.{as_bool, as_u64, as_object, as_array, is_section}
use inference_io.Control.Names.{insert_name, extend_names}
use inference_io.Control.Config.{
  max_redact_fields, LocalPolicy, ControlError, redact_not_array, too_many_redact_fields,
  redact_not_string, invalid_header_name, panicked, number_value, name_items, content_policy, Merge,
  assign, reject, reason, reason_with, reject_unknown,
}

abbrev pub item_count : Items → ℕ
item_count no_items = 0
item_count (item _ rest) = suc (item_count rest)

abbrev pub field_count : Fields → ℕ
field_count no_fields = 0
field_count (entry _ _ rest) = suc (field_count rest)

-- `error.to_string()` of what `parse_redact_fields` refuses.
abbrev pub redact_message : ControlError → Bytes
redact_message redact_not_array = ascii "value is not an array"
redact_message too_many_redact_fields = ascii "redaction field limit exceeded"
redact_message redact_not_string = ascii "redaction field is not a string"
redact_message _ = ascii "invalid HTTP header name"

abbrev pub is_non_empty : Bytes → Bool
is_non_empty [] = false
is_non_empty (_ ∷ _) = true

module _ (is_header_name : Bytes → Bool) where
  unfoldable pub validate_header_name : Bytes → Result ControlError (Unit {0})
  validate_header_name name =
      ensure
        (is_non_empty name
          && (leb (length name) 256 && (not (any is_ascii_uppercase name) && is_header_name name)))
        invalid_header_name

  -- `value.as_str().context(..)?.to_ascii_lowercase()`.
  unfoldable pub redact_name : Value → Result ControlError Bytes
  unfolding validate_header_name as_str
  redact_name value = elim (as_str value) [
    | none ↦ err redact_not_string
    | some text ↦ validate_header_name (to_ascii_lowercase text) >> ok (to_ascii_lowercase text)
  ]

  unfoldable pub redact_names : List Bytes → Items → Result ControlError (List Bytes)
  redact_names output no_items = ok output
  redact_names output (item value rest) =
      redact_name value >>= λ name. redact_names (insert_name name output) rest

  unfoldable pub parse_redact_fields : Value → Result ControlError (List Bytes)
  parse_redact_fields value = elim (as_array value) [
    | none ↦ err redact_not_array
    | some fields ↦
        ensure (leb (item_count fields) max_redact_fields) too_many_redact_fields
        >> redact_names [] fields
  ]

abbrev pub not_an_object : Bytes
not_an_object = ascii "section is not an object"

unfoldable pub merge_capture_bodies : Option Value → Merge → Merge
merge_capture_bodies none m = m
merge_capture_bodies (some value) m = elim (as_bool value) [
  | some enabled ↦ assign content_policy (ascii "capture_bodies") (bool enabled) m
  | none ↦
      reject (ascii "content_policy.capture_bodies") (reason (ascii "value is not a boolean")) m
]

abbrev pub minimum : ℕ → ℕ → ℕ
minimum a b = if leb a b then a else b

-- `value.as_u64().filter(|value| *value > 0)`.
unfoldable pub positive : Option ℕ → Option ℕ
positive none = none
positive (some n) = if ltb 0 n then some n else none

unfoldable pub merge_max_body_bytes : Option Value → LocalPolicy → Merge → Merge
merge_max_body_bytes none policy m = m
merge_max_body_bytes (some value) policy m = elim (positive (as_u64 value)) [
  | some maximum ↦
      let bounded = minimum maximum policy.max_body_bytes in
      let m' = assign content_policy (ascii "max_body_bytes") (number_value bounded) m in
      if bounded == maximum
      then m'
      else reject (ascii "content_policy.max_body_bytes")
          (reason_with (ascii "local maximum takes precedence") (number_value bounded)) m'
  | none ↦
      reject (ascii "content_policy.max_body_bytes")
        (reason (ascii "value must be a positive integer")) m
]

unfoldable pub merge_redact_fields : (Bytes → Bool) → Option Value → Merge → Merge
merge_redact_fields is_header_name none m = m
merge_redact_fields is_header_name (some value) m =
    elim (parse_redact_fields is_header_name value) [
      | ok fields ↦
          assign content_policy (ascii "redact_fields")
            (array (name_items (extend_names (extend_names [] always_secret_headers) fields))) m
      | err error ↦ reject (ascii "content_policy.redact_fields") (reason (redact_message error)) m
    ]

abbrev pub is_false : Value → Bool
is_false (bool false) = true
is_false _ = false

unfoldable pub merge_pty : Option Value → Merge → Merge
merge_pty none m = m
merge_pty (some value) m =
    if is_false value
    then m
    else reject (ascii "content_policy.pty")
        (reason_with (ascii "PTY capture is disabled by local policy") (bool false)) m

abbrev pub content_names : List Bytes
content_names =
    ascii "capture_bodies" ∷ ascii "max_body_bytes" ∷ ascii "redact_fields" ∷ ascii "pty" ∷ []

-- The settings of an object of the name `content_policy`.
unfoldable pub merge_content_fields : (Bytes → Bool) → Fields → LocalPolicy → Merge → Merge
merge_content_fields is_header_name content policy m =
    reject_unknown content_names (ascii "content_policy.") (ascii "unknown content policy field")
      content
      (merge_pty (find_field (ascii "pty") content) (
        merge_redact_fields is_header_name (find_field (ascii "redact_fields") content) (
          merge_max_body_bytes (find_field (ascii "max_body_bytes") content) policy
            (merge_capture_bodies (find_field (ascii "capture_bodies") content) m))))

unfoldable pub merge_content_policy :
    (Bytes → Bool) → Value → LocalPolicy → Merge → Result ControlError Merge
merge_content_policy is_header_name value policy m = elim (as_object value) [
  | none ↦ ok (reject content_policy (reason not_an_object) m)
  | some content ↦
      ensure (is_section content_policy m.effective) panicked
      >> ok (merge_content_fields is_header_name content policy m)
]
