-- ===== src/Policy/Sanitize.antt =====
-- `JsonSanitizer` of src/policy.rs, which copies a JSON value within limits and without secrets. The
-- hexadecimal SHA-256 of a text, which long path names are replaced by, is a parameter.
use inference_io.Prelude.{
  ℕ, ◌+◌, Bool, true, false, List, [], ◌∷◌, ◌++◌, saturating_add, ltb, leb, if◌then◌else◌, length,
}
use inference_io.Bytes.{Bytes, ascii}
use inference_io.Bytes.Decimal.{show_u64}
use inference_io.Json.{
  Value, Fields, Items, object, array, string, no_fields, entry, no_items, item,
}
use inference_io.Model.{RedactionRecord}
use inference_io.Metadata.{bounded_string}
use inference_io.Policy.Secrets.{is_secret_json_key}

pub record JsonSanitizerLimits : Type 0 where
  pub depth : ℕ
  pub nodes : ℕ
  pub container_items : ℕ
  pub redaction_fields : ℕ

abbrev pub sanitizer_limits : JsonSanitizerLimits
sanitizer_limits = record {
  depth = 64;
  nodes = 100_000;
  container_items = 10_000;
  redaction_fields = 1_024;
}

pub record JsonSanitizer : Type 0 where
  pub visited : ℕ
  pub fields : List Bytes
  pub truncated : Bool

abbrev pub new : JsonSanitizer
new = record { visited = 0; fields = []; truncated = false }

abbrev pub redacted : Value
redacted = string (ascii "[REDACTED]")

abbrev pub marker : Value
marker = string (ascii "[IOREC_CAPTURE_TRUNCATED]")

abbrev pub truncate : JsonSanitizer → JsonSanitizer
truncate s = record s { truncated = true }

abbrev pub visit : JsonSanitizer → JsonSanitizer
visit s = record s { visited = saturating_add s.visited 1 }

-- The path of a redacted field is noted while there is room.
unfoldable pub note_field : JsonSanitizerLimits → Bytes → JsonSanitizer → JsonSanitizer
note_field limits path s =
    if ltb (length s.fields) limits.redaction_fields
    then record s { fields = s.fields ++ path ∷ [] }
    else truncate s

module _ (sha256_hex : Bytes → Bytes) where
  unfoldable pub json_child_path : Bytes → Bytes → Bytes
  json_child_path path key =
      bounded_string sha256_hex (path ++ (ascii "." ++ bounded_string sha256_hex key))

  unfoldable pub json_index_path : Bytes → ℕ → Bytes
  json_index_path path index =
      bounded_string sha256_hex (path ++ (ascii "[" ++ (show_u64 index ++ ascii "]")))

module _ (sha256_hex : Bytes → Bytes) (limits : JsonSanitizerLimits) where
  unfoldable mutual
    pub sanitize : Value → Bytes → ℕ → JsonSanitizer → Value × JsonSanitizer
    sanitize (object entries) path depth s =
        let (output, t) = sanitize_fields entries path depth 0 (visit s) in
        if leb limits.nodes s.visited
        then (marker, truncate s)
        else if leb limits.depth depth
        then (marker, truncate (visit s))
        else (object output, t)
    sanitize (array values) path depth s =
        let (output, t) = sanitize_items values path depth 0 (visit s) in
        if leb limits.nodes s.visited
        then (marker, truncate s)
        else if leb limits.depth depth
        then (marker, truncate (visit s))
        else (array output, t)
    sanitize scalar path depth s =
        if leb limits.nodes s.visited then (marker, truncate s) else (scalar, visit s)

    -- The loop over an object's entries, from an index on.
    pub sanitize_fields : Fields → Bytes → ℕ → ℕ → JsonSanitizer → Fields × JsonSanitizer
    sanitize_fields no_fields path depth index s = (no_fields, s)
    sanitize_fields (entry key value rest) path depth index s =
        let child_path = json_child_path sha256_hex path key in
        let shown = sanitize value child_path (depth + 1) s in
        let kept =
          if is_secret_json_key key then (redacted, note_field limits child_path s) else shown in
        let after = sanitize_fields rest path depth (index + 1) kept.1 in
        if leb limits.container_items index
        then (no_fields, truncate s)
        else (entry key kept.0 after.0, after.1)

    -- The loop over an array's values.
    pub sanitize_items : Items → Bytes → ℕ → ℕ → JsonSanitizer → Items × JsonSanitizer
    sanitize_items no_items path depth index s = (no_items, s)
    sanitize_items (item value rest) path depth index s =
        let child_path = json_index_path sha256_hex path index in
        let shown = sanitize value child_path (depth + 1) s in
        let after = sanitize_items rest path depth (index + 1) shown.1 in
        if leb limits.container_items index
        then (no_items, truncate s)
        else (item shown.0 after.0, after.1)

unfoldable pub sanitize_json_owned : (Bytes → Bytes) → Bytes → Value → Value × RedactionRecord
sanitize_json_owned sha256_hex policy_name value =
    let (output, s) = sanitize sha256_hex sanitizer_limits value (ascii "$") 0 new in
    (
      output,
      record {
        policy = policy_name;
        fields = s.fields;
        omitted = (if s.truncated then ascii "json_payload_safety_limit" ∷ [] else []);
      },
    )
