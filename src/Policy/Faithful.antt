-- ===== src/Policy/Faithful.antt =====
-- A value that `JsonSanitizer` (src/policy.rs) does not report as truncated is the value itself with
-- its secrets replaced.
use mathlib.Core.List.{append_assoc, append-nil}
use inference_io.Prelude.{
  ℕ, ◌+◌, ◌≡◌, false, arith, leb, if◌then◌else◌, Bool-cases, inl, inr, List, [], ◌∷◌, ◌++◌,
}
use inference_io.Bytes.{Bytes, ascii}
use inference_io.Json.{
  Value, Fields, Items, object, array, string, number, bool, null, no_fields, entry, no_items, item,
}
use inference_io.Policy.Secrets.{is_secret_json_key}
use inference_io.Policy.Sanitize.{
  JsonSanitizerLimits, JsonSanitizer, new, redacted, visit, note_field, sanitize, sanitize_fields,
  sanitize_items, json_child_path, json_index_path, sanitize_json_owned, sanitizer_limits,
}

-- A value with its secrets replaced, and the paths at which they stood.
unfoldable mutual
  pub redact : Value → Value
  redact (object fields) = object (redact_fields fields)
  redact (array values) = array (redact_items values)
  redact scalar = scalar

  pub redact_fields : Fields → Fields
  redact_fields no_fields = no_fields
  redact_fields (entry key value rest) =
      entry key (if is_secret_json_key key then redacted else redact value) (redact_fields rest)

  pub redact_items : Items → Items
  redact_items no_items = no_items
  redact_items (item value rest) = item (redact value) (redact_items rest)

module _ (sha256_hex : Bytes → Bytes) where
  unfoldable mutual
    pub secret_paths : Value → Bytes → List Bytes
    secret_paths (object fields) path = field_paths fields path
    secret_paths (array values) path = item_paths values path 0
    secret_paths scalar path = []

    pub field_paths : Fields → Bytes → List Bytes
    field_paths no_fields path = []
    field_paths (entry key value rest) path =
        (if is_secret_json_key key
          then json_child_path sha256_hex path key ∷ []
          else secret_paths value (json_child_path sha256_hex path key))
        ++ field_paths rest path

    pub item_paths : Items → Bytes → ℕ → List Bytes
    item_paths no_items path index = []
    item_paths (item value rest) path index =
        secret_paths value (json_index_path sha256_hex path index)
        ++ item_paths rest path (index + 1)

note_field-whole :
    (limits : JsonSanitizerLimits) (path : Bytes) (s : JsonSanitizer)
    → (note_field limits path s).truncated ≡ false
    → (s.truncated ≡ false) × ((note_field limits path s).fields ≡ s.fields ++ path ∷ [])
unfolding note_field
note_field-whole limits path s h = ground (arith, h)

-- A run from `s` to `t` that truncates nothing and notes the paths `paths`.
abbrev pub Notes : JsonSanitizer → List Bytes → JsonSanitizer → Type 0
Notes s paths t = (s.truncated ≡ false) × (t.fields ≡ s.fields ++ paths)

module _ (sha256_hex : Bytes → Bytes) (limits : JsonSanitizerLimits) where
  mutual
    unfolding sanitize sanitize_fields sanitize_items redact redact_fields redact_items secret_paths
        field_paths item_paths

    sanitize-redact :
        (value : Value) (path : Bytes) (depth : ℕ) (s : JsonSanitizer)
        → (sanitize sha256_hex limits value path depth s).1.truncated ≡ false
        → ((sanitize sha256_hex limits value path depth s).0 ≡ redact value)
          × Notes s
              (secret_paths sha256_hex value path)
              (sanitize sha256_hex limits value path depth s).1
    sanitize-redact (object fields) path depth s h =
        elim (Bool-cases (leb limits.nodes s.visited)) [
          | inl e ↦ ground (arith, e, h)
          | inr e ↦ elim (Bool-cases (leb limits.depth depth)) [
            | inl d ↦ ground (arith, e, d, h)
            | inr d ↦ ground (arith, e, d, h, sanitize_fields-redact fields path depth 0 (visit s))
          ]
        ]
    sanitize-redact (array values) path depth s h = elim (Bool-cases (leb limits.nodes s.visited)) [
      | inl e ↦ ground (arith, e, h)
      | inr e ↦ elim (Bool-cases (leb limits.depth depth)) [
        | inl d ↦ ground (arith, e, d, h)
        | inr d ↦ ground (arith, e, d, h, sanitize_items-redact values path depth 0 (visit s))
      ]
    ]
    sanitize-redact (string x) path depth s h = ground (arith, h, append-nil s.fields)
    sanitize-redact (number x) path depth s h = ground (arith, h, append-nil s.fields)
    sanitize-redact (bool x) path depth s h = ground (arith, h, append-nil s.fields)
    sanitize-redact null path depth s h = ground (arith, h, append-nil s.fields)

    sanitize_fields-redact :
        (fields : Fields) (path : Bytes) (depth index : ℕ) (s : JsonSanitizer)
        → (sanitize_fields sha256_hex limits fields path depth index s).1.truncated ≡ false
        → ((sanitize_fields sha256_hex limits fields path depth index s).0 ≡ redact_fields fields)
          × Notes s
              (field_paths sha256_hex fields path)
              (sanitize_fields sha256_hex limits fields path depth index s).1
    sanitize_fields-redact no_fields path depth index s h = ground (arith, h, append-nil s.fields)
    sanitize_fields-redact (entry key value rest) path depth index s h =
        elim (Bool-cases (leb limits.container_items index)) [
          | inl e ↦ ground (arith, e, h)
          | inr e ↦ elim (Bool-cases (is_secret_json_key key)) [
            | inl k ↦ ground (
              arith,
              e,
              k,
              h,
              append_assoc s.fields (json_child_path sha256_hex path key ∷ [])
                  (field_paths sha256_hex rest path),
              note_field-whole limits (json_child_path sha256_hex path key) s,
              sanitize_fields-redact rest path depth (index + 1)
                  (note_field limits (json_child_path sha256_hex path key) s),
            )
            | inr k ↦ ground (
              arith,
              e,
              k,
              h,
              append_assoc s.fields
                  (secret_paths sha256_hex value (json_child_path sha256_hex path key))
                  (field_paths sha256_hex rest path),
              sanitize-redact value (json_child_path sha256_hex path key) (depth + 1) s,
              sanitize_fields-redact rest path depth (index + 1)
                  (sanitize sha256_hex limits value (json_child_path sha256_hex path key)
                    (depth + 1) s).1,
            )
          ]
        ]

    sanitize_items-redact :
        (values : Items) (path : Bytes) (depth index : ℕ) (s : JsonSanitizer)
        → (sanitize_items sha256_hex limits values path depth index s).1.truncated ≡ false
        → ((sanitize_items sha256_hex limits values path depth index s).0 ≡ redact_items values)
          × Notes s
              (item_paths sha256_hex values path index)
              (sanitize_items sha256_hex limits values path depth index s).1
    sanitize_items-redact no_items path depth index s h = ground (arith, h, append-nil s.fields)
    sanitize_items-redact (item value rest) path depth index s h =
        elim (Bool-cases (leb limits.container_items index)) [
          | inl e ↦ ground (arith, e, h)
          | inr e ↦ ground (
            arith,
            e,
            h,
            append_assoc s.fields
                (secret_paths sha256_hex value (json_index_path sha256_hex path index))
                (item_paths sha256_hex rest path (index + 1)),
            sanitize-redact value (json_index_path sha256_hex path index) (depth + 1) s,
            sanitize_items-redact rest path depth (index + 1)
                (sanitize sha256_hex limits value (json_index_path sha256_hex path index)
                  (depth + 1) s).1,
          )
        ]

-- When the record that sanitize_json_owned returns reports no omission, the value that it returns is
-- the given one with the value of each secret key replaced and nothing else changed, and the record
-- names exactly the paths of those keys, in their order.
pub sanitize_json-redact :
    (sha256_hex : Bytes → Bytes) (policy_name : Bytes) (value : Value)
    → (sanitize_json_owned sha256_hex policy_name value).1.omitted ≡ []
    → ((sanitize_json_owned sha256_hex policy_name value).0 ≡ redact value)
      × ((sanitize_json_owned sha256_hex policy_name value).1.fields
          ≡ secret_paths sha256_hex value (ascii "$"))
unfolding sanitize_json_owned
sanitize_json-redact sha256_hex policy_name value whole =
    ground (arith, whole, sanitize-redact sha256_hex sanitizer_limits value (ascii "$") 0 new)
