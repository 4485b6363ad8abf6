-- ===== src/Policy/Bounds.antt =====
-- The limits of `JsonSanitizer` (src/policy.rs) hold of what it returns.
use inference_io.Prelude.{
  ℕ, ◌+◌, ◌<◌, ◌≤◌, arith, leb, Bool-cases, inl, inr, [], ◌∷◌, length, length-append,
}
use inference_io.Bytes.{Bytes, ascii}
use inference_io.Json.{
  Value, Fields, Items, object, array, string, number, bool, null, no_fields, entry, no_items, item,
}
use inference_io.Policy.Secrets.{is_secret_json_key}
use inference_io.Policy.Sanitize.{
  JsonSanitizerLimits, JsonSanitizer, new, visit, note_field, sanitize, sanitize_fields,
  sanitize_items, json_child_path, json_index_path, sanitize_json_owned, sanitizer_limits,
}

-- A value that stands at a depth: containers only above the depth limit, and none of them longer
-- than the limit.
unfoldable mutual
  pub IsWithin : JsonSanitizerLimits → ℕ → Value → Type 0
  IsWithin limits depth (object fields) = (depth < limits.depth) × AreWithin limits depth 0 fields
  IsWithin limits depth (array values) = (depth < limits.depth) × AllWithin limits depth 0 values
  IsWithin limits depth _ = Unit

  pub AreWithin : JsonSanitizerLimits → ℕ → ℕ → Fields → Type 0
  AreWithin limits depth index no_fields = Unit
  AreWithin limits depth index (entry key value rest) =
      (index < limits.container_items)
      × IsWithin limits (depth + 1) value
      × AreWithin limits depth (index + 1) rest

  pub AllWithin : JsonSanitizerLimits → ℕ → ℕ → Items → Type 0
  AllWithin limits depth index no_items = Unit
  AllWithin limits depth index (item value rest) =
      (index < limits.container_items)
      × IsWithin limits (depth + 1) value
      × AllWithin limits depth (index + 1) rest

abbrev pub HasRoom : JsonSanitizerLimits → JsonSanitizer → Type 0
HasRoom limits s = length s.fields ≤ limits.redaction_fields

note_field-HasRoom :
    (limits : JsonSanitizerLimits) (path : Bytes) (s : JsonSanitizer)
    → HasRoom limits s
    → HasRoom limits (note_field limits path s)
unfolding note_field
note_field-HasRoom limits path s h = ground (arith, length-append s.fields (path ∷ []))

module _ (sha256_hex : Bytes → Bytes) (limits : JsonSanitizerLimits) where
  mutual
    unfolding sanitize sanitize_fields sanitize_items IsWithin AreWithin AllWithin

    sanitize-IsWithin :
        (value : Value) (path : Bytes) (depth : ℕ) (s : JsonSanitizer)
        → HasRoom limits s
        → IsWithin limits depth (sanitize sha256_hex limits value path depth s).0
          × HasRoom limits (sanitize sha256_hex limits value path depth s).1
    sanitize-IsWithin (object fields) path depth s h =
        elim (Bool-cases (leb limits.nodes s.visited)) [
          | inl e ↦ ground (arith, e, h)
          | inr e ↦ elim (Bool-cases (leb limits.depth depth)) [
            | inl d ↦ ground (arith, e, d, h)
            | inr d ↦ ground (arith, e, d, h, fields-AreWithin fields path depth 0 (visit s))
          ]
        ]
    sanitize-IsWithin (array values) path depth s h =
        elim (Bool-cases (leb limits.nodes s.visited)) [
          | inl e ↦ ground (arith, e, h)
          | inr e ↦ elim (Bool-cases (leb limits.depth depth)) [
            | inl d ↦ ground (arith, e, d, h)
            | inr d ↦ ground (arith, e, d, h, items-AllWithin values path depth 0 (visit s))
          ]
        ]
    sanitize-IsWithin (string x) path depth s h = ground (arith, h)
    sanitize-IsWithin (number x) path depth s h = ground (arith, h)
    sanitize-IsWithin (bool x) path depth s h = ground (arith, h)
    sanitize-IsWithin null path depth s h = ground (arith, h)

    fields-AreWithin :
        (fields : Fields) (path : Bytes) (depth index : ℕ) (s : JsonSanitizer)
        → HasRoom limits s
        → AreWithin limits depth index
            (sanitize_fields sha256_hex limits fields path depth index s).0
          × HasRoom limits (sanitize_fields sha256_hex limits fields path depth index s).1
    fields-AreWithin no_fields path depth index s h = ground (arith, h)
    fields-AreWithin (entry key value rest) path depth index s h =
        elim (Bool-cases (leb limits.container_items index)) [
          | inl e ↦ ground (arith, e, h)
          | inr e ↦ elim (Bool-cases (is_secret_json_key key)) [
            | inl k ↦ ground (
              arith,
              e,
              k,
              h,
              note_field-HasRoom limits (json_child_path sha256_hex path key) s h,
              fields-AreWithin rest path depth (index + 1)
                  (note_field limits (json_child_path sha256_hex path key) s),
            )
            | inr k ↦ ground (
              arith,
              e,
              k,
              h,
              sanitize-IsWithin value (json_child_path sha256_hex path key) (depth + 1) s,
              fields-AreWithin rest path depth (index + 1)
                  (sanitize sha256_hex limits value (json_child_path sha256_hex path key)
                    (depth + 1) s).1,
            )
          ]
        ]

    items-AllWithin :
        (values : Items) (path : Bytes) (depth index : ℕ) (s : JsonSanitizer)
        → HasRoom limits s
        → AllWithin limits depth index
            (sanitize_items sha256_hex limits values path depth index s).0
          × HasRoom limits (sanitize_items sha256_hex limits values path depth index s).1
    items-AllWithin no_items path depth index s h = ground (arith, h)
    items-AllWithin (item value rest) path depth index s h =
        elim (Bool-cases (leb limits.container_items index)) [
          | inl e ↦ ground (arith, e, h)
          | inr e ↦ ground (
            arith,
            e,
            h,
            sanitize-IsWithin value (json_index_path sha256_hex path index) (depth + 1) s,
            items-AllWithin rest path depth (index + 1)
                (sanitize sha256_hex limits value (json_index_path sha256_hex path index)
                  (depth + 1) s).1,
          )
        ]

-- Whatever value sanitize_json_owned is given, the value that it returns has no container deeper than
-- 64 levels and none of more than 10,000 entries, and the record names at most 1,024 redacted fields.
pub sanitize_json-IsWithin :
    (sha256_hex : Bytes → Bytes) (policy_name : Bytes) (value : Value)
    → IsWithin sanitizer_limits 0 (sanitize_json_owned sha256_hex policy_name value).0
      × (length (sanitize_json_owned sha256_hex policy_name value).1.fields
          ≤ sanitizer_limits.redaction_fields)
unfolding sanitize_json_owned
sanitize_json-IsWithin sha256_hex policy_name value =
    sanitize-IsWithin sha256_hex sanitizer_limits value (ascii "$") 0 new (omega arith)
