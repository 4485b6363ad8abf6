-- ===== src/Policy/Clean.antt =====
-- A sanitized value keeps no secret: what `sanitize` of src/policy.rs guarantees of its output, at
-- every limit and in every state.
use inference_io.Prelude.{ℕ, ◌+◌, ◌≡◌, true, arith, leb, Bool-cases, inl, inr}
use inference_io.Bytes.{Bytes, ascii}
use inference_io.Json.{
  Value, Fields, Items, object, array, string, number, bool, null, no_fields, entry, no_items, item,
}
use inference_io.Policy.Secrets.{is_secret_json_key}
use inference_io.Policy.Sanitize.{
  JsonSanitizerLimits, JsonSanitizer, new, redacted, visit, note_field, sanitize, sanitize_fields,
  sanitize_items, json_child_path, json_index_path, sanitize_json_owned, sanitizer_limits,
}

-- Every entry under a secret's name holds the text that stands for a redacted value.
unfoldable mutual
  pub IsClean : Value → Type 0
  IsClean (object fields) = AreClean fields
  IsClean (array values) = AllClean values
  IsClean _ = Unit

  pub AreClean : Fields → Type 0
  AreClean no_fields = Unit
  AreClean (entry key value rest) =
      (is_secret_json_key key ≡ true → value ≡ redacted) × IsClean value × AreClean rest

  pub AllClean : Items → Type 0
  AllClean no_items = Unit
  AllClean (item value rest) = IsClean value × AllClean rest

module _ (sha256_hex : Bytes → Bytes) (limits : JsonSanitizerLimits) where
  mutual
    unfolding sanitize sanitize_fields sanitize_items IsClean AreClean AllClean

    sanitize-IsClean :
        (value : Value) (path : Bytes) (depth : ℕ) (s : JsonSanitizer)
        → IsClean (sanitize sha256_hex limits value path depth s).0
    sanitize-IsClean (object fields) path depth s = elim (Bool-cases (leb limits.nodes s.visited)) [
      | inl e ↦ ground (arith, e)
      | inr e ↦ elim (Bool-cases (leb limits.depth depth)) [
        | inl d ↦ ground (arith, e, d)
        | inr d ↦ ground (arith, e, d, fields-AreClean fields path depth 0 (visit s))
      ]
    ]
    sanitize-IsClean (array values) path depth s = elim (Bool-cases (leb limits.nodes s.visited)) [
      | inl e ↦ ground (arith, e)
      | inr e ↦ elim (Bool-cases (leb limits.depth depth)) [
        | inl d ↦ ground (arith, e, d)
        | inr d ↦ ground (arith, e, d, items-AllClean values path depth 0 (visit s))
      ]
    ]
    sanitize-IsClean (string x) path depth s = ground arith
    sanitize-IsClean (number x) path depth s = ground arith
    sanitize-IsClean (bool x) path depth s = ground arith
    sanitize-IsClean null path depth s = ground arith

    fields-AreClean :
        (fields : Fields) (path : Bytes) (depth index : ℕ) (s : JsonSanitizer)
        → AreClean (sanitize_fields sha256_hex limits fields path depth index s).0
    fields-AreClean no_fields path depth index s = tt
    fields-AreClean (entry key value rest) path depth index s =
        elim (Bool-cases (leb limits.container_items index)) [
          | inl e ↦ ground (arith, e)
          | inr e ↦ elim (Bool-cases (is_secret_json_key key)) [
            | inl k ↦ ground (
              arith,
              e,
              k,
              fields-AreClean rest path depth (index + 1)
                  (note_field limits (json_child_path sha256_hex path key) s),
            )
            | inr k ↦ ground (
              arith,
              e,
              k,
              sanitize-IsClean value (json_child_path sha256_hex path key) (depth + 1) s,
              fields-AreClean rest path depth (index + 1)
                  (sanitize sha256_hex limits value (json_child_path sha256_hex path key)
                    (depth + 1) s).1,
            )
          ]
        ]

    items-AllClean :
        (values : Items) (path : Bytes) (depth index : ℕ) (s : JsonSanitizer)
        → AllClean (sanitize_items sha256_hex limits values path depth index s).0
    items-AllClean no_items path depth index s = tt
    items-AllClean (item value rest) path depth index s =
        elim (Bool-cases (leb limits.container_items index)) [
          | inl e ↦ ground (arith, e)
          | inr e ↦ ground (
            arith,
            e,
            sanitize-IsClean value (json_index_path sha256_hex path index) (depth + 1) s,
            items-AllClean rest path depth (index + 1)
                (sanitize sha256_hex limits value (json_index_path sha256_hex path index)
                  (depth + 1) s).1,
          )
        ]

-- Whatever value sanitize_json_owned is given, in the value that it returns every entry of every
-- object, at any depth, whose key is the name of a secret holds the text "[REDACTED]".
pub sanitize_json-IsClean :
    (sha256_hex : Bytes → Bytes) (policy_name : Bytes) (value : Value)
    → IsClean (sanitize_json_owned sha256_hex policy_name value).0
unfolding sanitize_json_owned
sanitize_json-IsClean sha256_hex policy_name value =
    sanitize-IsClean sha256_hex sanitizer_limits value (ascii "$") 0 new
