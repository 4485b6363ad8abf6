-- ===== src/Policy/Headers.antt =====
-- `CapturePolicy::sanitize_headers` of src/policy.rs. A header map is its names, each with its values
-- in order; `HeaderValue::to_str` is a parameter.
use inference_io.Prelude.{
  ◌≡◌, Bool, true, ◌||◌, Option, none, some, List, [], ◌∷◌, map, if◌then◌else◌,
}
use inference_io.Bytes.{Bytes, ascii, member, to_ascii_lowercase}
use inference_io.Bytes.Map.{Map, lookup, insert, contains_key}
use inference_io.Json.{Value, Items, array, string, no_items, item}
use inference_io.Policy.Secrets.{is_secret_header}
use inference_io.Policy.Capture.{CapturePolicy}
use inference_io.Policy.Sanitize.{redacted}
use inference_io.Model.{RedactionRecord}

abbrev pub HeaderMap : Type 0
HeaderMap = Map (List Bytes)

abbrev pub hidden : Value
hidden = array (item redacted no_items)

abbrev pub host : Bytes
host = ascii "host"

unfoldable pub is_secret : CapturePolicy → Bytes → Bool
is_secret policy canonical = member canonical policy.redact_headers || is_secret_header canonical

module _ (to_str : Bytes → Option Bytes) where
  abbrev pub safe_value : Bytes → Value
  safe_value value = elim (to_str value) [
    | some text ↦ string text
    | none ↦ string (ascii "[NON_UTF8]")
  ]

  unfoldable pub safe_values : List Bytes → Items
  safe_values [] = no_items
  safe_values (value ∷ rest) = item (safe_value value) (safe_values rest)

  unfoldable pub write_header :
      CapturePolicy → Bytes → List Bytes → Map Value × Map (Unit {0}) → Map Value × Map (Unit {0})
  write_header policy name values (output, fields) =
      let canonical = to_ascii_lowercase name in
      if is_secret policy canonical
      then (insert canonical hidden output, insert canonical tt fields)
      else (insert canonical (array (safe_values values)) output, fields)

  unfoldable pub write_headers :
      CapturePolicy → HeaderMap → Map Value × Map (Unit {0}) → Map Value × Map (Unit {0})
  write_headers policy [] state = state
  write_headers policy ((name, values) ∷ rest) state =
      write_headers policy rest (write_header policy name values state)

  unfoldable pub add_host : Map Value → Map Value
  add_host output = if contains_key host output then output else insert host (array no_items) output

  unfoldable pub sanitize_headers : CapturePolicy → HeaderMap → Map Value × RedactionRecord
  sanitize_headers policy headers =
      let (output, fields) = write_headers policy headers ([], []) in
      (
        add_host output,
        record { policy = policy.name; fields = map (λ field. field.0) fields; omitted = [] },
      )

  -- No secret name has any other value than the text that stands for a redacted one.
  abbrev Hides : CapturePolicy → Map Value → Type 0
  Hides policy output =
      (key : Bytes) (value : Value)
      → is_secret policy key ≡ true
      → lookup key output ≡ some value
      → value ≡ hidden
