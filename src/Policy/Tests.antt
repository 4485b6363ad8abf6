-- ===== src/Policy/Tests.antt =====
-- Runs of the redaction of src/policy.rs, and its theorems at concrete inputs.
use inference_io.Prelude.{◌≡◌, ◌≤◌, refl, true, some, [], ◌∷◌, length, saturating_add, ok}
use inference_io.Bytes.{Bytes, ascii}
use inference_io.Bytes.Map.{lookup, insert, contains_key}
use inference_io.Bytes.Decimal.{show_u64}
use inference_io.Metadata.{bounded_string, has_control}
use inference_io.Json.{Value, object, array, string, number, null, no_fields, entry, no_items, item}
use inference_io.Policy.Secrets.{is_secret_json_key, is_secret_header}
use inference_io.Policy.Capture.{default, permits_body, validate}
use inference_io.Policy.Headers.{
  HeaderMap, is_secret, sanitize_headers, write_headers, write_header, safe_values, add_host,
}
use inference_io.Policy.Sanitize.{
  json_child_path, json_index_path, note_field, sanitize, sanitize_fields, sanitize_items,
  sanitize_json_owned, sanitizer_limits, redacted,
}
use inference_io.Policy.Clean.{IsClean, sanitize_json-IsClean}
use inference_io.Policy.Bounds.{IsWithin, sanitize_json-IsWithin}
use inference_io.Policy.Faithful.{redact, secret_paths, sanitize_json-redact}

abbrev digest : Bytes → Bytes
digest text = ascii "00"

-- `{"user":{"API-Key":"k","n":1},"list":[null]}`.
abbrev sample : Value
sample = object (
    entry (ascii "user")
      (object (
        entry (ascii "API-Key") (string (ascii "k"))
          (entry (ascii "n") (number (ascii "1")) no_fields)))
      (entry (ascii "list") (array (item null no_items)) no_fields))

abbrev sample_without_key : Value
sample_without_key = object (
    entry (ascii "user")
      (object (entry (ascii "API-Key") redacted (entry (ascii "n") (number (ascii "1")) no_fields)))
      (entry (ascii "list") (array (item null no_items)) no_fields))

engine : Unit {0}
unfolding json_child_path json_index_path sanitize sanitize_fields sanitize_items
    sanitize_json_owned note_field is_secret_json_key bounded_string has_control saturating_add
    show_u64 is_secret is_secret_header sanitize_headers write_headers write_header safe_values
    add_host lookup insert contains_key permits_body validate
engine = tt

sample_cleaned : sanitize_json_owned digest (ascii "p") sample ≡ (
  sample_without_key,
  record { policy = ascii "p"; fields = ascii "$.user.API-Key" ∷ []; omitted = [] },
)
unfolding engine
sample_cleaned = refl

sanitize_json-IsClean_example : IsClean (sanitize_json_owned digest (ascii "p") sample).0
sanitize_json-IsClean_example = sanitize_json-IsClean digest (ascii "p") sample

sanitize_json-IsWithin_example :
    IsWithin sanitizer_limits 0 (sanitize_json_owned digest (ascii "p") sample).0
    × (length (sanitize_json_owned digest (ascii "p") sample).1.fields
        ≤ sanitizer_limits.redaction_fields)
sanitize_json-IsWithin_example = sanitize_json-IsWithin digest (ascii "p") sample

sample_whole : (sanitize_json_owned digest (ascii "p") sample).1.omitted ≡ []
unfolding engine
sample_whole = refl

sanitize_json-redact_example :
    ((sanitize_json_owned digest (ascii "p") sample).0 ≡ redact sample)
    × ((sanitize_json_owned digest (ascii "p") sample).1.fields
        ≡ secret_paths digest sample (ascii "$"))
sanitize_json-redact_example = sanitize_json-redact digest (ascii "p") sample sample_whole

-- A header map with one secret and one plain header; every value is text.
abbrev headers : HeaderMap
headers =
    (ascii "Authorization", ascii "Bearer k" ∷ [])
    ∷ (ascii "accept", ascii "text/html" ∷ ascii "text/plain" ∷ [])
    ∷ []

accept_kept :
    lookup (ascii "accept") (sanitize_headers some default headers).0
    ≡ some (array (item (string (ascii "text/html")) (item (string (ascii "text/plain")) no_items)))
unfolding engine
accept_kept = refl

default_valid : validate (λ name. true) default ≡ ok tt
unfolding engine
default_valid = refl
