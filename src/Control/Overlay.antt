-- ===== src/Control/Overlay.antt =====
-- `merge_remote_config` and `apply_new_run_config` of src/control.rs together: what a new run keeps is
-- within the local policy.
use inference_io.Prelude.{
  ℕ, ◌≡◌, ◌≤◌, ◌<◌, ◌∙◌, Bool, true, Option, none, some, List, arith, Result, ok, >>=-eq-ok,
  Option-cases, subst, inl, inr, ap,
}
use inference_io.Bytes.{Bytes, ascii, member}
use inference_io.Bytes.Decimal.{u64_limit, parse_u64-show_u64}
use inference_io.Json.{Value, Items, array, get}
use inference_io.Policy.Secrets.{always_secret_headers}
use inference_io.Policy.Capture.{CapturePolicy}
use inference_io.Control.Fields.{as_u64, as_object, as_array, entry_of, entry_of}
use inference_io.Control.Config.{
  LocalPolicy, ControlError, Merge, content_policy, number_value, name_items,
}
use inference_io.Control.Remote.{merge_remote_config}
use inference_io.Control.Restrict.{IsRestrictive}
use inference_io.Control.Merged.{RestrictiveResult}
use inference_io.Control.Within.{merge_remote_config-IsRestrictive}
use inference_io.Control.Apply.{
  context, read_key, object_value, add_fields, apply_content, apply_new_run_config,
  no_content_policy,
}
use inference_io.Control.Tighten.{context-eq-some, Applied, add_fields-adds, apply_content-Applied}

read_number :
    (content : Value) (n m : ℕ)
    → get (ascii "max_body_bytes") content ≡ some (number_value n)
    → read_key as_u64 (ascii "max_body_bytes") content ≡ some m
    → n < u64_limit
    → m ≡ n
unfolding as_u64
read_number content n m stands read fits =
    let found : as_u64 (number_value n) ≡ some m =
      subst
        (λ (o : Option Value).
          ◌≡◌ {A = Option ℕ} (elim o [ none ↦ none | some inner ↦ as_u64 inner ]) (some m))
        stands read in
    ground (arith, parse_u64-show_u64 n, found)

read_names :
    (content : Value) (names : List Bytes) (fields : Items)
    → get (ascii "redact_fields") content ≡ some (array (name_items names))
    → read_key as_array (ascii "redact_fields") content ≡ some fields
    → fields ≡ name_items names
unfolding as_array
read_names content names fields stands read =
    let found : as_array (array (name_items names)) ≡ some fields =
      subst
        (λ (o : Option Value).
          ◌≡◌ {A = Option Items} (elim o [ none ↦ none | some inner ↦ as_array inner ])
            (some fields))
        stands read in
    cc found

object_value_same : (value content : Value) → object_value value ≡ some content → value ≡ content
object_value_same value content h = elim (Option-cases (as_object value)) [
  | inl missing ↦ ground (arith, missing, h)
  | inr (fields, found) ↦ ground (arith, found, h)
]

object_read :
    (key : Bytes) (value content : Value)
    → read_key object_value key value ≡ some content
    → get key value ≡ some content
object_read key value content h = elim (Option-cases (get key value)) [
  | inl missing ↦ ground (arith, missing, h)
  | inr (inner, found) ↦
      let there : object_value inner ≡ some content =
        subst
          (λ (o : Option Value).
            ◌≡◌ {A = Option Value} (elim o [ none ↦ none | some inner ↦ object_value inner ])
              (some content))
          found h in
      found ∙ ap some (object_value_same inner content there)
]

-- What the content settings of a restrictive configuration put on a policy.
restrictive_content :
    (is_header_name : Bytes → Bool) (local : LocalPolicy) (effective : Value) (content : Value)
    (policy after : CapturePolicy)
    → IsRestrictive local effective
    → get content_policy effective ≡ some content
    → local.max_body_bytes < u64_limit
    → Applied is_header_name content policy after
    → (after.max_blob_bytes ≤ local.max_body_bytes)
      × ((name : Bytes)
          → member name always_secret_headers ≡ true
          → member name after.redact_headers ≡ true)
restrictive_content is_header_name local effective content policy after r found fits a =
    let maximum_is : get (ascii "max_body_bytes") content ≡ some (number_value r.maximum) =
      subst
        (λ (o : Option Value). entry_of (ascii "max_body_bytes") o ≡ some (number_value r.maximum))
        found r.maximum_is in
    let names_is : get (ascii "redact_fields") content ≡ some (array (name_items r.names)) =
      subst
        (λ (o : Option Value).
          entry_of (ascii "redact_fields") o ≡ some (array (name_items r.names)))
        found r.names_is in
    let read_back : a.maximum ≡ r.maximum =
      read_number content r.maximum a.maximum maximum_is a.read_maximum
        (ground (arith, r.maximum_le)) in
    let fields_are : a.fields ≡ name_items r.names =
      read_names content r.names a.fields names_is a.read_fields in
    let added =
      subst (λ (l : Items). add_fields is_header_name l policy.redact_headers ≡ ok a.headers)
        fields_are a.added in
    subst
      (λ (p : CapturePolicy).
        (p.max_blob_bytes ≤ local.max_body_bytes)
        × ((name : Bytes)
            → member name always_secret_headers ≡ true
            → member name p.redact_headers ≡ true))
      a.is_after
      (
        ground (arith, r.maximum_le, read_back),
        (λ name secret.
            add_fields-adds is_header_name r.names policy.redact_headers name added
              (r.names_keep name secret)),
      )

-- A run that starts after a merge is within the local policy of the collector, whatever the platform
-- sent: its bodies are at most the local maximum (a 64-bit number), and every header name that is
-- always secret is redacted, even if the run's own policy did not name it.
pub apply_new_run_config-merge_remote_config :
    (is_header_name : Bytes → Bool) (to_vec : Value → Bytes) (config : Value) (local : LocalPolicy)
    (merge : Merge) (policy after : CapturePolicy) (laid_over : Bool)
    → local.max_body_bytes < u64_limit
    → merge_remote_config is_header_name to_vec config local ≡ ok merge
    → apply_new_run_config is_header_name (some merge.effective) policy ≡ ok (after, laid_over)
    → (after.max_blob_bytes ≤ local.max_body_bytes)
      × ((name : Bytes)
          → member name always_secret_headers ≡ true
          → member name after.redact_headers ≡ true)
unfolding apply_new_run_config RestrictiveResult
apply_new_run_config-merge_remote_config is_header_name to_vec config local merge policy after
      laid_over fits merged h =
    let (content, read, h1) =
      >>=-eq-ok (context (read_key object_value content_policy merge.effective) no_content_policy) _
        h in
    let (applied, run, h2) = >>=-eq-ok (apply_content is_header_name content policy) _ h1 in
    let same : applied ≡ after = cc h2 in
    let restrictive =
      subst (λ (result : Result ControlError Merge). RestrictiveResult local result) merged
        (merge_remote_config-IsRestrictive is_header_name to_vec config local) in
    restrictive_content is_header_name local merge.effective content policy after restrictive
      (object_read _ _ content (context-eq-some _ _ read)) fits
      (subst (λ (p : CapturePolicy). Applied is_header_name content policy p) same
        (apply_content-Applied is_header_name content policy run))
