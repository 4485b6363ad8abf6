-- ===== src/Control/Apply.antt =====
-- `apply_new_run_config` of src/control.rs: the accepted configuration laid over the capture policy
-- of a new run. The state that the collector keeps is read elsewhere; its effective configuration is
-- the argument, `none` if there is no state.
use inference_io.Prelude.{
  ℕ, Bool, true, false, Option, none, some, List, leb, if◌then◌else◌, Result, ok, err, ◌>>=◌, ◌>>◌,
  ensure,
}
use inference_io.Bytes.{Bytes, ascii}
use inference_io.Json.{Value, Items, no_items, item, get, as_str}
use inference_io.Policy.Capture.{CapturePolicy, PolicyError, metadata_only, validate}
use inference_io.Control.Fields.{as_bool, as_u64, as_object, as_array}
use inference_io.Control.Names.{insert_name}
use inference_io.Control.Config.{ControlError, content_policy, max_redact_fields}
use inference_io.Control.Merge.{minimum, item_count, validate_header_name}

-- Why a run does not start.
pub data ApplyError : Type 0 where
  no_content_policy : ApplyError
  invalid_capture_bodies : ApplyError
  invalid_max_body_bytes : ApplyError
  invalid_redact_fields : ApplyError
  too_many_fields : ApplyError
  field_not_string : ApplyError
  invalid_field : ControlError → ApplyError
  invalid_policy : PolicyError → ApplyError

-- `option.context(error)?`.
abbrev pub context {ℓ κ} : {E : Type κ} {A : Type ℓ} → Option A → E → Result E A
context none failure = err failure
context (some a) failure = ok a

-- `result.map_err(f)?`.
abbrev pub map_err {ℓ κ ν} :
    {E : Type κ} {F : Type ν} {A : Type ℓ} → (E → F) → Result E A → Result F A
map_err f (err failure) = err (f failure)
map_err f (ok a) = ok a

-- `value.get(key).and_then(read)`.
abbrev pub read_key {ℓ} : {A : Type ℓ} → (Value → Option A) → Bytes → Value → Option A
read_key read key value = elim (get key value) [ none ↦ none | some inner ↦ read inner ]

-- A value that is an object, as itself.
abbrev pub object_value : Value → Option Value
object_value value = elim (as_object value) [ none ↦ none | some _ ↦ some value ]

abbrev pub restrict_bodies : Bool → CapturePolicy → CapturePolicy
restrict_bodies capture_bodies policy =
    if capture_bodies then policy else record policy { body_mode = metadata_only }

-- The policy with the three settings laid over it.
abbrev pub laid : Bool → CapturePolicy → ℕ → List Bytes → CapturePolicy
laid capture_bodies policy maximum headers = record (restrict_bodies capture_bodies policy) {
  max_blob_bytes = minimum policy.max_blob_bytes maximum;
  redact_headers = headers;
}

module _ (is_header_name : Bytes → Bool) where
  -- `for field in fields { .. policy.redact_headers.insert(field.to_owned()); }`.
  unfoldable pub add_fields : Items → List Bytes → Result ApplyError (List Bytes)
  unfolding as_str
  add_fields no_items headers = ok headers
  add_fields (item value rest) headers = do
    field ← context (as_str value) field_not_string
    map_err invalid_field (validate_header_name is_header_name field)
    add_fields rest (insert_name field headers)

  unfoldable pub apply_content : Value → CapturePolicy → Result ApplyError CapturePolicy
  apply_content content policy = do
    capture_bodies ←
        context (read_key as_bool (ascii "capture_bodies") content) invalid_capture_bodies
    maximum ← context (read_key as_u64 (ascii "max_body_bytes") content) invalid_max_body_bytes
    fields ← context (read_key as_array (ascii "redact_fields") content) invalid_redact_fields
    ensure (leb (item_count fields) max_redact_fields) too_many_fields
    headers ← add_fields fields policy.redact_headers
    map_err invalid_policy (validate is_header_name (laid capture_bodies policy maximum headers))
    ok (laid capture_bodies policy maximum headers)

  -- The policy after the call, and whether a configuration was laid over it.
  unfoldable pub apply_new_run_config :
      Option Value → CapturePolicy → Result ApplyError (CapturePolicy × Bool)
  apply_new_run_config none policy = ok (policy, false)
  apply_new_run_config (some effective_config) policy = do
    content ← context (read_key object_value content_policy effective_config) no_content_policy
    applied ← apply_content content policy
    ok (applied, true)
