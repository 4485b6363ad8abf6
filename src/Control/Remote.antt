-- ===== src/Control/Remote.antt =====
-- `merge_remote_config` of src/control.rs: the retention settings, the sections that are never taken
-- over, and the whole. The test of http::header::HeaderName::from_bytes and the encoder of
-- serde_json are parameters.
use inference_io.Prelude.{
  ℕ, Bool, true, false, not, ◌&&◌, Option, none, some, List, [], ◌∷◌, ◌++◌, leb, ◌==◌, length,
  if◌then◌else◌, Result, ok, err, ◌>>=◌, ◌>>◌, ensure,
}
use inference_io.Bytes.{Bytes, ascii, bytes_eq}
use inference_io.Json.{Value, bool, Fields, no_fields, entry, find_field}
use inference_io.Input.{InputError, validate_json_complexity}
use inference_io.Control.Fields.{as_u64, as_object, is_assignable}
use inference_io.Control.Config.{
  max_config_bytes, max_config_sections, default_batch_bytes, default_batch_age_ms, LocalPolicy,
  ControlError, config_too_large, config_too_complex, config_not_object, too_many_sections,
  panicked, number_value, upload, content_policy, sensitive_tier_upload, retention_local,
  default_effective_config, Merge, assign, reject, reason, reject_unknown,
}
use inference_io.Control.Merge.{not_an_object, field_count, merge_content_policy}

abbrev is_number : ℕ → Option ℕ → Bool
is_number n none = false
is_number n (some m) = m == n

-- The settings of `upload` that are what the collector does anyway.
unfoldable pub is_fixed_upload : Bytes → Value → Bool
is_fixed_upload name value =
    if bytes_eq name (ascii "batch_max_bytes")
    then is_number default_batch_bytes (as_u64 value)
    else bytes_eq name (ascii "batch_max_age_ms") && is_number default_batch_age_ms (as_u64 value)

unfoldable pub reject_upload_fields : Fields → Merge → Merge
unfolding is_fixed_upload
reject_upload_fields no_fields m = m
reject_upload_fields (entry name value rest) m = reject_upload_fields rest (
    if is_fixed_upload name value
    then m
    else reject (ascii "upload." ++ name)
        (reason (ascii "fixed crash-safe local upload policy takes precedence")) m)

unfoldable pub reject_unsupported_upload : Value → Merge → Merge
reject_unsupported_upload value m = elim (as_object value) [
  | none ↦ reject upload (reason not_an_object) m
  | some fields ↦ reject_upload_fields fields m
]

unfoldable pub reject_sensitive : Value → Merge → Merge
reject_sensitive value m = elim (as_object value) [
  | some _ ↦
      reject sensitive_tier_upload
        (reason (ascii "sensitive evidence remains disabled by local policy")) m
  | none ↦ reject sensitive_tier_upload (reason not_an_object) m
]

-- `value.as_u64().filter(|hours| (1..=8_760).contains(hours))`.
unfoldable pub ttl_hours : Option ℕ → Option ℕ
ttl_hours none = none
ttl_hours (some hours) = if leb 1 hours && leb hours 8_760 then some hours else none

-- Why a TTL is not taken over.
unfoldable pub ttl_rejection : LocalPolicy → Bool → Option Bytes
ttl_rejection policy requires_class_keys =
    if not policy.allow_remote_delete
    then some (ascii "remote deletion is disabled by local policy")
    else if requires_class_keys && not policy.class_erasure_enabled
    then some (ascii "class TTL requires a local encryption key")
    else none

abbrev pub retention_name : Bytes → Bytes
retention_name name = ascii "retention_local." ++ name

unfoldable pub assign_ttl : Bytes → ℕ → Merge → Result ControlError Merge
assign_ttl name hours m =
    ensure (is_assignable retention_local m.effective) panicked
    >> ok (
        assign retention_local (ascii "remote_delete") (bool true)
          (assign retention_local name (number_value hours) m))

-- One round of the loop over the TTL settings.
unfoldable pub merge_ttl : Bytes → Bool → Fields → LocalPolicy → Merge → Result ControlError Merge
merge_ttl name requires_class_keys retention policy m = elim (find_field name retention) [
  | none ↦ ok m
  | some value ↦ elim (ttl_hours (as_u64 value)) [
    | none ↦ ok (
        reject (retention_name name)
          (reason (ascii "TTL must be an integer from 1 through 8760 hours")) m)
    | some hours ↦ elim (ttl_rejection policy requires_class_keys) [
      | some why ↦ ok (reject (retention_name name) (reason why) m)
      | none ↦ assign_ttl name hours m
    ]
  ]
]

abbrev pub ttl_settings : List (Bytes × Bool)
ttl_settings =
    (ascii "acked_events_ttl_hours", false)
    ∷ (ascii "body_ttl_hours", true)
    ∷ (ascii "pcap_ttl_hours", true)
    ∷ (ascii "tls_secrets_ttl_hours", true)
    ∷ []

unfoldable pub merge_ttls :
    List (Bytes × Bool) → Fields → LocalPolicy → Merge → Result ControlError Merge
merge_ttls [] retention policy m = ok m
merge_ttls ((name, requires_class_keys) ∷ rest) retention policy m =
    merge_ttl name requires_class_keys retention policy m >>= merge_ttls rest retention policy

abbrev pub ttl_names : List Bytes
ttl_names =
    ascii "acked_events_ttl_hours"
    ∷ ascii "body_ttl_hours"
    ∷ ascii "pcap_ttl_hours"
    ∷ ascii "tls_secrets_ttl_hours"
    ∷ []

unfoldable pub merge_retention_policy : Value → LocalPolicy → Merge → Result ControlError Merge
merge_retention_policy value policy m = elim (as_object value) [
  | none ↦ ok (reject retention_local (reason not_an_object) m)
  | some retention ↦ merge_ttls ttl_settings retention policy m >>= λ m'. ok (
      reject_unknown ttl_names (ascii "retention_local.")
        (ascii "local spool safety policy takes precedence") retention m')
]

abbrev pub section_names : List Bytes
section_names =
    content_policy
    ∷ upload
    ∷ sensitive_tier_upload
    ∷ retention_local
    ∷ ascii "egress_classification"
    ∷ ascii "scope"
    ∷ ascii "config_version"
    ∷ []

-- `if let Some(value) = sections.get(name) { .. }`.
abbrev pub if_some {ℓ} :
    {A : Type ℓ} → Option Value → (Value → A → Result ControlError A) → A → Result ControlError A
if_some none change a = ok a
if_some (some value) change a = change value a

unfoldable pub reject_egress : Value → Merge → Merge
reject_egress value m =
    reject (ascii "egress_classification")
      (reason
        (ascii "remote hostname classification is not applied without exact local socket policy"))
      m

unfoldable pub content_section :
    (Bytes → Bool) → Fields → LocalPolicy → Merge → Result ControlError Merge
content_section is_header_name sections policy =
    if_some (find_field content_policy sections)
      (λ value. merge_content_policy is_header_name value policy)

unfoldable pub upload_section : Fields → Merge → Result ControlError Merge
upload_section sections =
    if_some (find_field upload sections) (λ value m. ok (reject_unsupported_upload value m))

unfoldable pub sensitive_section : Fields → Merge → Result ControlError Merge
sensitive_section sections =
    if_some (find_field sensitive_tier_upload sections) (λ value m. ok (reject_sensitive value m))

unfoldable pub retention_section : Fields → LocalPolicy → Merge → Result ControlError Merge
retention_section sections policy =
    if_some (find_field retention_local sections) (λ value. merge_retention_policy value policy)

unfoldable pub egress_section : Fields → Merge → Result ControlError Merge
egress_section sections =
    if_some (find_field (ascii "egress_classification") sections)
      (λ value m. ok (reject_egress value m))

unfoldable pub unknown_sections : Fields → Merge → Result ControlError Merge
unknown_sections sections m =
    ok (reject_unknown section_names [] (ascii "unknown configuration section") sections m)

unfoldable pub merge_sections :
    (Bytes → Bool) → Fields → LocalPolicy → Merge → Result ControlError Merge
merge_sections is_header_name sections policy m =
    content_section is_header_name sections policy m
    >>= upload_section sections
    >>= sensitive_section sections
    >>= retention_section sections policy
    >>= egress_section sections
    >>= unknown_sections sections

abbrev pub complexity_checked : Result InputError (Unit {0}) → Result ControlError (Unit {0})
complexity_checked (ok done) = ok done
complexity_checked (err error) = err (config_too_complex error)

-- `config.as_object().context(..)?` and what follows.
unfoldable pub merge_object :
    (Bytes → Bool) → Option Fields → LocalPolicy → Result ControlError Merge
merge_object is_header_name none policy = err config_not_object
merge_object is_header_name (some sections) policy =
    ensure (leb (field_count sections) max_config_sections) too_many_sections
    >> merge_sections is_header_name sections policy (record {
      effective = default_effective_config policy.max_body_bytes;
      rejected = no_fields;
    })

unfoldable pub merge_remote_config :
    (Bytes → Bool) → (Value → Bytes) → Value → LocalPolicy → Result ControlError Merge
unfolding merge_object
merge_remote_config is_header_name to_vec config policy =
    ensure (leb (length (to_vec config)) max_config_bytes) config_too_large
    >> (complexity_checked (validate_json_complexity (to_vec config))
        >> merge_object is_header_name (as_object config) policy)
