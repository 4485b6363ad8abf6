-- ===== src/Control/Within.antt =====
-- `merge_remote_config` of src/control.rs against the local policy.
use inference_io.Prelude.{
  ℕ, ◌≡◌, ◌≢◌, ◌≤◌, refl, Bool, true, false, Option, none, some, List, [], ◌∷◌, arith, inl, inr,
  Result, ok, err, ◌>>=◌, ◌>>◌, ensure, leb, Option-cases, All, length,
}
use inference_io.Bytes.{Bytes, ascii, member}
use inference_io.Json.{Value, Fields, no_fields, entry, find_field, bool}
use inference_io.Input.{InputError, validate_json_complexity}
use inference_io.Control.Fields.{as_u64, as_object, is_section-is_assignable}
use inference_io.Control.Config.{
  LocalPolicy, ControlError, panicked, number_value, content_policy, retention_local, upload,
  sensitive_tier_upload, Merge, assign, reject_unknown, config_too_large, too_many_sections,
  config_not_object, max_config_bytes, max_config_sections,
}
use inference_io.Control.Merge.{merge_content_policy, field_count}
use inference_io.Control.Remote.{
  reject_upload_fields, reject_unsupported_upload, reject_sensitive, ttl_hours, ttl_rejection,
  assign_ttl, merge_ttl, merge_ttls, ttl_settings, merge_retention_policy, if_some, reject_egress,
  section_names, merge_sections, content_section, upload_section, sensitive_section,
  retention_section, egress_section, unknown_sections, complexity_checked, merge_remote_config,
  merge_object, is_fixed_upload,
}
use inference_io.Control.Restrict.{
  IsAllowed, deletion, lifetime, default-IsRestrictive, retention-IsRestrictive, class_ttl_names,
}
use inference_io.Control.Merged.{
  restrictive_bind, merged, refused, restrictive_if, reject-Keeps, reject_unknown-Keeps,
  merge_content_policy-RestrictiveResult, Keeps, RestrictiveResult,
}

module _ (policy : LocalPolicy) where
  reject_upload_fields-Keeps :
      (fields : Fields) (m : Merge) → Keeps policy m → Keeps policy (reject_upload_fields fields m)
  unfolding reject_upload_fields
  reject_upload_fields-Keeps no_fields m h = h
  reject_upload_fields-Keeps (entry name value rest) m h =
      reject_upload_fields-Keeps rest _
        (restrictive_if policy (is_fixed_upload name value) m _ h (reject-Keeps policy _ _ m h))

  reject_unsupported_upload-Keeps :
      (value : Value) (m : Merge)
      → Keeps policy m
      → Keeps policy (reject_unsupported_upload value m)
  unfolding reject_unsupported_upload
  reject_unsupported_upload-Keeps value m h = elim (Option-cases (as_object value)) [
    | inl missing ↦ rw (missing, reject_unsupported_upload) (reject-Keeps policy _ _ m h)
    | inr (fields, found) ↦
        rw (found, reject_unsupported_upload) (reject_upload_fields-Keeps fields m h)
  ]

  reject_sensitive-Keeps :
      (value : Value) (m : Merge) → Keeps policy m → Keeps policy (reject_sensitive value m)
  unfolding reject_sensitive
  reject_sensitive-Keeps value m h = elim (Option-cases (as_object value)) [
    | inl missing ↦ rw (missing, reject_sensitive) (reject-Keeps policy _ _ m h)
    | inr (fields, found) ↦ rw (found, reject_sensitive) (reject-Keeps policy _ _ m h)
  ]

  egress_kept : (value : Value) (m : Merge) → Keeps policy m → Keeps policy (reject_egress value m)
  unfolding reject_egress
  egress_kept value m h = reject-Keeps policy _ _ m h

  -- A lifetime that is not refused policy is one that the local policy allows.
  ttl_rejection-none :
      (requires_class_keys : Bool)
      → ttl_rejection policy requires_class_keys ≡ none
      → (policy.allow_remote_delete ≡ true)
        × (requires_class_keys ≡ true → policy.class_erasure_enabled ≡ true)
  unfolding ttl_rejection
  ttl_rejection-none requires_class_keys h = (ground arith, λ required. ground (arith, required))

  ttl_hours-some :
      (read : Option ℕ) {hours : ℕ} → ttl_hours read ≡ some hours → (1 ≤ hours) × (hours ≤ 8_760)
  unfolding ttl_hours
  ttl_hours-some none h = cc
  ttl_hours-some (some n) h = ground arith

  assign_ttl-RestrictiveResult :
      (name : Bytes) (hours : ℕ) (m : Merge)
      → Keeps policy m
      → IsAllowed policy name (number_value hours)
      → policy.allow_remote_delete ≡ true
      → RestrictiveResult policy (assign_ttl name hours m)
  unfolding RestrictiveResult assign_ttl assign
  assign_ttl-RestrictiveResult name hours m h allowed deletes =
      rw (is_section-is_assignable retention_local m.effective h.has_retention) (
        retention-IsRestrictive policy _
          (retention-IsRestrictive policy m.effective h name (number_value hours) allowed)
          (ascii "remote_delete") (bool true) (deletion refl (λ same. deletes)))

  merge_ttl-RestrictiveResult :
      (name : Bytes) (requires_class_keys : Bool) (retention : Fields) (m : Merge)
      → (member name class_ttl_names ≡ true → requires_class_keys ≡ true)
      → Keeps policy m
      → RestrictiveResult policy (merge_ttl name requires_class_keys retention policy m)
  unfolding RestrictiveResult merge_ttl
  merge_ttl-RestrictiveResult name requires_class_keys retention m class_key h =
      elim (Option-cases (find_field name retention)) [
        | inl missing ↦ rw (missing, merge_ttl) h
        | inr (value, found) ↦ elim (Option-cases (ttl_hours (as_u64 value))) [
          | inl invalid ↦ rw (found, merge_ttl, invalid) (reject-Keeps policy _ _ m h)
          | inr (hours, valid) ↦ elim (Option-cases (ttl_rejection policy requires_class_keys)) [
            | inr (why, barred) ↦ rw (found, merge_ttl, valid, barred) (reject-Keeps policy _ _ m h)
            | inl accepted ↦
                let (deletes, keys) = ttl_rejection-none requires_class_keys accepted in
                let (low, high) = ttl_hours-some (as_u64 value) valid in
                rw (found, merge_ttl, valid, accepted)
                  (assign_ttl-RestrictiveResult name hours m h
                    (lifetime hours refl low high deletes (λ is_class. keys (class_key is_class)))
                    deletes)
          ]
        ]
      ]

  merge_ttls-RestrictiveResult :
      (settings : List (Bytes × Bool)) (retention : Fields) (m : Merge)
      → All (λ (s : Bytes × Bool). member s.0 class_ttl_names ≡ true → s.1 ≡ true) settings
      → Keeps policy m
      → RestrictiveResult policy (merge_ttls settings retention policy m)
  unfolding RestrictiveResult merge_ttls
  merge_ttls-RestrictiveResult [] retention m keys h = h
  merge_ttls-RestrictiveResult ((name, requires) ∷ rest) retention m (key, keys) h =
      restrictive_bind policy _ _ (merge_ttl-RestrictiveResult name requires retention m key h)
        (λ m' h'. merge_ttls-RestrictiveResult rest retention m' keys h')

  merge_retention_policy-RestrictiveResult :
      (value : Value) (m : Merge)
      → Keeps policy m
      → RestrictiveResult policy (merge_retention_policy value policy m)
  unfolding RestrictiveResult merge_retention_policy
  merge_retention_policy-RestrictiveResult value m h = elim (Option-cases (as_object value)) [
    | inl missing ↦ rw (missing, merge_retention_policy) (reject-Keeps policy _ _ m h)
    | inr (retention, found) ↦
        rw (found, merge_retention_policy)
          (restrictive_bind policy (merge_ttls ttl_settings retention policy m) _
            (merge_ttls-RestrictiveResult ttl_settings retention m
              ((λ key. key), ((λ key. refl), ((λ key. refl), ((λ key. refl), tt)))) h)
            (λ m' h'. reject_unknown-Keeps policy _ _ _ retention m' h'))
  ]

  if_some-RestrictiveResult :
      (found : Option Value) (change : Value → Merge → Result ControlError Merge) (m : Merge)
      → ((value : Value) → RestrictiveResult policy (change value m))
      → Keeps policy m
      → RestrictiveResult policy (if_some found change m)
  if_some-RestrictiveResult none change m k h = merged policy m h
  if_some-RestrictiveResult (some value) change m k h = k value

  merge_sections-RestrictiveResult :
      (is_header_name : Bytes → Bool) (sections : Fields) (m : Merge)
      → Keeps policy m
      → RestrictiveResult policy (merge_sections is_header_name sections policy m)
  unfolding merge_sections content_section upload_section sensitive_section retention_section
      egress_section unknown_sections
  merge_sections-RestrictiveResult is_header_name sections m h =
      let a = content_section is_header_name sections policy m in
      let b = a >>= upload_section sections in
      let c = b >>= sensitive_section sections in
      let d = c >>= retention_section sections policy in
      let e = d >>= egress_section sections in
      restrictive_bind policy e (unknown_sections sections)
        (restrictive_bind policy d (egress_section sections)
          (restrictive_bind policy c (retention_section sections policy)
            (restrictive_bind policy b (sensitive_section sections)
              (restrictive_bind policy a (upload_section sections)
                (if_some-RestrictiveResult (find_field content_policy sections)
                  (λ (value : Value). merge_content_policy is_header_name value policy) m
                  (λ value. merge_content_policy-RestrictiveResult policy is_header_name value m h)
                  h)
                (λ m' h'.
                  if_some-RestrictiveResult (find_field upload sections)
                    (λ (value : Value) (n : Merge). ok (reject_unsupported_upload value n)) m'
                    (λ value.
                      merged policy (reject_unsupported_upload value m')
                        (reject_unsupported_upload-Keeps value m' h'))
                    h'))
              (λ m' h'.
                if_some-RestrictiveResult (find_field sensitive_tier_upload sections)
                  (λ (value : Value) (n : Merge). ok (reject_sensitive value n)) m'
                  (λ value.
                    merged policy (reject_sensitive value m') (reject_sensitive-Keeps value m' h'))
                  h'))
            (λ m' h'.
              if_some-RestrictiveResult (find_field retention_local sections)
                (λ (value : Value). merge_retention_policy value policy) m'
                (λ value. merge_retention_policy-RestrictiveResult value m' h') h'))
          (λ m' h'.
            if_some-RestrictiveResult (find_field (ascii "egress_classification") sections)
              (λ (value : Value) (n : Merge). ok (reject_egress value n)) m'
              (λ value. merged policy (reject_egress value m') (egress_kept value m' h')) h'))
        (λ m' h'.
          merged policy
            (reject_unknown section_names [] (ascii "unknown configuration section") sections m')
            (reject_unknown-Keeps policy _ _ _ sections m' h'))

checked :
    (policy : LocalPolicy) (test : Bool) (failure : ControlError) (next : Result ControlError Merge)
    → failure ≢ panicked
    → RestrictiveResult policy next
    → RestrictiveResult policy (ensure test failure >> next)
unfolding RestrictiveResult
checked policy true failure next other h = h
checked policy false failure next other h = other

complexity_rule :
    (policy : LocalPolicy) (result : Result InputError (Unit {0}))
    (next : Result ControlError Merge)
    → RestrictiveResult policy next
    → RestrictiveResult policy (complexity_checked result >> next)
unfolding RestrictiveResult
complexity_rule policy (ok done) next h = h
complexity_rule policy (err error) next h = λ same. cc

merge_object-RestrictiveResult :
    (policy : LocalPolicy) (is_header_name : Bytes → Bool) (read : Option Fields)
    → RestrictiveResult policy (merge_object is_header_name read policy)
unfolding merge_object
merge_object-RestrictiveResult policy is_header_name none =
    refused policy config_not_object (λ same. cc)
merge_object-RestrictiveResult policy is_header_name (some sections) =
    checked policy (leb (field_count sections) max_config_sections) too_many_sections _ (λ same. cc)
      (merge_sections-RestrictiveResult policy is_header_name sections _
        (default-IsRestrictive policy))

-- Whatever the platform sends, the merge does not panic, and a configuration that it makes is within
-- the local policy: bodies are at most the local maximum, every header name that is always secret
-- stays in the list of fields to redact, terminal capture and the upload of packets and TLS keys stay
-- off, remote deletion is on only where the local policy allows it, and a lifetime is set only where
-- it allows it (for a blob class: only with the keys of the classes) and is from 1 to 8760 hours.
pub merge_remote_config-IsRestrictive :
    (is_header_name : Bytes → Bool) (to_vec : Value → Bytes) (config : Value) (policy : LocalPolicy)
    → RestrictiveResult policy (merge_remote_config is_header_name to_vec config policy)
unfolding merge_remote_config
merge_remote_config-IsRestrictive is_header_name to_vec config policy =
    checked policy (leb (length (to_vec config)) max_config_bytes) config_too_large
      (complexity_checked (validate_json_complexity (to_vec config))
        >> merge_object is_header_name (as_object config) policy)
      (λ same. cc)
      (complexity_rule policy (validate_json_complexity (to_vec config))
        (merge_object is_header_name (as_object config) policy)
        (merge_object-RestrictiveResult policy is_header_name (as_object config)))
