-- ===== src/Control/Merged.antt =====
-- The content settings of `merge_remote_config` (src/control.rs) against the local policy.
use inference_io.Prelude.{
  ◌≡◌, ◌≢◌, Bool, true, false, Option, none, some, List, [], ◌++◌, arith, if◌then◌else◌, inl, inr,
  Result, ok, err, ◌>>=◌, ◌==◌, Option-cases, Result-cases,
}
use inference_io.Bytes.{Bytes, ascii, member}
use inference_io.Json.{Value, Fields, no_fields, entry, bool}
use inference_io.Policy.Secrets.{always_secret_headers}
use inference_io.Control.Fields.{as_u64, as_bool, as_object}
use inference_io.Control.Names.{extend_names, member-extend_names}
use inference_io.Control.Config.{
  LocalPolicy, ControlError, panicked, content_policy, Merge, assign, reject, reason,
  reject_unknown,
}
use inference_io.Control.Merge.{
  minimum, positive, parse_redact_fields, merge_capture_bodies, merge_max_body_bytes,
  merge_redact_fields, merge_pty, merge_content_fields, merge_content_policy, is_false,
}
use inference_io.Control.Restrict.{
  IsRestrictive, capture_bodies-IsRestrictive, max_body_bytes-IsRestrictive,
  redact_fields-IsRestrictive,
}

keeps_secrets :
    (name : Bytes) (fields : List Bytes)
    → member name always_secret_headers ≡ true
    → member name (extend_names (extend_names [] always_secret_headers) fields) ≡ true
keeps_secrets name fields known = ground (
  arith,
  known,
  member-extend_names name (extend_names [] always_secret_headers) fields,
  member-extend_names name [] always_secret_headers,
)

module _ (policy : LocalPolicy) where
  abbrev pub Keeps : Merge → Type 0
  Keeps m = IsRestrictive policy m.effective

  -- A result that is restrictive, or an error that is no panic.
  unfoldable pub RestrictiveResult : Result ControlError Merge → Type 0
  RestrictiveResult (ok m) = IsRestrictive policy m.effective
  RestrictiveResult (err error) = error ≢ panicked

  pub restrictive_bind :
      (first : Result ControlError Merge) (next : Merge → Result ControlError Merge)
      → RestrictiveResult first
      → ((m : Merge) → Keeps m → RestrictiveResult (next m))
      → RestrictiveResult (first >>= next)
  unfolding RestrictiveResult
  restrictive_bind (ok m) next h k = k m h
  restrictive_bind (err error) next h k = h

  pub refused : (error : ControlError) → error ≢ panicked → RestrictiveResult (err error)
  unfolding RestrictiveResult
  refused error other = other

  pub merged : (m : Merge) → Keeps m → RestrictiveResult (ok m)
  unfolding RestrictiveResult
  merged m h = h

  pub restrictive_if :
      (test : Bool) (m m' : Merge) → Keeps m → Keeps m' → Keeps (if test then m else m')
  restrictive_if true m m' h h' = h
  restrictive_if false m m' h h' = h'

  pub reject-Keeps : (name : Bytes) (why : Value) (m : Merge) → Keeps m → Keeps (reject name why m)
  unfolding reject
  reject-Keeps name why m h = h

  pub reject_unknown-Keeps :
      (known : List Bytes) (prefix text : Bytes) (fields : Fields) (m : Merge)
      → Keeps m
      → Keeps (reject_unknown known prefix text fields m)
  unfolding reject_unknown
  reject_unknown-Keeps known prefix text no_fields m h = h
  reject_unknown-Keeps known prefix text (entry name v rest) m h =
      reject_unknown-Keeps known prefix text rest
        (if member name known then m else reject (prefix ++ name) (reason text) m)
        (restrictive_if (member name known) _ _ h (reject-Keeps _ _ m h))

  merge_capture_bodies-Keeps :
      (found : Option Value) (m : Merge) → Keeps m → Keeps (merge_capture_bodies found m)
  unfolding merge_capture_bodies assign
  merge_capture_bodies-Keeps none m h = h
  merge_capture_bodies-Keeps (some value) m h =
      elim (as_bool value)
        as (λ read. Keeps (elim read [
          | some enabled ↦ assign content_policy (ascii "capture_bodies") (bool enabled) m
          | none ↦
              reject (ascii "content_policy.capture_bodies")
                (reason (ascii "value is not a boolean")) m
        ])) [
          | some enabled ↦ capture_bodies-IsRestrictive policy m.effective h enabled
          | none ↦ reject-Keeps _ _ m h
        ]

  merge_max_body_bytes-Keeps :
      (found : Option Value) (m : Merge) → Keeps m → Keeps (merge_max_body_bytes found policy m)
  unfolding merge_max_body_bytes assign
  merge_max_body_bytes-Keeps none m h = h
  merge_max_body_bytes-Keeps (some value) m h = elim (Option-cases (positive (as_u64 value))) [
    | inl missing ↦ rw (missing, merge_max_body_bytes) (reject-Keeps _ _ m h)
    | inr (maximum, found) ↦
        let after =
          max_body_bytes-IsRestrictive policy m.effective h (minimum maximum policy.max_body_bytes)
            (ground arith) in
        rw (found, merge_max_body_bytes)
          (restrictive_if (minimum maximum policy.max_body_bytes == maximum) _ _ after
            (reject-Keeps _ _ _ after))
  ]

  merge_redact_fields-Keeps :
      (is_header_name : Bytes → Bool) (found : Option Value) (m : Merge)
      → Keeps m
      → Keeps (merge_redact_fields is_header_name found m)
  unfolding merge_redact_fields assign
  merge_redact_fields-Keeps is_header_name none m h = h
  merge_redact_fields-Keeps is_header_name (some value) m h =
      elim (Result-cases (parse_redact_fields is_header_name value)) [
        | inl (fields, parsed) ↦
            rw (parsed, merge_redact_fields)
              (redact_fields-IsRestrictive policy m.effective h
                (extend_names (extend_names [] always_secret_headers) fields)
                (λ name known. keeps_secrets name fields known))
        | inr (error, failed) ↦ rw (failed, merge_redact_fields) (reject-Keeps _ _ m h)
      ]

  merge_pty-Keeps : (found : Option Value) (m : Merge) → Keeps m → Keeps (merge_pty found m)
  unfolding merge_pty
  merge_pty-Keeps none m h = h
  merge_pty-Keeps (some value) m h = restrictive_if (is_false value) _ _ h (reject-Keeps _ _ m h)

  pub merge_content_policy-RestrictiveResult :
      (is_header_name : Bytes → Bool) (value : Value) (m : Merge)
      → Keeps m
      → RestrictiveResult (merge_content_policy is_header_name value policy m)
  unfolding RestrictiveResult merge_content_policy merge_content_fields
  merge_content_policy-RestrictiveResult is_header_name value m h =
      elim (Option-cases (as_object value)) [
        | inl missing ↦ rw (missing, merge_content_policy) (reject-Keeps _ _ m h)
        | inr (content, found) ↦
            rw (found, merge_content_policy, h.has_content)
              (reject_unknown-Keeps _ _ _ content _ (
                merge_pty-Keeps _ _ (
                  merge_redact_fields-Keeps is_header_name _ _
                    (merge_max_body_bytes-Keeps _ _ (merge_capture_bodies-Keeps _ m h)))))
      ]
