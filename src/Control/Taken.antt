-- ===== src/Control/Taken.antt =====
-- What it is for a setting of the platform's content policy to be taken over, and what each step of
-- `merge_content_policy` (src/control.rs) leaves of the others.
use inference_io.Prelude.{
  ℕ, ◌≡◌, refl, ◌∙◌, Bool, true, false, Option, none, some, List, [], ◌++◌, inl, inr, if◌then◌else◌,
  Bool-cases, Option-cases, Result-cases, ok, ◌==◌,
}
use inference_io.Bytes.{Bytes, ascii, bytes_eq, member}
use inference_io.Json.{Value, array, bool, Fields, no_fields, entry}
use inference_io.Policy.Secrets.{always_secret_headers}
use inference_io.Control.Fields.{as_bool, as_u64, is_section, setting, is_section-set_setting}
use inference_io.Control.Names.{extend_names}
use inference_io.Control.Config.{
  LocalPolicy, content_policy, number_value, name_items, Merge, assign, reject, reason,
  reject_unknown,
}
use inference_io.Control.Merge.{
  minimum, positive, parse_redact_fields, merge_capture_bodies, merge_max_body_bytes,
  merge_redact_fields, merge_pty, is_false,
}
use inference_io.Control.Restrict.{setting-set_setting_other}

-- The effective configuration does what a setting asks: the Boolean or the number itself, or the names
-- that are always secret and those that it lists; to leave terminals alone is what is done anyway.
pub data IsTaken (is_header_name : Bytes → Bool) (name : Bytes) (value effective : Value)
    : Type 0 where
  bodies :
      (b : Bool)
      → name ≡ ascii "capture_bodies"
      → as_bool value ≡ some b
      → setting content_policy (ascii "capture_bodies") effective ≡ some (bool b)
      → IsTaken is_header_name name value effective
  maximum :
      (n : ℕ)
      → name ≡ ascii "max_body_bytes"
      → as_u64 value ≡ some n
      → setting content_policy (ascii "max_body_bytes") effective ≡ some (number_value n)
      → IsTaken is_header_name name value effective
  headers :
      (names : List Bytes)
      → name ≡ ascii "redact_fields"
      → parse_redact_fields is_header_name value ≡ ok names
      → setting content_policy (ascii "redact_fields") effective
        ≡ some (array (name_items (extend_names (extend_names [] always_secret_headers) names)))
      → IsTaken is_header_name name value effective
  terminals : name ≡ ascii "pty" → value ≡ bool false → IsTaken is_header_name name value effective

abbrev pub HasContent : Merge → Type 0
HasContent m = is_section content_policy m.effective ≡ true

pub reject_unknown-effective :
    (known : List Bytes) (prefix text : Bytes) (fields : Fields) (m : Merge)
    → (reject_unknown known prefix text fields m).effective ≡ m.effective
unfolding reject_unknown reject
reject_unknown-effective known prefix text no_fields m = refl
reject_unknown-effective known prefix text (entry name v rest) m =
    reject_unknown-effective known prefix text rest _
    ∙ (elim (member name known)
        as (λ test.
          (if test then m else reject (prefix ++ name) (reason text) m).effective ≡ m.effective) [
            | true ↦ refl
            | false ↦ refl
          ])

pub merge_pty-effective :
    (found : Option Value) (m : Merge) → (merge_pty found m).effective ≡ m.effective
unfolding merge_pty reject
merge_pty-effective none m = refl
merge_pty-effective (some value) m = elim (Bool-cases (is_false value)) [
  | inl off ↦ rw off refl
  | inr on ↦ rw on refl
]

-- The steps that assign leave the other settings, and the section stays one.
pub merge_max_body_bytes-setting :
    (wanted : Bytes) (found : Option Value) (policy : LocalPolicy) (m : Merge)
    → bytes_eq (ascii "max_body_bytes") wanted ≡ false
    → HasContent m
    → setting content_policy wanted (merge_max_body_bytes found policy m).effective
      ≡ setting content_policy wanted m.effective
unfolding merge_max_body_bytes assign reject
merge_max_body_bytes-setting wanted none policy m other has = refl
merge_max_body_bytes-setting wanted (some value) policy m other has =
    elim (Option-cases (positive (as_u64 value))) [
      | inl missing ↦ rw (missing, merge_max_body_bytes) refl
      | inr (n, read) ↦ elim (Bool-cases (minimum n policy.max_body_bytes == n)) [
        | inl exact ↦
            rw (read, merge_max_body_bytes, exact)
              (setting-set_setting_other content_policy (ascii "max_body_bytes") _ m.effective
                content_policy wanted has other)
        | inr less ↦
            rw (read, merge_max_body_bytes, less)
              (setting-set_setting_other content_policy (ascii "max_body_bytes") _ m.effective
                content_policy wanted has other)
      ]
    ]

pub merge_redact_fields-setting :
    (wanted : Bytes) (is_header_name : Bytes → Bool) (found : Option Value) (m : Merge)
    → bytes_eq (ascii "redact_fields") wanted ≡ false
    → HasContent m
    → setting content_policy wanted (merge_redact_fields is_header_name found m).effective
      ≡ setting content_policy wanted m.effective
unfolding merge_redact_fields assign reject
merge_redact_fields-setting wanted is_header_name none m other has = refl
merge_redact_fields-setting wanted is_header_name (some value) m other has =
    elim (Result-cases (parse_redact_fields is_header_name value)) [
      | inr (error, failed) ↦ rw (failed, merge_redact_fields) refl
      | inl (names, parsed) ↦
          rw (parsed, merge_redact_fields)
            (setting-set_setting_other content_policy (ascii "redact_fields") _ m.effective
              content_policy wanted has other)
    ]

pub merge_capture_bodies-HasContent :
    (found : Option Value) (m : Merge) → HasContent m → HasContent (merge_capture_bodies found m)
unfolding merge_capture_bodies assign reject
merge_capture_bodies-HasContent none m has = has
merge_capture_bodies-HasContent (some value) m has = elim (Option-cases (as_bool value)) [
  | inl missing ↦ rw (missing, merge_capture_bodies) has
  | inr (b, read) ↦
      rw (read, merge_capture_bodies)
        (is_section-set_setting content_policy (ascii "capture_bodies") (bool b) m.effective _ has)
]

pub merge_max_body_bytes-HasContent :
    (found : Option Value) (policy : LocalPolicy) (m : Merge)
    → HasContent m
    → HasContent (merge_max_body_bytes found policy m)
unfolding merge_max_body_bytes assign reject
merge_max_body_bytes-HasContent none policy m has = has
merge_max_body_bytes-HasContent (some value) policy m has =
    elim (Option-cases (positive (as_u64 value))) [
      | inl missing ↦ rw (missing, merge_max_body_bytes) has
      | inr (n, read) ↦
          let after =
            is_section-set_setting content_policy (ascii "max_body_bytes")
              (number_value (minimum n policy.max_body_bytes)) m.effective _ has in
          elim (Bool-cases (minimum n policy.max_body_bytes == n)) [
            | inl exact ↦ rw (read, merge_max_body_bytes, exact) after
            | inr less ↦ rw (read, merge_max_body_bytes, less) after
          ]
    ]
