-- ===== src/Control/Told.antt =====
-- What becomes of each setting of the platform's content policy in `merge_content_policy`
-- (src/control.rs).
use inference_io.Prelude.{
  ℕ, ◌≡◌, ◌⊎◌, refl, ◌∙◌, Bool, true, false, Option, none, some, ◌++◌, arith, inl, inr, Bool-cases,
  Option-cases, Result-cases, ◌==◌, ap, ==_iff,
}
use inference_io.Bytes.{Bytes, ascii, bytes_eq}
use inference_io.Json.{Value, object, array, string, number, null, bool, Fields, find_field}
use inference_io.Control.Fields.{as_bool, as_u64, setting, is_section-set_setting}
use inference_io.Control.Config.{
  LocalPolicy, content_policy, number_value, Merge, assign, reject_unknown,
}
use inference_io.Control.Merge.{
  minimum, positive, parse_redact_fields, merge_capture_bodies, merge_max_body_bytes,
  merge_redact_fields, merge_pty, is_false, content_names,
}
use inference_io.Control.Restrict.{setting-set_setting_same}
use inference_io.Control.Answered.{
  IsReported, reject-IsReported, reject_unknown-IsReported_kept,
  merge_max_body_bytes-IsReported_kept, merge_redact_fields-IsReported_kept,
  merge_pty-IsReported_kept,
}
use inference_io.Control.Taken.{
  IsTaken, bodies, maximum, headers, terminals, HasContent, reject_unknown-effective,
  merge_pty-effective, merge_max_body_bytes-setting, merge_redact_fields-setting,
  merge_max_body_bytes-HasContent,
}

abbrev pub reported_name : Bytes → Bytes
reported_name name = ascii "content_policy." ++ name

is_false-value : (value : Value) → is_false value ≡ true → value ≡ bool false
is_false-value (bool false) h = refl
is_false-value (bool true) h = cc
is_false-value (object _) h = cc
is_false-value (array _) h = cc
is_false-value (string _) h = cc
is_false-value (number _) h = cc
is_false-value null h = cc

module _ (is_header_name : Bytes → Bool) (policy : LocalPolicy) (content : Fields) where
  abbrev pub unknown : Merge → Merge
  unknown =
      reject_unknown content_names (ascii "content_policy.") (ascii "unknown content policy field")
        content

  -- What follows the limit, and what follows the Boolean.
  abbrev pub from_headers : Merge → Merge
  from_headers m = unknown (
      merge_pty (find_field (ascii "pty") content)
        (merge_redact_fields is_header_name (find_field (ascii "redact_fields") content) m))

  abbrev pub from_maximum : Merge → Merge
  from_maximum m =
      from_headers (merge_max_body_bytes (find_field (ascii "max_body_bytes") content) policy m)

  unknown-IsReported : (key : Bytes) (m : Merge) → IsReported key m → IsReported key (unknown m)
  unknown-IsReported key m h = reject_unknown-IsReported_kept key _ _ _ content m h

  from_pty-IsReported :
      (key : Bytes) (m : Merge)
      → IsReported key m
      → IsReported key (unknown (merge_pty (find_field (ascii "pty") content) m))
  from_pty-IsReported key m h =
      unknown-IsReported key _
        (merge_pty-IsReported_kept key (find_field (ascii "pty") content) m h)

  from_headers-IsReported :
      (key : Bytes) (m : Merge) → IsReported key m → IsReported key (from_headers m)
  from_headers-IsReported key m h = from_pty-IsReported key _ (
      merge_redact_fields-IsReported_kept key is_header_name
        (find_field (ascii "redact_fields") content) m h)

  from_maximum-IsReported :
      (key : Bytes) (m : Merge) → IsReported key m → IsReported key (from_maximum m)
  from_maximum-IsReported key m h = from_headers-IsReported key _ (
      merge_max_body_bytes-IsReported_kept key (find_field (ascii "max_body_bytes") content) policy
        m h)

  -- The configuration does not change after the names to redact.
  from_pty-effective :
      (m : Merge)
      → (unknown (merge_pty (find_field (ascii "pty") content) m)).effective ≡ m.effective
  from_pty-effective m =
      reject_unknown-effective _ _ _ content _
      ∙ merge_pty-effective (find_field (ascii "pty") content) m

  from_headers-setting :
      (wanted : Bytes) (m : Merge)
      → bytes_eq (ascii "redact_fields") wanted ≡ false
      → HasContent m
      → setting content_policy wanted (from_headers m).effective
        ≡ setting content_policy wanted m.effective
  from_headers-setting wanted m other has =
      ap (setting content_policy wanted) (from_pty-effective _)
      ∙ merge_redact_fields-setting wanted is_header_name
          (find_field (ascii "redact_fields") content) m other has

  pub capture_bodies-told :
      (value : Value) (m : Merge)
      → HasContent m
      → IsReported
          (reported_name (ascii "capture_bodies"))
          (from_maximum (merge_capture_bodies (some value) m))
        ⊎ IsTaken is_header_name
            (ascii "capture_bodies")
            value
            (from_maximum (merge_capture_bodies (some value) m)).effective
  unfolding merge_capture_bodies assign
  capture_bodies-told value m has = elim (Option-cases (as_bool value)) [
    | inl missing ↦
        rw (missing, merge_capture_bodies)
          (inl (from_maximum-IsReported _ _ (reject-IsReported _ _ m)))
    | inr (b, read) ↦
        let after : Merge = assign content_policy (ascii "capture_bodies") (bool b) m in
        let kept : HasContent after =
          is_section-set_setting content_policy (ascii "capture_bodies") (bool b) m.effective _
            has in
        rw (read, merge_capture_bodies)
          (inr (
            bodies b refl read (
              from_headers-setting (ascii "capture_bodies") _ refl (
                merge_max_body_bytes-HasContent (find_field (ascii "max_body_bytes") content) policy
                  after kept)
              ∙ merge_max_body_bytes-setting (ascii "capture_bodies")
                  (find_field (ascii "max_body_bytes") content) policy after refl kept
              ∙ setting-set_setting_same content_policy (ascii "capture_bodies") (bool b)
                  m.effective has)))
  ]

  positive-some : (read : Option ℕ) {n : ℕ} → positive read ≡ some n → read ≡ some n
  unfolding positive
  positive-some none h = h
  positive-some (some k) h = ground arith

  pub max_body_bytes-told :
      (value : Value) (m : Merge)
      → HasContent m
      → IsReported
          (reported_name (ascii "max_body_bytes"))
          (from_headers (merge_max_body_bytes (some value) policy m))
        ⊎ IsTaken is_header_name
            (ascii "max_body_bytes")
            value
            (from_headers (merge_max_body_bytes (some value) policy m)).effective
  unfolding merge_max_body_bytes assign
  max_body_bytes-told value m has = elim (Option-cases (positive (as_u64 value))) [
    | inl missing ↦
        rw (missing, merge_max_body_bytes)
          (inl (from_headers-IsReported _ _ (reject-IsReported _ _ m)))
    | inr (n, read) ↦ elim (Bool-cases (minimum n policy.max_body_bytes == n)) [
      | inr less ↦
          rw (read, merge_max_body_bytes, less)
            (inl (from_headers-IsReported _ _ (reject-IsReported _ _ _)))
      | inl exact ↦
          let same : minimum n policy.max_body_bytes ≡ n = (==_iff _ n).0 exact in
          let after : Merge =
            assign content_policy (ascii "max_body_bytes")
              (number_value (minimum n policy.max_body_bytes)) m in
          rw (read, merge_max_body_bytes, exact)
            (inr (
              maximum n refl (positive-some (as_u64 value) read) (
                from_headers-setting (ascii "max_body_bytes") after refl (
                  is_section-set_setting content_policy (ascii "max_body_bytes") _ m.effective _
                    has)
                ∙ setting-set_setting_same content_policy (ascii "max_body_bytes") _ m.effective has
                ∙ ap (λ k. some (number_value k)) same)))
    ]
  ]

  pub redact_fields-told :
      (value : Value) (m : Merge)
      → HasContent m
      → IsReported (reported_name (ascii "redact_fields")) (
          unknown (
            merge_pty
              (find_field (ascii "pty") content)
              (merge_redact_fields is_header_name (some value) m)))
        ⊎ IsTaken is_header_name
            (ascii "redact_fields")
            value
            (unknown (
              merge_pty
                (find_field (ascii "pty") content)
                (merge_redact_fields is_header_name (some value) m))).effective
  unfolding merge_redact_fields assign
  redact_fields-told value m has = elim (Result-cases (parse_redact_fields is_header_name value)) [
    | inr (error, failed) ↦
        rw (failed, merge_redact_fields) (inl (from_pty-IsReported _ _ (reject-IsReported _ _ m)))
    | inl (names, parsed) ↦
        rw (parsed, merge_redact_fields)
          (inr (
            headers names refl parsed (
              ap (setting content_policy (ascii "redact_fields")) (from_pty-effective _)
              ∙ setting-set_setting_same content_policy (ascii "redact_fields") _ m.effective has)))
  ]

  pub pty-told :
      (value : Value) (m : Merge)
      → IsReported (reported_name (ascii "pty")) (unknown (merge_pty (some value) m))
        ⊎ IsTaken is_header_name (ascii "pty") value (unknown (merge_pty (some value) m)).effective
  unfolding merge_pty
  pty-told value m = elim (Bool-cases (is_false value)) [
    | inl off ↦ inr (terminals refl (is_false-value value off))
    | inr on ↦ rw (on, merge_pty) (inl (unknown-IsReported _ _ (reject-IsReported _ _ m)))
  ]
