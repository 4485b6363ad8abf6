-- ===== src/Control/Answered.antt =====
-- No setting of the platform's content policy is dropped in silence (`merge_content_policy` of
-- src/control.rs).
use inference_io.Prelude.{
  ◌≡◌, refl, sym, ◌∙◌, Bool, true, false, Option, none, some, List, ◌++◌, arith, inl, inr,
  if◌then◌else◌, Bool-cases, Option-cases, Result-cases, ◌==◌, subst,
}
use inference_io.Bytes.{Bytes, bytes_eq, bytes_eq_iff, bytes_eq_refl, member}
use inference_io.Json.{Value, Fields, no_fields, entry, find_field}
use inference_io.Control.Fields.{as_u64, find_field-insert_field}
use inference_io.Control.Config.{LocalPolicy, Merge, assign, reject, reason, reject_unknown}
use inference_io.Control.Merge.{
  minimum, positive, parse_redact_fields, merge_max_body_bytes, merge_redact_fields, merge_pty,
  is_false,
}

-- A setting that the rejected settings name.
abbrev pub IsReported : Bytes → Merge → Type 0
IsReported key m = (why : Value) × (find_field key m.rejected ≡ some why)

pub reject-IsReported : (key : Bytes) (why : Value) (m : Merge) → IsReported key (reject key why m)
unfolding reject
reject-IsReported key why m =
    (why, find_field-insert_field key why m.rejected key ∙ rw (bytes_eq_refl key) refl)

-- What is reported stays reported.
reject-IsReported_kept :
    (key other : Bytes) (why : Value) (m : Merge)
    → IsReported key m
    → IsReported key (reject other why m)
unfolding reject
reject-IsReported_kept key other why m (first, found) = elim (Bool-cases (bytes_eq other key)) [
  | inl same ↦ (why, find_field-insert_field other why m.rejected key ∙ rw same refl)
  | inr differ ↦ (first, find_field-insert_field other why m.rejected key ∙ rw differ found)
]

IsReported-if :
    (key : Bytes) (test : Bool) (m n : Merge)
    → IsReported key m
    → IsReported key n
    → IsReported key (if test then m else n)
IsReported-if key true m n h k = h
IsReported-if key false m n h k = k

pub reject_unknown-IsReported_kept :
    (key : Bytes) (known : List Bytes) (prefix text : Bytes) (fields : Fields) (m : Merge)
    → IsReported key m
    → IsReported key (reject_unknown known prefix text fields m)
unfolding reject_unknown
reject_unknown-IsReported_kept key known prefix text no_fields m h = h
reject_unknown-IsReported_kept key known prefix text (entry name v rest) m h =
    reject_unknown-IsReported_kept key known prefix text rest _ (
      IsReported-if key (member name known) m _ h
        (reject-IsReported_kept key (prefix ++ name) (reason text) m h))

-- A name that is not known is reported.
pub reject_unknown-IsReported :
    (known : List Bytes) (prefix text name : Bytes) (value : Value) (fields : Fields) (m : Merge)
    → member name known ≡ false
    → find_field name fields ≡ some value
    → IsReported (prefix ++ name) (reject_unknown known prefix text fields m)
unfolding reject_unknown find_field
reject_unknown-IsReported known prefix text name value no_fields m strange found = cc
reject_unknown-IsReported known prefix text name value (entry k v rest) m strange found =
    elim (Bool-cases (bytes_eq k name)) [
      | inl same ↦
          let is_name : k ≡ name = (bytes_eq_iff k name).0 same in
          reject_unknown-IsReported_kept (prefix ++ name) known prefix text rest _ (
            subst
              (λ n.
                IsReported (prefix ++ name)
                  (if member n known then m else reject (prefix ++ n) (reason text) m))
              (sym is_name) (rw strange (reject-IsReported (prefix ++ name) (reason text) m)))
      | inr differ ↦
          reject_unknown-IsReported known prefix text name value rest _ strange
            (ground (arith, differ, found))
    ]

-- The steps keep what was reported.
pub merge_max_body_bytes-IsReported_kept :
    (key : Bytes) (found : Option Value) (policy : LocalPolicy) (m : Merge)
    → IsReported key m
    → IsReported key (merge_max_body_bytes found policy m)
unfolding merge_max_body_bytes assign
merge_max_body_bytes-IsReported_kept key none policy m h = h
merge_max_body_bytes-IsReported_kept key (some value) policy m h =
    elim (Option-cases (positive (as_u64 value))) [
      | inl missing ↦ rw (missing, merge_max_body_bytes) (reject-IsReported_kept key _ _ m h)
      | inr (maximum, read) ↦
          rw (read, merge_max_body_bytes)
            (IsReported-if key (minimum maximum policy.max_body_bytes == maximum) _ _ h
              (reject-IsReported_kept key _ _ _ h))
    ]

pub merge_redact_fields-IsReported_kept :
    (key : Bytes) (is_header_name : Bytes → Bool) (found : Option Value) (m : Merge)
    → IsReported key m
    → IsReported key (merge_redact_fields is_header_name found m)
unfolding merge_redact_fields assign
merge_redact_fields-IsReported_kept key is_header_name none m h = h
merge_redact_fields-IsReported_kept key is_header_name (some value) m h =
    elim (Result-cases (parse_redact_fields is_header_name value)) [
      | inl (fields, parsed) ↦ rw (parsed, merge_redact_fields) h
      | inr (error, failed) ↦ rw (failed, merge_redact_fields) (reject-IsReported_kept key _ _ m h)
    ]

pub merge_pty-IsReported_kept :
    (key : Bytes) (found : Option Value) (m : Merge)
    → IsReported key m
    → IsReported key (merge_pty found m)
unfolding merge_pty
merge_pty-IsReported_kept key none m h = h
merge_pty-IsReported_kept key (some value) m h =
    IsReported-if key (is_false value) _ _ h (reject-IsReported_kept key _ _ m h)
