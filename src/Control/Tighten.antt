-- ===== src/Control/Tighten.antt =====
-- What `apply_new_run_config` of src/control.rs does to the capture policy of a new run.
use inference_io.Prelude.{
  ℕ, ◌≡◌, ◌≤◌, ◌∙◌, refl, sym, Bool, true, false, Option, none, some, List, [], ◌∷◌, arith, leb,
  Result, ok, err, >>=-eq-ok, subst, Bool-cases, inl, inr, ensure-then, ap,
}
use inference_io.Bytes.{Bytes, ascii, member, bytes_eq}
use inference_io.Json.{Value, Items, no_items, item, as_str}
use inference_io.Policy.Capture.{CapturePolicy, permits_body, validate}
use inference_io.Control.Fields.{as_bool, as_u64, as_array}
use inference_io.Control.Names.{insert_name, member-insert_name, member-insert_name_kept}
use inference_io.Control.Config.{content_policy, name_items, max_redact_fields}
use inference_io.Control.Merge.{item_count, validate_header_name}
use inference_io.Control.Apply.{
  ApplyError, context, map_err, read_key, object_value, add_fields, restrict_bodies, apply_content,
  apply_new_run_config, invalid_field, field_not_string, laid, invalid_capture_bodies,
  invalid_max_body_bytes, invalid_redact_fields, too_many_fields, invalid_policy, no_content_policy,
}

-- A policy that keeps no more than another one.
pub record IsTighter (before after : CapturePolicy) : Type 0 where
  pub blobs : after.max_blob_bytes ≤ before.max_blob_bytes
  pub headers :
      (name : Bytes)
      → member name before.redact_headers ≡ true
      → member name after.redact_headers ≡ true
  pub bodies : (path : Bytes) → permits_body after path ≡ true → permits_body before path ≡ true
  pub paths : after.allowed_paths ≡ before.allowed_paths
  pub events : after.max_event_storage_bytes ≡ before.max_event_storage_bytes
  pub storage : after.max_run_blob_storage_bytes ≡ before.max_run_blob_storage_bytes

pub context-eq-some {ℓ} :
    {A : Type ℓ} (read : Option A) (failure : ApplyError) {a : A}
    → context read failure ≡ ok a
    → read ≡ some a
context-eq-some none failure h = cc
context-eq-some (some a) failure h = cc

map_err-eq-ok {ℓ κ} :
    {E : Type κ} {A : Type ℓ} (f : E → ApplyError) (m : Result E A) {a : A}
    → map_err f m ≡ ok a
    → m ≡ ok a
map_err-eq-ok f (err failure) h = cc
map_err-eq-ok f (ok a) h = cc

unit_eq : (u : Unit {0}) → u ≡ tt
unit_eq tt = refl

module _ (is_header_name : Bytes → Bool) where
  add_fields-keeps :
      (fields : Items) (headers : List Bytes) {after : List Bytes} (name : Bytes)
      → add_fields is_header_name fields headers ≡ ok after
      → member name headers ≡ true
      → member name after ≡ true
  unfolding add_fields
  add_fields-keeps no_items headers name h known = subst (λ l. member name l ≡ true) (cc h) known
  add_fields-keeps (item value rest) headers name h known =
      let (field, read, then_valid) = >>=-eq-ok (context (as_str value) field_not_string) _ h in
      let (done, valid, after) =
        >>=-eq-ok (map_err invalid_field (validate_header_name is_header_name field)) _
          then_valid in
      add_fields-keeps rest (insert_name field headers) name after
        (member-insert_name_kept name field headers known)

  -- Every text of the list that is laid over the policy ends up among its headers.
  pub add_fields-adds :
      (names headers : List Bytes) {after : List Bytes} (name : Bytes)
      → add_fields is_header_name (name_items names) headers ≡ ok after
      → member name names ≡ true
      → member name after ≡ true
  unfolding add_fields name_items as_str
  add_fields-adds [] headers name h known = cc
  add_fields-adds (first ∷ rest) headers name h known =
      let (done, valid, after) =
        >>=-eq-ok (map_err invalid_field (validate_header_name is_header_name first)) _ h in
      elim (Bool-cases (bytes_eq name first)) [
        | inl same ↦
            add_fields-keeps (name_items rest) (insert_name first headers) name after
              (ground (arith, same, member-insert_name name first headers))
        | inr differ ↦
            add_fields-adds rest (insert_name first headers) name after
              (ground (arith, differ, known))
      ]

  restrict_bodies-permits_body :
      (capture_bodies : Bool) (policy : CapturePolicy) (maximum : ℕ) (headers : List Bytes)
      (path : Bytes)
      → permits_body (laid capture_bodies policy maximum headers) path ≡ true
      → permits_body policy path ≡ true
  unfolding permits_body
  restrict_bodies-permits_body true policy maximum headers path h = h
  restrict_bodies-permits_body false policy maximum headers path h = cc

  restrict_bodies_same :
      (capture_bodies : Bool) (policy : CapturePolicy)
      → ((restrict_bodies capture_bodies policy).allowed_paths ≡ policy.allowed_paths)
        × ((restrict_bodies capture_bodies policy).max_event_storage_bytes
            ≡ policy.max_event_storage_bytes)
        × ((restrict_bodies capture_bodies policy).max_run_blob_storage_bytes
            ≡ policy.max_run_blob_storage_bytes)
  restrict_bodies_same true policy = (refl, refl, refl)
  restrict_bodies_same false policy = (refl, refl, refl)

  -- What a call that succeeds has read and checked.
  pub record Applied (content : Value) (policy after : CapturePolicy) : Type 0 where
    pub capture_bodies : Bool
    pub maximum : ℕ
    pub fields : Items
    pub read_maximum : read_key as_u64 (ascii "max_body_bytes") content ≡ some maximum
    pub read_fields : read_key as_array (ascii "redact_fields") content ≡ some fields
    pub headers : List Bytes
    pub added : add_fields is_header_name fields policy.redact_headers ≡ ok headers
    pub is_after : laid capture_bodies policy maximum headers ≡ after
    pub valid : validate is_header_name after ≡ ok tt

  pub apply_content-Applied :
      (content : Value) (policy : CapturePolicy) {after : CapturePolicy}
      → apply_content is_header_name content policy ≡ ok after
      → Applied content policy after
  unfolding apply_content
  apply_content-Applied content policy {after} h =
      let (capture_bodies, read1, h1) =
        >>=-eq-ok
          (context (read_key as_bool (ascii "capture_bodies") content) invalid_capture_bodies) _
          h in
      let (maximum, read2, h2) =
        >>=-eq-ok
          (context (read_key as_u64 (ascii "max_body_bytes") content) invalid_max_body_bytes) _
          h1 in
      let (fields, read3, h3) =
        >>=-eq-ok
          (context (read_key as_array (ascii "redact_fields") content) invalid_redact_fields) _
          h2 in
      let (few, h4) =
        ensure-then (leb (item_count fields) max_redact_fields) too_many_fields _ h3 in
      let (headers, added, h5) =
        >>=-eq-ok (add_fields is_header_name fields policy.redact_headers) _ h4 in
      let (done, valid, h6) =
        >>=-eq-ok
          (map_err invalid_policy
            (validate is_header_name (laid capture_bodies policy maximum headers)))
          _ h5 in
      let same : laid capture_bodies policy maximum headers ≡ after = cc h6 in
      record {
        capture_bodies = capture_bodies;
        maximum = maximum;
        fields = fields;
        read_maximum = context-eq-some _ _ read2;
        read_fields = context-eq-some _ _ read3;
        headers = headers;
        added = added;
        is_after = same;
        valid =
            subst (λ p. validate is_header_name p ≡ ok tt) same
              (map_err-eq-ok _ _ (valid ∙ ap ok (unit_eq done)));
      }

  Applied-IsTighter :
      (content : Value) (policy after : CapturePolicy)
      → Applied content policy after
      → IsTighter policy after
  Applied-IsTighter content policy after a =
      let same = restrict_bodies_same a.capture_bodies policy in
      subst (λ p. IsTighter policy p) a.is_after
        (record {
          blobs = ground arith;
          headers =
              λ name known. add_fields-keeps a.fields policy.redact_headers name a.added known;
          bodies = λ path h.
              restrict_bodies-permits_body a.capture_bodies policy a.maximum a.headers path h;
          paths = same.0;
          events = same.1;
          storage = same.2;
        })

IsTighter-refl : (policy : CapturePolicy) → IsTighter policy policy
IsTighter-refl policy = record {
  blobs = omega arith;
  headers = λ name known. known;
  bodies = λ path h. h;
  paths = refl;
  events = refl;
  storage = refl;
}

-- Laying the collector's configuration over the policy of a new run never loosens it: a body that the
-- new policy permits was permitted before, blobs are no larger, every header that was redacted still
-- is, and the other limits stay. Where a configuration was laid over it, the new policy is valid;
-- without one it is the old policy.
pub apply_new_run_config-IsTighter :
    (is_header_name : Bytes → Bool) (effective_config : Option Value) (policy after : CapturePolicy)
    (laid_over : Bool)
    → apply_new_run_config is_header_name effective_config policy ≡ ok (after, laid_over)
    → IsTighter policy after
      × (laid_over ≡ true → validate is_header_name after ≡ ok tt)
      × (laid_over ≡ false → after ≡ policy)
unfolding apply_new_run_config
apply_new_run_config-IsTighter is_header_name none policy after laid_over h =
    let same : policy ≡ after = cc h in
    (
      subst (λ p. IsTighter policy p) same (IsTighter-refl policy),
      (λ was. ground (arith, h, was)),
      (λ was. sym same),
    )
apply_new_run_config-IsTighter is_header_name (some effective_config) policy after laid_over h =
    let (content, read, h1) =
      >>=-eq-ok (context (read_key object_value content_policy effective_config) no_content_policy)
        _ h in
    let (applied, run, h2) = >>=-eq-ok (apply_content is_header_name content policy) _ h1 in
    let same : applied ≡ after = cc h2 in
    let facts = apply_content-Applied is_header_name content policy run in
    (
      subst (λ p. IsTighter policy p) same
          (Applied-IsTighter is_header_name content policy applied facts),
      (λ was. subst (λ p. validate is_header_name p ≡ ok tt) same facts.valid),
      (λ was. ground (arith, h2, was)),
    )
