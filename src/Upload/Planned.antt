-- ===== src/Upload/Planned.antt =====
-- A plan that is built passes the check that is made of it when it is read again.
use inference_io.Prelude.{
  ℕ, ◌+◌, ◌≤◌, ◌≡◌, refl, ap, subst, true, List, [], ◌∷◌, ◌++◌, Option, none, some, arith, length,
  drop, saturating_add, ◌⊎◌, inl, inr, ok, >>=-eq-ok, Bool-cases, Option-cases,
}
use inference_io.Bytes.{bytes_eq_refl, Bytes}
use inference_io.Bytes.Map.{Map, lookup, insert}
use inference_io.Model.{validate_payload, EventEnvelope, PayloadRef, validate_envelope}
use inference_io.Audit.Log.{option_eq}
use inference_io.Upload.State.{
  BlobPlan, BatchPlan, Checked, default_batch_bytes, max_platform_sequence, validate_sha,
  validate_blobs, validate_batch, validate_batches, is_sensitive_upload_media_type,
}
use inference_io.Upload.Plan.{add_blob_plan, values, Planning, plan_of}

pub validate_batches-append :
    (batches more : List BatchPlan) (s t : Checked)
    → validate_batches batches s ≡ ok t
    → validate_batches (batches ++ more) s ≡ validate_batches more t
unfolding validate_batches
validate_batches-append [] more s t h =
    let same : s ≡ t = cc h in ap (λ c. validate_batches more c) same
validate_batches-append (b ∷ batches) more s t h =
    let (u, one, rest) = >>=-eq-ok (validate_batch b s) _ h in
    rw one (validate_batches-append batches more u t rest)

insert-validate_blobs :
    (key : Bytes) (blob : BlobPlan) (blobs : Map BlobPlan)
    → validate_blobs (blob ∷ []) ≡ ok tt
    → validate_blobs (values blobs) ≡ ok tt
    → validate_blobs (values (insert key blob blobs)) ≡ ok tt
unfolding validate_blobs insert
insert-validate_blobs key blob [] h hs = h
insert-validate_blobs key blob ((k, b) ∷ blobs) h hs =
    ground (arith, h, hs, insert-validate_blobs key blob blobs h)

payload-validate_sha :
    (reference : PayloadRef)
    → validate_payload (some reference) ≡ ok tt
    → validate_sha (drop 7 reference.sha256) ≡ ok tt
unfolding validate_sha
payload-validate_sha reference h = ground (arith, h)

pub validate_envelope-payload :
    (e : EventEnvelope) → validate_envelope e ≡ ok tt → validate_payload e.raw ≡ ok tt
unfolding validate_envelope
validate_envelope-payload e h = ground (arith, h)

pub add_blob_plan-validate_blobs :
    (blobs more : Map BlobPlan) (raw : Option PayloadRef)
    → validate_payload raw ≡ ok tt
    → validate_blobs (values blobs) ≡ ok tt
    → add_blob_plan blobs raw ≡ ok more
    → validate_blobs (values more) ≡ ok tt
unfolding add_blob_plan validate_blobs
add_blob_plan-validate_blobs blobs more none valid hs h =
    let same : blobs ≡ more = cc h in subst (λ m. validate_blobs (values m) ≡ ok tt) same hs
add_blob_plan-validate_blobs blobs more (some r) valid hs h =
    let sha = payload-validate_sha r valid in
    elim (Bool-cases (is_sensitive_upload_media_type r.media_type)) [
      | inl e ↦
          let same : blobs ≡ more = ground (arith, e, h) in
          subst (λ m. validate_blobs (values m) ≡ ok tt) same hs
      | inr e ↦ elim (Option-cases (lookup (drop 7 r.sha256) blobs)) [
        | inr (existing, f) ↦
            let same : blobs ≡ more = ground (arith, e, f, h) in
            subst (λ m. validate_blobs (values m) ≡ ok tt) same hs
        | inl f ↦
            let candidate : BlobPlan = record {
              sha256 = drop 7 r.sha256;
              size = r.size;
              media_type = r.media_type;
            } in
            let same : insert (drop 7 r.sha256) candidate blobs ≡ more = ground (arith, e, f, h) in
            subst (λ m. validate_blobs (values m) ≡ ok tt) same
              (insert-validate_blobs (drop 7 r.sha256) candidate blobs (ground (arith, sha, e)) hs)
      ]
    ]

-- The events that have been taken up are planned: those of the batches that have been made, and those
-- that have been gathered for the next.
pub record IsPlanning (start : Checked) (p : Planning) : Type 0 where
  pub made : Checked
  pub checked : validate_batches p.batches start ≡ ok made
  pub previous : made.previous ≡ p.previous
  pub next : made.next + p.count ≡ p.expected
  pub first :
      ((p.count ≡ 0) × (length p.raw ≡ 0))
      ⊎ ((p.first_seq ≡ made.next)
          × (p.last_seq + 1 ≡ p.expected)
          × (1 ≤ length p.raw)
          × (1 ≤ p.count))
  pub small : length p.raw ≤ default_batch_bytes
  pub blobs : validate_blobs (values p.blobs) ≡ ok tt

option_eq_refl : (o : Option Bytes) → option_eq o o ≡ true
unfolding option_eq
option_eq_refl none = refl
option_eq_refl (some a) = bytes_eq_refl a

module _ (to_vec : EventEnvelope → Bytes) (digest : Bytes → Bytes) (clock : ℕ → ℕ)
    (is_digest : (text : Bytes) → validate_sha (digest text) ≡ ok tt) where
  pub plan_of-validate_batch :
      (start : Checked) (p : Planning)
      → (planned : IsPlanning start p) → 1 ≤ p.count
      → p.expected ≤ max_platform_sequence + 1
      → validate_batch (plan_of to_vec digest clock p) planned.made
        ≡ ok (record {
          next = p.expected;
          previous = some (digest p.raw);
          blob_count = saturating_add planned.made.blob_count (length (values p.blobs));
        })
  unfolding validate_batch
  plan_of-validate_batch start p planned some_events low = elim planned.first [
    | inl (e, empty) ↦ absurd (omega (arith, e, some_events))
    | inr (first, last, raw, some_count) ↦ ground (
      arith,
      first,
      last,
      raw,
      low,
      planned.next,
      planned.small,
      planned.previous,
      planned.blobs,
      is_digest p.raw,
      option_eq_refl p.previous,
    )
  ]
