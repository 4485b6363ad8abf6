-- ===== src/Audit/Chain.antt =====
-- The hash chain of src/audit.rs: what one accepted record means, and that the last hash fixes the
-- whole log.
use inference_io.Prelude.{
  ℕ, ◌+◌, ◌≤◌, ◌≡◌, ◌≢◌, ◌↔◌, true, ◌||◌, List, [], ◌∷◌, Option, none, some, ok, saturating_add,
  saturating_add_exact, arith,
}
use inference_io.Bytes.{Bytes, bytes_eq, bytes_eq_iff}
use inference_io.Audit.Record.{AuditRecord, Codec, validate_record, record_hash}
use inference_io.Audit.Log.{
  AuditMatch, Scan, max_audit_records, matches_target, option_eq, check_record,
}

pub option_eq_iff : (a b : Option Bytes) → (option_eq a b ≡ true) ↔ (a ≡ b)
unfolding option_eq
option_eq_iff none none = ground arith
option_eq_iff none (some b) = ground arith
option_eq_iff (some a) none = ground arith
option_eq_iff (some a) (some b) = ground (arith, bytes_eq_iff a b)

-- A record in its place: behind `count` records, the last of which has the hash `previous`.
pub record IsLink (c : Codec) (previous : Option Bytes) (count : ℕ) (r : AuditRecord) : Type 0 where
  pub validated : validate_record r ≡ ok tt
  pub sequence : r.sequence ≡ count + 1
  pub linked : r.previous_sha256 ≡ previous
  pub hashed : r.record_sha256 ≡ record_hash c r
  pub within : count + 1 ≤ max_audit_records

-- The loop's variables after an accepted record.
abbrev pub advance : Option AuditMatch → AuditRecord → Scan → Scan
advance target r s = record {
  previous_hash = some r.record_sha256;
  records = s.records + 1;
  last_record = some r;
  matched = s.matched || matches_target target r;
}

module _ (c : Codec) (target : Option AuditMatch) (r : AuditRecord) (s : Scan) where
  pub check_record-of_IsLink :
      IsLink c s.previous_hash s.records r → check_record c target r s ≡ ok (advance target r s)
  unfolding check_record
  check_record-of_IsLink h =
      let count : saturating_add s.records 1 ≡ s.records + 1 =
        saturating_add_exact s.records 1 (omega arith) in
      let linked : option_eq r.previous_sha256 s.previous_hash ≡ true =
        (option_eq_iff r.previous_sha256 s.previous_hash).1 h.linked in
      let hashed : bytes_eq r.record_sha256 (record_hash c r) ≡ true =
        (bytes_eq_iff r.record_sha256 (record_hash c r)).1 h.hashed in
      rw (h.validated, count, linked, hashed) (ground arith)

  pub IsLink-of_check_record :
      (t : Scan)
      → s.records ≤ max_audit_records
      → check_record c target r s ≡ ok t
      → IsLink c s.previous_hash s.records r × (t ≡ advance target r s)
  unfolding check_record
  IsLink-of_check_record t le h = ground (
    arith,
    saturating_add_exact s.records 1,
    option_eq_iff r.previous_sha256 s.previous_hash,
    bytes_eq_iff r.record_sha256 (record_hash c r),
  )

abbrev pub Chain : Codec → Option Bytes → ℕ → List AuditRecord → Type 0
Chain c previous count [] = Unit
Chain c previous count (r ∷ rs) =
    IsLink c previous count r × Chain c (some r.record_sha256) (count + 1) rs

abbrev pub last : List AuditRecord → Option AuditRecord
last [] = none
last (r ∷ []) = some r
last (r ∷ s ∷ rs) = last (s ∷ rs)

-- Two different records, up to their own hash fields, whose hashes are equal: a collision of SHA-256
-- (or of the JSON encoding).
abbrev pub cleared : AuditRecord → AuditRecord
cleared r = record r { record_sha256 = [] }

abbrev pub Collision : Codec → Type 0
Collision c =
    (a : AuditRecord) × (b : AuditRecord) × (record_hash c a ≡ record_hash c b)
    × (cleared a ≢ cleared b)
