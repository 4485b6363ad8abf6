-- ===== src/Audit/Search.antt =====
-- The two searches of src/audit.rs for a completed operation.
use inference_io.Prelude.{
  ◌≡◌, ◌↔◌, ◌∙◌, refl, sym, ap, subst, Bool, true, List, [], ◌∷◌, ◌++◌, Option, none, some, Result,
  ok, arith, >>=-eq-ok, Option-cases, Bool-cases, inl, inr,
}
use inference_io.Bytes.{Bytes, ascii, any, bytes_eq_iff}
use inference_io.Json.{Value, object, array, string, number, bool, null, get, as_str}
use inference_io.Audit.Record.{AuditRecord, AuditError, Codec}
use inference_io.Audit.Log.{
  AuditMatch, request, run, Scan, request_id, option_eq, matches, verify_locked_file_matching,
  has_record, has_request_record, has_run_record,
}
use inference_io.Audit.Chain.{Chain}
use inference_io.Audit.Verify.{Holds, verify_locked_file_matching-IsVerified}

-- What a caller asks for: the action and the outcome, and the run ID of the record, or the request ID
-- among its details, as a string.
pub IsMatch : AuditMatch → AuditRecord → Type 0
IsMatch (request action outcome id) r =
    (r.action ≡ action)
    × (r.outcome ≡ outcome)
    × ((details : Value) × (r.details ≡ some details)
        × (get (ascii "request_id") details ≡ some (string id)))
IsMatch (run action outcome run_id) r =
    (r.action ≡ action) × (r.outcome ≡ outcome) × (r.run_id ≡ run_id)

-- A record of the list is one that is asked for.
abbrev pub HasMatch : AuditMatch → List AuditRecord → Type 0
HasMatch target rs =
    (before : List AuditRecord) × (r : AuditRecord) × (after : List AuditRecord) × (rs
      ≡ before ++ r ∷ after)
    × IsMatch target r

-- The answer to a search of a log: its lines are a chain of records, and the answer is true exactly
-- when one of them is asked for.
pub record IsAnswer (c : Codec) (target : AuditMatch) (file : Bytes) (found : Bool)
    (rs : List AuditRecord) : Type 0 where
  pub holds : Holds c file rs
  pub chain : Chain c none 0 rs
  pub answer : (found ≡ true) ↔ HasMatch target rs

option_eq-some :
    (o : Option Bytes) (text : Bytes) → (option_eq o (some text) ≡ true) ↔ (o ≡ some text)
unfolding option_eq
option_eq-some none text = ((λ h. cc h), (λ h. cc h))
option_eq-some (some bytes) text =
    ((λ h. ap some ((bytes_eq_iff bytes text).0 h)), (λ h. (bytes_eq_iff bytes text).1 (cc h)))

as_str-some : (value : Value) (text : Bytes) → as_str value ≡ some text → value ≡ string text
unfolding as_str
as_str-some (string s) text h = cc h
as_str-some (object entries) text h = cc h
as_str-some (array items) text h = cc h
as_str-some (number digits) text h = cc h
as_str-some (bool b) text h = cc h
as_str-some null text h = cc h

request_id-some :
    (details : Option Value) (id : Bytes)
    → (request_id details ≡ some id) ↔ (
        (value : Value) × (details ≡ some value)
        × (get (ascii "request_id") value ≡ some (string id)))
unfolding request_id as_str
request_id-some none id = ((λ h. cc h), (λ (value, held, _). cc held))
request_id-some (some details) id = (
  (λ h. elim (Option-cases (get (ascii "request_id") details)) [
    | inl e ↦ absurd (cc (e, h))
    | inr (value, e) ↦
        let read : request_id (some details) ≡ as_str value = rw (request_id, e) in
        (details, refl, e ∙ ap some (as_str-some value id (sym read ∙ h)))
  ]),
  (λ (value, held, e).
      let read : request_id (some value) ≡ some id = rw (request_id, e) in
      ap request_id held ∙ read),
)

matches-IsMatch :
    (target : AuditMatch) (r : AuditRecord) → (matches target r ≡ true) ↔ IsMatch target r
unfolding matches IsMatch
matches-IsMatch (request action outcome id) r =
    let (there, back) = request_id-some r.details id in
    let (equal, same) = option_eq-some (request_id r.details) id in
    elim (Bool-cases (option_eq (request_id r.details) (some id))) [
      | inl e ↦ (
        λ h. (
          ground (arith, bytes_eq_iff r.action action, h),
          ground (arith, bytes_eq_iff r.outcome outcome, h),
          there (equal e),
        ),
        λ (does, ends, held).
            ground
              (arith, e, bytes_eq_iff r.action action, bytes_eq_iff r.outcome outcome, does, ends),
      )
      | inr e ↦ (
        λ h. absurd (ground (arith, e, h)),
        λ (does, ends, held). absurd (cc (e, same (back held))),
      )
    ]
matches-IsMatch (run action outcome run_id) r = ground (
  arith,
  bytes_eq_iff r.action action,
  bytes_eq_iff r.outcome outcome,
  bytes_eq_iff r.run_id run_id,
)

any-of_split :
    (p : AuditRecord → Bool) (before : List AuditRecord) (r : AuditRecord)
    (after : List AuditRecord)
    → p r ≡ true
    → any p (before ++ r ∷ after) ≡ true
any-of_split p [] r after h = ground (arith, h)
any-of_split p (x ∷ before) r after h = ground (arith, any-of_split p before r after h)

any_found :
    (target : AuditMatch) (rs : List AuditRecord)
    → any (matches target) rs ≡ true
    → HasMatch target rs
any_found target [] h = cc h
any_found target (r ∷ rs) h = elim (Bool-cases (matches target r)) [
  | inl e ↦ ([], r, rs, refl, (matches-IsMatch target r).0 e)
  | inr e ↦
      let (before, s, after, split, is_match) = any_found target rs (ground (arith, e, h)) in
      (r ∷ before, s, after, ap (λ l. r ∷ l) split, is_match)
]

any-HasMatch :
    (target : AuditMatch) (rs : List AuditRecord)
    → (any (matches target) rs ≡ true) ↔ HasMatch target rs
any-HasMatch target rs = (
  any_found target rs,
  (λ (before, r, after, split, is_match).
      ap (any (matches target)) split
      ∙ any-of_split (matches target) before r after ((matches-IsMatch target r).1 is_match)),
)

same_found :
    (s : Scan) (b : Bool) → ◌≡◌ {A = Result AuditError Bool} (ok s.matched) (ok b) → b ≡ s.matched
same_found s b h = cc

has_record-IsAnswer :
    (c : Codec) (target : AuditMatch) (file : Bytes) (found : Bool)
    → has_record c target (some file) ≡ ok found
    → (rs : List AuditRecord) × IsAnswer c target file found rs
unfolding has_record
has_record-IsAnswer c target file found h =
    let (s, scanned, made) =
      >>=-eq-ok (verify_locked_file_matching c (some target) file) (λ (s : Scan). ok s.matched) h in
    let (rs, log) = verify_locked_file_matching-IsVerified c (some target) file s scanned in
    (
      rs,
      record {
        holds = log.holds;
        chain = log.chain;
        answer =
            subst (λ b. (b ≡ true) ↔ HasMatch target rs)
              (sym (same_found s found made ∙ log.matched_is)) (any-HasMatch target rs);
      },
    )

-- A search that answers has verified the whole log: its lines are records, each chained to the one
-- before. The answer is true exactly when one of these records has the action and the outcome asked
-- for, and the run ID asked for, or the request ID asked for as a string in its details.
pub search-IsAnswer :
    (c : Codec) (action outcome id : Bytes) (file : Bytes) (found : Bool)
    → (has_run_record c action outcome id (some file) ≡ ok found
        → (rs : List AuditRecord) × IsAnswer c (run action outcome id) file found rs)
      × (has_request_record c action outcome id (some file) ≡ ok found
          → (rs : List AuditRecord) × IsAnswer c (request action outcome id) file found rs)
unfolding has_run_record has_request_record
search-IsAnswer c action outcome id file found = (
  λ h. has_record-IsAnswer c (run action outcome id) file found (ground arith),
  λ h. has_record-IsAnswer c (request action outcome id) file found (ground arith),
)
