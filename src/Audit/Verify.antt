-- ===== src/Audit/Verify.antt =====
-- What an accepted log of src/audit.rs holds.
use inference_io.Prelude.{
  ℕ, zero, suc, ◌+◌, ◌≤◌, ◌≡◌, refl, sym, ap, ◌∙◌, true, false, ◌||◌, List, [], ◌∷◌, ◌++◌, Option,
  none, some, ok, ◌>>=◌, arith, length, length-append, Bool-cases, Option-cases, inl, inr,
  >>=-eq-ok,
}
use inference_io.Bytes.{Bytes, contains, any}
use inference_io.Bytes.Lines.{
  newline, Line, read_until, at_end, IsFirstLine, read_until-IsFirstLine, read_until-at_end,
}
use inference_io.Audit.Record.{AuditRecord, Codec}
use inference_io.Audit.Log.{
  max_audit_record_bytes, max_audit_records, AuditMatch, Scan, fresh, matches_target, check_record,
  check_line, scan_from, verify_locked_file_matching, hash_of,
}
use inference_io.Audit.Chain.{IsLink, advance, IsLink-of_check_record, Chain, last}

-- The file is the lines of these records, each the text of its record.
abbrev pub Holds : Codec → Bytes → List AuditRecord → Type 0
Holds c file [] = file ≡ []
Holds c file (r ∷ rs) =
    (text : Bytes) × (rest : Bytes) × (file ≡ text ++ newline ∷ rest)
    × (contains newline text ≡ false)
    × (c.from_slice text ≡ some r)
    × Holds c rest rs

abbrev pub line_limit : ℕ
line_limit = max_audit_record_bytes + 2

-- The two ways a round of the loop goes.
module _ (c : Codec) (target : Option AuditMatch) (s : Scan) (file : Bytes) where
  pub scan_end :
      (fuel : ℕ)
      → at_end (read_until line_limit file) ≡ true
      → scan_from (suc fuel) c target s file ≡ ok s
  unfolding scan_from
  scan_end fuel h = rw h

  pub scan_round :
      (fuel : ℕ)
      → at_end (read_until line_limit file) ≡ false
      → scan_from (suc fuel) c target s file ≡ (
          check_line c target (read_until line_limit file) s >>= λ t.
          scan_from fuel c target t (read_until line_limit file).rest)
  unfolding scan_from
  scan_round fuel h = rw h

-- What an accepted line is.
record IsAccepted (c : Codec) (target : Option AuditMatch) (line : Line) (s t : Scan)
    (r : AuditRecord) : Type 0 where
  terminated : line.terminated ≡ true
  decoded : c.from_slice line.text ≡ some r
  link : IsLink c s.previous_hash s.records r
  next : t ≡ advance target r s

check_line_parts :
    (c : Codec) (target : Option AuditMatch) (line : Line) (s t : Scan)
    → check_line c target line s ≡ ok t
    → (line.terminated ≡ true)
      × ((r : AuditRecord) × (c.from_slice line.text ≡ some r) × (check_record c target r s ≡ ok t))
unfolding check_line
check_line_parts c target line s t h = elim (Option-cases (c.from_slice line.text)) [
  | inl e ↦ ground arith
  | inr (r, e) ↦ (ground arith, (r, e, ground arith))
]

check_line-IsAccepted :
    (c : Codec) (target : Option AuditMatch) (line : Line) (s t : Scan)
    → s.records ≤ max_audit_records
    → check_line c target line s ≡ ok t
    → (r : AuditRecord) × IsAccepted c target line s t r
check_line-IsAccepted c target line s t le h =
    let (terminated, (r, decoded, checked)) = check_line_parts c target line s t h in
    let (link, next) = IsLink-of_check_record c target r s t le checked in
    (r, record { terminated = terminated; decoded = decoded; link = link; next = next })

pub advance_all : Option AuditMatch → List AuditRecord → Scan → Scan
advance_all target [] s = s
advance_all target (r ∷ rs) s = advance_all target rs (advance target r s)

-- The log's records, which form a chain from the state before them.
pub record IsLog (c : Codec) (target : Option AuditMatch) (s : Scan) (file : Bytes) (t : Scan)
    (rs : List AuditRecord) : Type 0 where
  pub holds : Holds c file rs
  pub chain : Chain c s.previous_hash s.records rs
  pub summary : t ≡ advance_all target rs s

pub rest_shorter :
    (file : Bytes) (fuel : ℕ)
    → (read_until line_limit file).terminated ≡ true
    → length file ≤ suc fuel
    → length (read_until line_limit file).rest ≤ fuel
rest_shorter file fuel h le =
    let line = read_until line_limit file in
    let first : IsFirstLine file line = read_until-IsFirstLine line_limit file h in
    omega (arith, ap length first.split, length-append line.text (newline ∷ line.rest))

scan_from-IsLog :
    (fuel : ℕ) (c : Codec) (target : Option AuditMatch) (s t : Scan) (file : Bytes)
    → length file ≤ fuel
    → s.records ≤ max_audit_records
    → scan_from fuel c target s file ≡ ok t
    → (rs : List AuditRecord) × IsLog c target s file t rs
unfolding advance_all
scan_from-IsLog zero c target s t [] le small h =
    ([], record { holds = refl; chain = tt; summary = unfold scan_from in cc })
scan_from-IsLog zero c target s t (b ∷ file) le small h = absurd (omega arith)
scan_from-IsLog (suc fuel) c target s t file le small h =
    elim (Bool-cases (at_end (read_until line_limit file))) [
      | inl stop ↦ (
        [],
        record {
          holds = read_until-at_end (max_audit_record_bytes + 1) file stop;
          chain = tt;
          summary = cc (scan_end c target s file fuel stop, h);
        },
      )
      | inr more ↦
          let line : Line = read_until line_limit file in
          let (u, checked, scanned) =
            >>=-eq-ok (check_line c target line s) (λ v. scan_from fuel c target v line.rest)
              (sym (scan_round c target s file fuel more) ∙ h) in
          let (r, accepted) = check_line-IsAccepted c target line s u small checked in
          let first : IsFirstLine file line =
            read_until-IsFirstLine line_limit file accepted.terminated in
          let (rs, log) =
            scan_from-IsLog fuel c target (advance target r s) t line.rest
              (rest_shorter file fuel accepted.terminated le) accepted.link.within
              (ap (λ v. scan_from fuel c target v line.rest) (sym accepted.next) ∙ scanned) in
          (
            r ∷ rs,
            record {
              holds =
                  (line.text, line.rest, first.split, first.one_line, accepted.decoded, log.holds);
              chain = (accepted.link, log.chain);
              summary = log.summary;
            },
          )
    ]

-- The summary of a log, in terms of its records.
abbrev last_or : Option AuditRecord → List AuditRecord → Option AuditRecord
last_or o [] = o
last_or o (r ∷ rs) = last_or (some r) rs

last_or-last : (r : AuditRecord) (rs : List AuditRecord) → last_or (some r) rs ≡ last (r ∷ rs)
last_or-last r [] = refl
last_or-last r (s ∷ rs) = last_or-last s rs

last_or-none : (rs : List AuditRecord) → last_or none rs ≡ last rs
last_or-none [] = refl
last_or-none (r ∷ rs) = last_or-last r rs

advance_all-parts :
    (target : Option AuditMatch) (rs : List AuditRecord) (s : Scan)
    → ((advance_all target rs s).records ≡ s.records + length rs)
      × ((advance_all target rs s).last_record ≡ last_or s.last_record rs)
      × ((advance_all target rs s).matched ≡ (s.matched || any (matches_target target) rs))
unfolding advance_all
advance_all-parts target [] s = (omega arith, refl, ground arith)
advance_all-parts target (r ∷ rs) s =
    let (count, final, found) = advance_all-parts target rs (advance target r s) in
    (omega (arith, count), final, found ∙ ground arith)

advance_all-previous :
    (target : Option AuditMatch) (rs : List AuditRecord) (s : Scan)
    → s.previous_hash ≡ hash_of s.last_record
    → (advance_all target rs s).previous_hash ≡ hash_of (advance_all target rs s).last_record
unfolding advance_all
advance_all-previous target [] s h = h
advance_all-previous target (r ∷ rs) s h = advance_all-previous target rs (advance target r s) refl

-- What one scan of a log file says of its records.
pub record IsVerified (c : Codec) (target : Option AuditMatch) (file : Bytes) (t : Scan)
    (rs : List AuditRecord) : Type 0 where
  pub holds : Holds c file rs
  pub chain : Chain c none 0 rs
  pub counted : t.records ≡ length rs
  pub linked_is : t.previous_hash ≡ hash_of t.last_record
  pub last_is : t.last_record ≡ last rs
  pub matched_is : t.matched ≡ any (matches_target target) rs

pub verify_locked_file_matching-IsVerified :
    (c : Codec) (target : Option AuditMatch) (file : Bytes) (t : Scan)
    → verify_locked_file_matching c target file ≡ ok t
    → (rs : List AuditRecord) × IsVerified c target file t rs
unfolding verify_locked_file_matching
verify_locked_file_matching-IsVerified c target file t h =
    let (rs, log) =
      scan_from-IsLog (length file) c target fresh t file (omega arith) (omega arith) h in
    let (count, final, found) = advance_all-parts target rs fresh in
    (
      rs,
      record {
        holds = log.holds;
        chain = log.chain;
        counted = ap (λ (u : Scan). u.records) log.summary ∙ count ∙ omega arith;
        linked_is = rw log.summary (advance_all-previous target rs fresh refl);
        last_is = ap (λ (u : Scan). u.last_record) log.summary ∙ final ∙ last_or-none rs;
        matched_is = ap (λ (u : Scan). u.matched) log.summary ∙ found;
      },
    )
