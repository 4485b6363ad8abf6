-- ===== src/Audit/Extend.antt =====
-- `verify` after `append` of src/audit.rs.
use mathlib.Core.Path.{fun_ext}
use inference_io.Prelude.{
  ℕ, zero, suc, ◌+◌, ◌≤◌, ◌<◌, ◌≡◌, refl, sym, ap, ◌∙◌, true, false, List, [], ◌∷◌, ◌++◌, Option,
  none, some, Result, ok, err, ◌>>=◌, arith, length, length-append, saturating_add_exact,
}
use inference_io.Bytes.{Bytes}
use inference_io.Input.{validate_json_complexity}
use inference_io.Json.{Value}
use inference_io.Bytes.Lines.{newline, Line, read_until, at_end, read_until-line}
use inference_io.Audit.Record.{
  AuditRecord, AuditError, too_many_records, Codec, validate_record, record_hash,
}
use inference_io.Audit.Log.{
  max_audit_record_bytes, max_audit_records, AuditMatch, Scan, fresh, check_record, check_line,
  lift_input, scan_from, verify_locked_file_matching, verify_locked_file, AuditVerification, report,
  verify, hash_of, Ambient, next_sequence, new_record, append,
}
use inference_io.Audit.Chain.{IsLink, check_record-of_IsLink}
use inference_io.Audit.Verify.{
  line_limit, scan_end, scan_round, IsVerified, verify_locked_file_matching-IsVerified,
}
use inference_io.Audit.Tamper.{Chain-IsLast}
use inference_io.Audit.Append.{
  IsContinued, scan_from-IsContinued, IsRoundTrip, IsAppended, append-IsAppended,
}

-- The number that `append` takes is the next place of the chain.
next_sequence-place :
    (c : Codec) (file : Bytes) (t : Scan) (rs : List AuditRecord) (n : ℕ)
    → IsVerified c none file t rs
    → next_sequence t.last_record ≡ ok n
    → n ≡ t.records + 1
unfolding next_sequence
next_sequence-place c file t [] n log h = ground (arith, log.counted, log.last_is)
next_sequence-place c file t (r ∷ rs) n log h =
    let (a, place) = Chain-IsLast c none 0 r rs log.chain in
    ground (arith, log.counted, log.last_is, place.is, place.link.sequence, place.counted)

-- The record that `append` writes is the next link.
new_record-hash :
    (c : Codec) (now : Ambient) (action outcome run_id : Bytes) (details : Option Value) (n : ℕ)
    (previous : Option AuditRecord)
    → let r = new_record c now action outcome run_id details n previous in
      (r.record_sha256 ≡ record_hash c r)
      × (r.sequence ≡ n)
      × (r.previous_sha256 ≡ hash_of previous)
unfolding new_record record_hash
new_record-hash c now action outcome run_id details n previous = (refl, refl, refl)

check_written :
    (c : Codec) (line : Line) (s : Scan) (r : AuditRecord)
    → line.terminated ≡ true
    → 0 < length line.text
    → length line.text ≤ max_audit_record_bytes
    → lift_input (validate_json_complexity line.text) ≡ ok tt
    → c.from_slice line.text ≡ some r
    → check_line c none line s ≡ check_record c none r s
unfolding check_line
check_written c line s r terminated positive fits simple decoded =
    rw (terminated, simple, decoded) (ground arith)

scan_from-nil :
    (fuel : ℕ) (c : Codec) (target : Option AuditMatch) (t : Scan)
    → scan_from fuel c target t [] ≡ ok t
scan_from-nil zero c target t = unfold scan_from in refl
scan_from-nil (suc fuel) c target t = scan_end c target t [] fuel (unfold read_until in refl)

check_record-full :
    (c : Codec) (r : AuditRecord) (s : Scan)
    → validate_record r ≡ ok tt
    → s.records ≡ max_audit_records
    → check_record c none r s ≡ err too_many_records
unfolding check_record
check_record-full c r s valid full =
    rw (valid, saturating_add_exact s.records 1 (omega arith), full)

same_count :
    (s : Scan) (v : AuditVerification)
    → ◌≡◌ {A = Result AuditError AuditVerification} (ok (report s)) (ok v)
    → v.records ≡ s.records
same_count s v h = cc

not_at_end :
    (text rest : Bytes)
    → 0 < length text
    → at_end (record { text = text; terminated = true; rest = rest }) ≡ false
not_at_end [] rest h = absurd (omega arith)
not_at_end (b ∷ text) rest h = refl

module _ (c : Codec) (now : Ambient) (file action outcome run_id : Bytes) (details : Option Value)
    (file' : Bytes) (r : AuditRecord) (law : IsRoundTrip c r)
    (a : IsAppended c now file action outcome run_id details file' r) where
  abbrev last_line : Line
  last_line = record { text = c.to_vec r; terminated = true; rest = [] }

  last_line_read : read_until line_limit (c.to_vec r ++ newline ∷ []) ≡ last_line
  last_line_read = read_until-line line_limit (c.to_vec r) [] law.one_line (omega (arith, a.fits))

  last_round :
      (fuel : ℕ)
      → length (c.to_vec r ++ newline ∷ []) ≤ fuel
      → scan_from fuel c none a.scan (c.to_vec r ++ newline ∷ [])
        ≡ (check_record c none r a.scan >>= λ t. ok t)
  last_round zero le = absurd (omega (arith, length-append (c.to_vec r) (newline ∷ [])))
  last_round (suc fuel) le =
      let file = c.to_vec r ++ newline ∷ [] in
      scan_round c none a.scan file fuel
        (ap at_end last_line_read ∙ not_at_end (c.to_vec r) [] law.not_empty)
      ∙ ap (λ (l : Line). check_line c none l a.scan >>= λ v. scan_from fuel c none v l.rest)
          last_line_read
      ∙ ap (λ m. m >>= λ v. scan_from fuel c none v [])
          (check_written c last_line a.scan r refl law.not_empty a.fits a.simple law.read_back)
      ∙ ap (λ f. check_record c none r a.scan >>= f) (fun_ext (scan_from-nil fuel c none))

  -- The new file is scanned as the old one, and then its last record is checked.
  scan_new : verify_locked_file_matching c none file' ≡ (check_record c none r a.scan >>= λ t. ok t)
  unfolding verify_locked_file_matching verify_locked_file
  scan_new =
      let more : Bytes = c.to_vec r ++ newline ∷ [] in
      let k : IsContinued c none (length (file ++ more)) fresh a.scan file more =
        scan_from-IsContinued (length file) (length (file ++ more)) c none fresh a.scan file more
          (omega arith) (omega arith) a.scanned in
      ap (λ xs. scan_from (length xs) c none fresh xs) a.written
      ∙ k.goes_on
      ∙ last_round k.left k.enough

  placed :
      (rs : List AuditRecord)
      → IsVerified c none file a.scan rs
      → (r.sequence ≡ a.scan.records + 1)
        × (r.previous_sha256 ≡ a.scan.previous_hash)
        × (r.record_sha256 ≡ record_hash c r)
  placed rs log =
      let (hashed, numbered, linked) =
        new_record-hash c now action outcome run_id details a.sequence a.scan.last_record in
      let place = next_sequence-place c file a.scan rs a.sequence log a.numbered in
      rw a.is (numbered ∙ place, linked ∙ sym log.linked_is, hashed)

-- After a successful append to a log below the record limit, `verify` accepts the new log: it counts
-- one record more, and the last hash is that of the new record. (The JSON text of the record must
-- hold no line feed and be read back as the record.)
pub verify-append :
    (c : Codec) (now : Ambient) (file action outcome run_id : Bytes) (details : Option Value)
    (file' : Bytes) (r : AuditRecord) (v : AuditVerification)
    → append c now file action outcome run_id details ≡ ok (file', r)
    → IsRoundTrip c r
    → verify c file ≡ ok v
    → v.records < max_audit_records
    → verify c file'
      ≡ ok (record {
        valid = true;
        records = v.records + 1;
        last_sequence = v.records + 1;
        last_sha256 = some r.record_sha256;
      })
unfolding verify verify_locked_file
verify-append c now file action outcome run_id details file' r v h law before room =
    let a = append-IsAppended c now file action outcome run_id details file' r h in
    let (rs, log) = verify_locked_file_matching-IsVerified c none file a.scan a.scanned in
    let (numbered, linked, hashed) =
      placed c now file action outcome run_id details file' r law a rs log in
    let same : v.records ≡ a.scan.records =
      same_count a.scan v (ap (λ m. m >>= λ s. ok (report s)) (sym a.scanned) ∙ before) in
    let link : IsLink c a.scan.previous_hash a.scan.records r = record {
      validated = a.validated;
      sequence = numbered;
      linked = linked;
      hashed = hashed;
      within = omega arith;
    } in
    rw (scan_new c now file action outcome run_id details file' r law a)
      (rw (check_record-of_IsLink c none r a.scan link) (rw same))

-- `append` itself does not look at the record limit: appending to a log that holds the largest
-- number of records succeeds, and from then on `verify` refuses the log.
pub append_at_limit :
    (c : Codec) (now : Ambient) (file action outcome run_id : Bytes) (details : Option Value)
    (file' : Bytes) (r : AuditRecord) (v : AuditVerification)
    → append c now file action outcome run_id details ≡ ok (file', r)
    → IsRoundTrip c r
    → verify c file ≡ ok v
    → v.records ≡ max_audit_records
    → verify c file' ≡ err too_many_records
unfolding verify verify_locked_file
append_at_limit c now file action outcome run_id details file' r v h law before full =
    let a = append-IsAppended c now file action outcome run_id details file' r h in
    let same : v.records ≡ a.scan.records =
      same_count a.scan v (ap (λ m. m >>= λ s. ok (report s)) (sym a.scanned) ∙ before) in
    rw (scan_new c now file action outcome run_id details file' r law a)
      (rw (check_record-full c r a.scan a.validated (sym same ∙ full)))
