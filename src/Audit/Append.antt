-- ===== src/Audit/Append.antt =====
-- `append` of src/audit.rs keeps the log verifiable.
use inference_io.Prelude.{
  ℕ, zero, suc, ◌+◌, ◌≤◌, ◌<◌, ◌≡◌, refl, sym, ap, ◌∙◌, true, false, [], ◌∷◌, ◌++◌, Option, some,
  Result, ok, ◌>>=◌, arith, length, length-append, Bool-cases, inl, inr, >>=-eq-ok, Result-cases,
}
use inference_io.Bytes.{Bytes, contains}
use inference_io.Input.{validate_json_complexity}
use inference_io.Json.{Value}
use inference_io.Bytes.Lines.{
  newline, Line, read_until, at_end, IsFirstLine, read_until-IsFirstLine, read_until-append,
  read_until-at_end,
}
use inference_io.Audit.Record.{AuditRecord, AuditError, Codec, validate_record}
use inference_io.Audit.Log.{
  max_audit_record_bytes, AuditMatch, Scan, check_line, scan_from, lift_input, verify_locked_file,
  Ambient, next_sequence, new_record, append,
}
use inference_io.Audit.Verify.{line_limit, scan_end, scan_round, rest_shorter}

-- A scan of a longer file goes on where the scan of the first part stopped.
pub record IsContinued (c : Codec) (target : Option AuditMatch) (fuel : ℕ) (s t : Scan)
    (file more : Bytes) : Type 0 where
  pub left : ℕ
  pub enough : length more ≤ left
  pub goes_on : scan_from fuel c target s (file ++ more) ≡ scan_from left c target t more

accepted_line :
    (c : Codec) (target : Option AuditMatch) (line : Line) (s t : Scan)
    → check_line c target line s ≡ ok t
    → line.terminated ≡ true
unfolding check_line
accepted_line c target line s t h = ground arith

check_line-rest :
    (c : Codec) (target : Option AuditMatch) (line : Line) (s : Scan) (rest : Bytes)
    → check_line c target (record line { rest = rest }) s ≡ check_line c target line s
unfolding check_line
check_line-rest c target line s rest = refl

nil-IsContinued :
    (fuel : ℕ) (c : Codec) (target : Option AuditMatch) (s t : Scan) (file more : Bytes)
    → file ≡ []
    → t ≡ s
    → length (file ++ more) ≤ fuel
    → IsContinued c target fuel s t file more
nil-IsContinued fuel c target s t file more none_left same le = record {
  left = fuel;
  enough = omega (arith, length-append file more);
  goes_on =
      ap (λ xs. scan_from fuel c target s (xs ++ more)) none_left
      ∙ ap (λ v. scan_from fuel c target v more) (sym same);
}

same_scan : (s t : Scan) → ◌≡◌ {A = Result AuditError Scan} (ok s) (ok t) → t ≡ s
same_scan s t h = cc

append_shorter :
    (file rest text more : Bytes) (fuel : ℕ)
    → file ≡ text ++ newline ∷ rest
    → length (file ++ more) ≤ suc fuel
    → length (rest ++ more) ≤ fuel
append_shorter file rest text more fuel e le = omega (
  arith,
  length-append file more,
  length-append rest more,
  ap length e,
  length-append text (newline ∷ rest),
)

pub scan_from-IsContinued :
    (g f : ℕ) (c : Codec) (target : Option AuditMatch) (s t : Scan) (file more : Bytes)
    → length file ≤ g
    → length (file ++ more) ≤ f
    → scan_from g c target s file ≡ ok t
    → IsContinued c target f s t file more
scan_from-IsContinued zero f c target s t [] more hg hf h =
    nil-IsContinued f c target s t [] more refl (same_scan s t (unfold scan_from in h)) hf
scan_from-IsContinued zero f c target s t (b ∷ file) more hg hf h = absurd (omega arith)
scan_from-IsContinued (suc g) zero c target s t [] more hg hf h =
    nil-IsContinued 0 c target s t [] more refl
      (same_scan s t (sym (scan_end c target s [] g (unfold read_until in refl)) ∙ h)) hf
scan_from-IsContinued (suc g) zero c target s t (b ∷ file) more hg hf h = absurd (omega arith)
scan_from-IsContinued (suc g) (suc f) c target s t file more hg hf h =
    elim (Bool-cases (at_end (read_until line_limit file))) [
      | inl stop ↦
          nil-IsContinued (suc f) c target s t file more
            (read_until-at_end (max_audit_record_bytes + 1) file stop)
            (same_scan s t (sym (scan_end c target s file g stop) ∙ h)) hf
      | inr go ↦
          let line : Line = read_until line_limit file in
          let (u, checked, scanned) =
            >>=-eq-ok (check_line c target line s) (λ v. scan_from g c target v line.rest)
              (sym (scan_round c target s file g go) ∙ h) in
          let terminated : line.terminated ≡ true = accepted_line c target line s u checked in
          let first : IsFirstLine file line = read_until-IsFirstLine line_limit file terminated in
          let ih : IsContinued c target f u t line.rest more =
            scan_from-IsContinued g f c target u t line.rest more
              (rest_shorter file g terminated hg)
              (append_shorter file line.rest line.text more f first.split hf) scanned in
          let longer = read_until-append line_limit file more terminated in
          record {
            left = ih.left;
            enough = ih.enough;
            goes_on =
                scan_round c target s (file ++ more) f (ap at_end longer ∙ go)
                ∙ ap (λ (l : Line). check_line c target l s >>= λ v. scan_from f c target v l.rest)
                    longer
                ∙ ap (λ m. m >>= λ v. scan_from f c target v (line.rest ++ more))
                    (check_line-rest c target line s (line.rest ++ more) ∙ checked)
                ∙ ih.goes_on;
          }
    ]

-- What `append` relies on of the codec, for the record that it writes: the JSON text has no line feed
-- and is read back as the record.
pub record IsRoundTrip (c : Codec) (r : AuditRecord) : Type 0 where
  pub one_line : contains newline (c.to_vec r) ≡ false
  pub not_empty : 0 < length (c.to_vec r)
  pub read_back : c.from_slice (c.to_vec r) ≡ some r

-- What a successful `append` checked and wrote.
pub record IsAppended (c : Codec) (now : Ambient) (file : Bytes) (action outcome run_id : Bytes)
    (details : Option Value) (file' : Bytes) (r : AuditRecord) : Type 0 where
  pub scan : Scan
  pub sequence : ℕ
  pub scanned : verify_locked_file c file ≡ ok scan
  pub numbered : next_sequence scan.last_record ≡ ok sequence
  pub is : r ≡ new_record c now action outcome run_id details sequence scan.last_record
  pub validated : validate_record r ≡ ok tt
  pub simple : lift_input (validate_json_complexity (c.to_vec r)) ≡ ok tt
  pub fits : length (c.to_vec r) ≤ max_audit_record_bytes
  pub written : file' ≡ file ++ (c.to_vec r ++ newline ∷ [])

pub append-IsAppended :
    (c : Codec) (now : Ambient) (file action outcome run_id : Bytes) (details : Option Value)
    (file' : Bytes) (r : AuditRecord)
    → append c now file action outcome run_id details ≡ ok (file', r)
    → IsAppended c now file action outcome run_id details file' r
unfolding append
append-IsAppended c now file action outcome run_id details file' r h =
    elim (Result-cases (verify_locked_file c file)) [
      | inr (e, failed) ↦ absurd (ground arith)
      | inl (scan, scanned) ↦ elim (Result-cases (next_sequence scan.last_record)) [
        | inr (e, failed) ↦ absurd (ground arith)
        | inl (sequence, numbered) ↦ record {
          scan = scan;
          sequence = sequence;
          scanned = scanned;
          numbered = numbered;
          is = ground arith;
          validated = ground arith;
          simple = ground arith;
          fits = ground arith;
          written = ground arith;
        }
      ]
    ]
