-- ===== src/Input/Blank.antt =====
-- A line feed at the end of a text changes nothing for the complexity check of src/input.rs.
use inference_io.Prelude.{
  ℕ, ◌≤◌, ◌≡◌, List, [], ◌∷◌, ◌++◌, ok, >>=-eq-ok, arith, Bool-cases, inl, inr,
}
use inference_io.Bytes.Lines.{newline}
use inference_io.Input.{
  Scanner, start, run, step, string_byte, plain_byte, validate_json_complexity_with_limits,
  validate_stored_json_complexity, max_stored_json_nesting_depth, max_stored_json_structural_tokens,
}

module _ (maximum_depth maximum_tokens : ℕ) where
  step-tokens_le :
      (b : ℕ) (s t : Scanner)
      → s.tokens ≤ maximum_tokens
      → step maximum_depth maximum_tokens b s ≡ ok t
      → t.tokens ≤ maximum_tokens
  unfolding step string_byte plain_byte
  step-tokens_le b s t fits h = ground (arith, fits, h)

  step-newline :
      (s : Scanner)
      → s.tokens ≤ maximum_tokens
      → (t : Scanner) × (step maximum_depth maximum_tokens newline s ≡ ok t)
  unfolding step plain_byte
  step-newline s fits = elim (Bool-cases s.in_string) [
    | inl e ↦ (string_byte newline s, ground (arith, e))
    | inr e ↦ (s, ground (arith, e, fits))
  ]

  run-newline :
      (bytes : List ℕ) (s t : Scanner)
      → s.tokens ≤ maximum_tokens
      → run maximum_depth maximum_tokens bytes s ≡ ok t
      → (u : Scanner) × (run maximum_depth maximum_tokens (bytes ++ newline ∷ []) s ≡ ok u)
  unfolding run
  run-newline [] s t fits h = let (u, e) = step-newline s fits in (u, ground (arith, e))
  run-newline (b ∷ bytes) s t fits h =
      let (m, first, rest) =
        >>=-eq-ok (step maximum_depth maximum_tokens b s) (run maximum_depth maximum_tokens bytes)
          h in
      let (u, more) = run-newline bytes m t (step-tokens_le b s m fits first) rest in
      (u, ground (arith, first, more))

pub validate_stored-newline :
    (bytes : List ℕ)
    → validate_stored_json_complexity bytes ≡ ok tt
    → validate_stored_json_complexity (bytes ++ newline ∷ []) ≡ ok tt
unfolding validate_stored_json_complexity validate_json_complexity_with_limits
validate_stored-newline bytes h =
    let (s, passed, _) =
      >>=-eq-ok (run max_stored_json_nesting_depth max_stored_json_structural_tokens bytes start)
        (λ _. ok tt) h in
    let (t, again) =
      run-newline max_stored_json_nesting_depth max_stored_json_structural_tokens bytes start s
        (omega arith) passed in
    rw (again)
