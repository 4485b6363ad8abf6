-- ===== src/Input/Stored.antt =====
-- What passes the complexity check of src/input.rs for a request passes the check for a stored event.
use inference_io.Prelude.{ℕ, ◌≤◌, ◌≡◌, refl, List, [], ◌∷◌, ok, >>=-eq-ok, arith}
use inference_io.Input.{
  Scanner, start, run, step, plain_byte, validate_json_complexity_with_limits,
  validate_json_complexity, validate_stored_json_complexity, max_json_nesting_depth,
  max_json_structural_tokens, max_stored_json_nesting_depth, max_stored_json_structural_tokens,
}

module _ (depth tokens depth' tokens' : ℕ) (deeper : depth ≤ depth') (more : tokens ≤ tokens') where
  step_within :
      (b : ℕ) (s t : Scanner) → step depth tokens b s ≡ ok t → step depth' tokens' b s ≡ ok t
  unfolding step plain_byte
  step_within b s t h = ground (arith, h, deeper, more)

  run_within :
      (bytes : List ℕ) (s t : Scanner)
      → run depth tokens bytes s ≡ ok t
      → run depth' tokens' bytes s ≡ ok t
  unfolding run
  run_within [] s t h = h
  run_within (b ∷ bytes) s t h =
      let (m, first, rest) = >>=-eq-ok (step depth tokens b s) (run depth tokens bytes) h in
      ground (arith, step_within b s m first, run_within bytes m t rest)

pub validate_stored-within :
    (bytes : List ℕ)
    → validate_json_complexity bytes ≡ ok tt
    → validate_stored_json_complexity bytes ≡ ok tt
unfolding validate_json_complexity validate_stored_json_complexity
    validate_json_complexity_with_limits
validate_stored-within bytes h =
    let (s, passed, _) =
      >>=-eq-ok (run max_json_nesting_depth max_json_structural_tokens bytes start) (λ _. ok tt)
        h in
    rw
      (run_within max_json_nesting_depth max_json_structural_tokens max_stored_json_nesting_depth
        max_stored_json_structural_tokens (omega arith) (omega arith) bytes start s passed)
      refl
