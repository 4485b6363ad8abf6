-- ===== src/Input/Outside.antt =====
-- The pass of src/input.rs against a description in two stages: take the bytes that stand outside
-- strings, then measure their nesting and count their tokens.
use inference_io.Prelude.{
  ℕ, ◌+◌, ◌-◌, ◌≤◌, ◌<◌, ◌≡◌, Bool, true, false, ◌&&◌, ◌||◌, List, [], ◌∷◌, Result, ok, err, leb,
  ◌==◌, if◌then◌else◌, saturating_add_exact, u64_max, arith, Bool-cases, inl, inr,
}
use inference_io.Input.{
  InputError, quote, backslash, is_open, is_close, is_separator, step, run,
  validate_json_complexity_with_limits,
}

-- The bytes outside strings; the flags say whether a string is open, and whether the byte before was
-- a backslash in it.
pub outside : Bool → Bool → List ℕ → List ℕ
outside in_string escaped [] = []
outside true true (b ∷ bytes) = outside true false bytes
outside true false (b ∷ bytes) = outside (if b == quote then false else true) (b == backslash) bytes
outside false escaped (b ∷ bytes) =
    let within = outside true escaped bytes in
    let rest = outside false escaped bytes in if b == quote then within else b ∷ rest

-- Whether the nesting, from a given depth, never exceeds the limit.
pub fits_depth : ℕ → ℕ → List ℕ → Bool
fits_depth limit depth [] = true
fits_depth limit depth (b ∷ bytes) =
    let deeper = fits_depth limit (depth + 1) bytes in
    let rest = fits_depth limit (if is_close b then depth - 1 else depth) bytes in
    if is_open b then leb (depth + 1) limit && deeper else rest

pub token_count : List ℕ → ℕ
token_count [] = 0
token_count (b ∷ bytes) = (if is_open b || is_separator b then 1 else 0) + token_count bytes

abbrev pub accepts {ℓ} : {A : Type ℓ} → Result InputError A → Bool
accepts (ok a) = true
accepts (err e) = false

module _ (maximum_depth maximum_tokens : ℕ) (small_depth : maximum_depth < u64_max)
    (small_tokens : maximum_tokens < u64_max) where
  run_exact :
      (in_string escaped : Bool) (depth tokens : ℕ) (bytes : List ℕ)
      → depth ≤ maximum_depth
      → tokens ≤ maximum_tokens
      → accepts (
          run maximum_depth maximum_tokens bytes
            (record { in_string = in_string; escaped = escaped; depth = depth; tokens = tokens }))
        ≡ (fits_depth maximum_depth depth (outside in_string escaped bytes)
            && leb (tokens + token_count (outside in_string escaped bytes)) maximum_tokens)
  unfolding run step outside fits_depth token_count
  run_exact in_string escaped depth tokens [] hd ht = ground arith
  run_exact true true depth tokens (b ∷ bytes) hd ht = run_exact true false depth tokens bytes hd ht
  run_exact true false depth tokens (b ∷ bytes) hd ht = ground (
    arith,
    run_exact true true depth tokens bytes hd ht,
    run_exact true false depth tokens bytes hd ht,
    run_exact false false depth tokens bytes hd ht,
  )
  run_exact false escaped depth tokens (b ∷ bytes) hd ht = elim (Bool-cases (b == quote)) [
    | inl q ↦ rw q (ground (arith, run_exact true escaped depth tokens bytes hd ht))
    | inr q ↦ elim (Bool-cases (is_open b)) [
      | inl o ↦
          rw
            (
              q,
              o,
              saturating_add_exact depth 1 (omega arith),
              saturating_add_exact tokens 1 (omega arith),
            )
            (ground (arith, run_exact false escaped (depth + 1) (tokens + 1) bytes))
      | inr o ↦ elim (Bool-cases (is_close b)) [
        | inl c ↦ rw (q, o, c) (ground (arith, run_exact false escaped (depth - 1) tokens bytes))
        | inr c ↦
            rw (q, o, c, saturating_add_exact tokens 1 (omega arith))
              (ground (
                arith,
                run_exact false escaped depth (tokens + 1) bytes,
                run_exact false escaped depth tokens bytes hd ht,
              ))
      ]
    ]
  ]

-- The pass accepts a text exactly when the bytes outside its strings never nest deeper than the
-- limit and hold no more structural tokens than the limit, for limits below the largest `usize`.
pub validate-outside :
    (bytes : List ℕ) (maximum_depth maximum_tokens : ℕ)
    → maximum_depth < u64_max
    → maximum_tokens < u64_max
    → accepts (validate_json_complexity_with_limits bytes maximum_depth maximum_tokens) ≡ (
        fits_depth maximum_depth 0 (outside false false bytes)
        && leb (token_count (outside false false bytes)) maximum_tokens)
unfolding validate_json_complexity_with_limits
validate-outside bytes maximum_depth maximum_tokens hd ht = ground (
  arith,
  run_exact maximum_depth maximum_tokens hd ht false false 0 0 bytes (omega arith) (omega arith),
)
