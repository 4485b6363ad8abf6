-- ===== src/Input/Tests.antt =====
-- Runs of the complexity check of src/input.rs, and its theorem at a concrete input.
use inference_io.Prelude.{◌≡◌, refl, false, ◌&&◌, ok, err, leb, arith, saturating_add}
use inference_io.Bytes.{Bytes, ascii}
use inference_io.Input.{
  validate_json_complexity_with_limits, too_deep, too_many_tokens, run, step, string_byte,
  plain_byte,
}
use inference_io.Input.Outside.{outside, fits_depth, token_count, accepts, validate-outside}

-- The text of the source's test: `{"text":"[{:,,}]\\\""}`.
abbrev quoted : Bytes
quoted = ascii "{\"text\":\"[{:,,}]\\\\\\\"\"}"

quoted_passes : validate_json_complexity_with_limits quoted 2 3 ≡ ok tt
unfolding validate_json_complexity_with_limits run step string_byte plain_byte saturating_add
quoted_passes = refl

nested_refused : validate_json_complexity_with_limits (ascii "[[[]]]") 2 10 ≡ err (too_deep 2)
unfolding validate_json_complexity_with_limits run step string_byte plain_byte saturating_add
nested_refused = refl

wide_refused :
    validate_json_complexity_with_limits (ascii "[0,1,2,3]") 2 3 ≡ err (too_many_tokens 3)
unfolding validate_json_complexity_with_limits run step string_byte plain_byte saturating_add
wide_refused = refl

validate-outside_example : accepts (validate_json_complexity_with_limits quoted 2 3) ≡ (
    fits_depth 2 0 (outside false false quoted) && leb (token_count (outside false false quoted)) 3)
validate-outside_example = validate-outside quoted 2 3 (omega arith) (omega arith)
