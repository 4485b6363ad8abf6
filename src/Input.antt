-- ===== src/Input.antt =====
-- src/input.rs: the pass that bounds the nesting and the number of structural tokens of a JSON text
-- before it is parsed.
pub mod Outside
pub mod Blank
pub mod Stored
mod Tests
use inference_io.Prelude.{
  ℕ, ◌+◌, ◌-◌, Bool, true, false, ◌||◌, List, [], ◌∷◌, Result, ok, err, ◌>>=◌, ltb, ◌==◌,
  if◌then◌else◌, saturating_add,
}

abbrev pub max_json_nesting_depth : ℕ
max_json_nesting_depth = 64

abbrev pub max_json_structural_tokens : ℕ
max_json_structural_tokens = 100_000

abbrev pub max_stored_json_nesting_depth : ℕ
max_stored_json_nesting_depth = max_json_nesting_depth + 16

abbrev pub max_stored_json_structural_tokens : ℕ
max_stored_json_structural_tokens = max_json_structural_tokens + 4_096

pub data InputError : Type 0 where
  too_deep : ℕ → InputError
  too_many_tokens : ℕ → InputError

pub record Scanner : Type 0 where
  pub in_string : Bool
  pub escaped : Bool
  pub depth : ℕ
  pub tokens : ℕ

abbrev pub start : Scanner
start = record { in_string = false; escaped = false; depth = 0; tokens = 0 }

abbrev pub quote : ℕ
quote = b'"'

abbrev pub backslash : ℕ
backslash = 92

abbrev pub is_open : ℕ → Bool
is_open b = b == b'{' || b == b'['

abbrev pub is_close : ℕ → Bool
is_close b = b == b'}' || b == b']'

abbrev pub is_separator : ℕ → Bool
is_separator b = b == b',' || b == b':'

-- A byte inside a string.
unfoldable pub string_byte : ℕ → Scanner → Scanner
string_byte b s =
    if s.escaped
    then record s { escaped = false }
    else if b == backslash
    then record s { escaped = true }
    else if b == quote
    then record s { in_string = false }
    else s

-- A byte outside every string; `-` on ℕ stops at 0, as `saturating_sub` does.
unfoldable pub plain_byte : ℕ → ℕ → Scanner → Result InputError Scanner
plain_byte maximum_depth b s =
    let deeper = saturating_add s.depth 1 in
    if b == quote
    then ok (record s { in_string = true })
    else if is_open b
    then (if ltb maximum_depth deeper
        then err (too_deep maximum_depth)
        else ok (record s { depth = deeper; tokens = saturating_add s.tokens 1 }))
    else if is_close b
    then ok (record s { depth = s.depth - 1 })
    else if is_separator b
    then ok (record s { tokens = saturating_add s.tokens 1 })
    else ok s

abbrev check_tokens : ℕ → Scanner → Result InputError Scanner
check_tokens maximum_tokens s =
    if ltb maximum_tokens s.tokens then err (too_many_tokens maximum_tokens) else ok s

unfoldable pub step : ℕ → ℕ → ℕ → Scanner → Result InputError Scanner
unfolding string_byte plain_byte
step maximum_depth maximum_tokens b s =
    if s.in_string
    then ok (string_byte b s)
    else (do t ← plain_byte maximum_depth b s; check_tokens maximum_tokens t)

unfoldable pub run : ℕ → ℕ → List ℕ → Scanner → Result InputError Scanner
run maximum_depth maximum_tokens [] s = ok s
run maximum_depth maximum_tokens (b ∷ bytes) s = do
  t ← step maximum_depth maximum_tokens b s
  run maximum_depth maximum_tokens bytes t

unfoldable pub validate_json_complexity_with_limits : List ℕ → ℕ → ℕ → Result InputError (Unit {0})
validate_json_complexity_with_limits bytes maximum_depth maximum_tokens = do
  s ← run maximum_depth maximum_tokens bytes start
  ok tt

unfoldable pub validate_json_complexity : List ℕ → Result InputError (Unit {0})
validate_json_complexity bytes =
    validate_json_complexity_with_limits bytes max_json_nesting_depth max_json_structural_tokens

unfoldable pub validate_stored_json_complexity : List ℕ → Result InputError (Unit {0})
validate_stored_json_complexity bytes =
    validate_json_complexity_with_limits bytes max_stored_json_nesting_depth
      max_stored_json_structural_tokens
