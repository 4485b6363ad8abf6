-- ===== src/Bytes/Decimal.antt =====
-- `text.parse::<u64>()`: an optional plus sign, then at least one decimal digit; `none` on any other
-- character and on overflow, which is checked at each digit.
use inference_io.Prelude.{
  ℕ, zero, suc, ◌/◌, ◌%◌, ◌+◌, ◌-◌, ◌*◌, ◌^◌, ◌<◌, ◌≡◌, refl, ◌&&◌, List, [], ◌∷◌, Option, none,
  some, ltb, leb, ◌==◌, if◌then◌else◌, Bool, true, false, arith, Bool-cases, inl, inr, ◌∙◌,
}

abbrev pub u64_limit : ℕ
u64_limit = 2 ^ 64

digits_from : ℕ → List ℕ → Option ℕ
digits_from acc [] = some acc
digits_from acc (c ∷ cs) =
    let next = acc * 10 + (c - 48) in
    let rest = digits_from next cs in
    if leb 48 c && leb c 57 && ltb next u64_limit then rest else none

unfoldable pub parse_u64 : List ℕ → Option ℕ
unfolding digits_from
parse_u64 [] = none
parse_u64 (c ∷ []) = digits_from 0 (c ∷ [])
parse_u64 (c ∷ d ∷ cs) = if c == b'+' then digits_from 0 (d ∷ cs) else digits_from 0 (c ∷ d ∷ cs)

parse_u64_runs : parse_u64 (b'+' ∷ b'1' ∷ b'2' ∷ []) ≡ some 12
unfolding parse_u64
parse_u64_runs = refl

-- `format!("{n}")` of a number below 2 ^ 64: twenty digits are enough.
show_from : ℕ → ℕ → List ℕ → List ℕ
show_from zero n text = text
show_from (suc fuel) n text =
    let more = show_from fuel (n / 10) ((48 + n % 10) ∷ text) in
    if ltb n 10 then (48 + n) ∷ text else more

unfoldable pub show_u64 : ℕ → List ℕ
unfolding show_from
show_u64 n = show_from 20 n []

show_u64_runs : show_u64 1024 ≡ b'1' ∷ b'0' ∷ b'2' ∷ b'4' ∷ []
unfolding show_u64
show_u64_runs = refl

-- One more digit is read as it was written.
digits_from-digit :
    (acc digit : ℕ) (text : List ℕ)
    → digit < 10
    → acc * 10 + digit < u64_limit
    → digits_from acc ((48 + digit) ∷ text) ≡ digits_from (acc * 10 + digit) text
unfolding digits_from
digits_from-digit acc digit text small fits = ground arith

digits_from-show_from :
    (fuel n : ℕ) (text : List ℕ)
    → n < 10 ^ fuel
    → n < u64_limit
    → digits_from 0 (show_from fuel n text) ≡ digits_from n text
unfolding show_from
digits_from-show_from zero n text enough fits = ground arith
digits_from-show_from (suc fuel) n text enough fits = elim (Bool-cases (ltb n 10)) [
  | inl last ↦ ground (arith, digits_from-digit 0 n text)
  | inr more ↦ ground (
    arith,
    digits_from-show_from fuel (n / 10) ((48 + n % 10) ∷ text),
    digits_from-digit (n / 10) (n % 10) text,
  )
]

-- A text that starts with a digit.
abbrev starts_digit : List ℕ → Bool
starts_digit [] = false
starts_digit (c ∷ _) = leb 48 c

show_from-starts_digit :
    (fuel n : ℕ) (text : List ℕ)
    → starts_digit text ≡ true
    → starts_digit (show_from fuel n text) ≡ true
unfolding show_from
show_from-starts_digit zero n text h = h
show_from-starts_digit (suc fuel) n text h =
    ground (arith, show_from-starts_digit fuel (n / 10) ((48 + n % 10) ∷ text))

show_u64-starts_digit : (n : ℕ) → starts_digit (show_u64 n) ≡ true
unfolding show_u64 show_from
show_u64-starts_digit n = ground (arith, show_from-starts_digit 19 (n / 10) ((48 + n % 10) ∷ []))

parse_u64-digits : (text : List ℕ) → starts_digit text ≡ true → parse_u64 text ≡ digits_from 0 text
unfolding parse_u64
parse_u64-digits [] h = ground (arith, h)
parse_u64-digits (c ∷ []) h = refl
parse_u64-digits (c ∷ d ∷ cs) h = ground arith

-- A number below 2 ^ 64 is read back from its decimal text.
pub parse_u64-show_u64 : (n : ℕ) → n < u64_limit → parse_u64 (show_u64 n) ≡ some n
unfolding show_u64 digits_from
parse_u64-show_u64 n fits =
    parse_u64-digits (show_u64 n) (show_u64-starts_digit n)
    ∙ digits_from-show_from 20 n [] (omega arith) fits
