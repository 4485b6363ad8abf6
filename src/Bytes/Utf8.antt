-- ===== src/Bytes/Utf8.antt =====
-- `str::from_utf8(bytes).is_ok()`: the well-formed sequences of the Unicode standard, as the
-- standard library checks them. The state is how many continuation bytes are due, and the range
-- in which the next one must lie.
use inference_io.Prelude.{
  ℕ, zero, suc, ◌≡◌, refl, Bool, true, false, ◌&&◌, List, [], ◌∷◌, ltb, leb, ◌==◌, if◌then◌else◌,
}

abbrev within : ℕ → ℕ → ℕ → Bool
within lo hi b = leb lo b && leb b hi

unfoldable pub utf8_from : ℕ → ℕ → ℕ → List ℕ → Bool
utf8_from zero lo hi [] = true
utf8_from (suc due) lo hi [] = false
utf8_from zero lo hi (b ∷ bs) =
    let due = (if within 0xC2 0xDF b then 1 else if within 0xE0 0xEF b then 2 else 3) in
    let low = (if b == 0xE0 then 0xA0 else if b == 0xF0 then 0x90 else 0x80) in
    let high = (if b == 0xED then 0x9F else if b == 0xF4 then 0x8F else 0xBF) in
    let single = utf8_from 0 0x80 0xBF bs in
    let sequence = utf8_from due low high bs in
    if ltb b 0x80 then single else if within 0xC2 0xF4 b then sequence else false
utf8_from (suc due) lo hi (b ∷ bs) = within lo hi b && utf8_from due 0x80 0xBF bs

unfoldable pub from_utf8 : List ℕ → Bool
unfolding utf8_from
from_utf8 bytes = utf8_from 0 0x80 0xBF bytes

-- The text "é€𝄞" is well formed; an overlong form and a surrogate are not.
from_utf8_runs :
    from_utf8 (0xC3 ∷ 0xA9 ∷ 0xE2 ∷ 0x82 ∷ 0xAC ∷ 0xF0 ∷ 0x9D ∷ 0x84 ∷ 0x9E ∷ []) ≡ true
unfolding from_utf8
from_utf8_runs = refl

from_utf8_rejects :
    (from_utf8 (0xC0 ∷ 0x80 ∷ []) ≡ false) × (from_utf8 (0xED ∷ 0xA0 ∷ 0x80 ∷ []) ≡ false)
unfolding from_utf8
from_utf8_rejects = (refl, refl)
