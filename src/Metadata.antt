-- ===== src/Metadata.antt =====
-- src/metadata.rs: names that stand in ordinary metadata are kept short and free of control
-- characters. The hexadecimal SHA-256 of a text is a parameter.
use inference_io.Prelude.{
  ℕ, Bool, false, not, ◌&&◌, ◌||◌, [], ◌∷◌, ◌++◌, ltb, leb, ◌==◌, if◌then◌else◌, length,
}
use inference_io.Bytes.{Bytes, ascii}
use inference_io.Bytes.Decimal.{show_u64}

abbrev pub max_normalized_string_bytes : ℕ
max_normalized_string_bytes = 1024

-- `value.chars().any(char::is_control)`, on the UTF-8 bytes: U+0000 to U+001F, U+007F, and U+0080 to
-- U+009F, which are two bytes each.
unfoldable pub has_control : Bytes → Bool
has_control [] = false
has_control (b ∷ []) = ltb b 32 || b == 127
has_control (b ∷ c ∷ rest) =
    (ltb b 32 || (b == 127 || (b == 0xC2 && (leb 0x80 c && leb c 0x9F)))) || has_control (c ∷ rest)

unfoldable pub bounded_string : (Bytes → Bytes) → Bytes → Bytes
bounded_string sha256_hex value =
    if leb (length value) max_normalized_string_bytes && not (has_control value)
    then value
    else ascii "[HASHED_METADATA sha256:"
      ++ (sha256_hex value ++ (ascii " bytes=" ++ (show_u64 (length value) ++ ascii "]")))
