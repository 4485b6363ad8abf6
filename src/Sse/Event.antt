-- ===== src/Sse/Event.antt =====
-- `SseEvent` and `parse_event` of src/sse.rs. A Rust `String` is its bytes.
use inference_io.Prelude.{
  ℕ, Bool, true, false, not, ◌&&◌, List, [], ◌∷◌, ◌++◌, Option, none, some, ◌==◌, if◌then◌else◌,
}
use inference_io.Bytes.{Bytes, ascii, bytes_eq, contains}
use inference_io.Bytes.Utf8.{from_utf8}
use inference_io.Bytes.Decimal.{parse_u64}
use inference_io.Sse.Scan.{lf, is_line_end}

pub record SseEvent : Type 0 where
  pub raw : Bytes
  pub event : Option Bytes
  pub id : Option Bytes
  pub retry_ms : Option ℕ
  pub content : Bytes
  pub valid_utf8 : Bool

-- `raw.split(|byte| *byte == b'\n' || *byte == b'\r')`: the pieces between line ends.
abbrev cons_head : ℕ → List Bytes → List Bytes
cons_head b [] = (b ∷ []) ∷ []
cons_head b (line ∷ lines) = (b ∷ line) ∷ lines

unfoldable pub split_lines : Bytes → List Bytes
split_lines [] = [] ∷ []
split_lines (b ∷ bs) =
    let rest = split_lines bs in if is_line_end b then [] ∷ rest else cons_head b rest

abbrev drop_space : Bytes → Bytes
drop_space [] = []
drop_space (b ∷ bs) = if b == b' ' then bs else b ∷ bs

-- The field before the first colon and the value behind it, less one leading space; without a
-- colon the line is the field and the value is empty.
abbrev with_head : ℕ → Bytes × Bytes → Bytes × Bytes
with_head b (field, value) = (b ∷ field, value)

unfoldable pub split_field : Bytes → Bytes × Bytes
split_field [] = ([], [])
split_field (b ∷ bs) =
    let rest = split_field bs in if b == b':' then ([], drop_space bs) else with_head b rest

-- The loop's variables.
pub record Fields : Type 0 where
  pub event : Option Bytes
  pub id : Option Bytes
  pub retry_ms : Option ℕ
  pub data_lines : List Bytes
  pub valid_utf8 : Bool

abbrev pub no_fields : Fields
no_fields = record { event = none; id = none; retry_ms = none; data_lines = []; valid_utf8 = true }

abbrev pub field_event : Bytes
field_event = ascii "event"

abbrev pub field_id : Bytes
field_id = ascii "id"

abbrev pub field_retry : Bytes
field_retry = ascii "retry"

abbrev pub field_data : Bytes
field_data = ascii "data"

unfoldable pub set_field : Bytes × Bytes → Fields → Fields
set_field (field, value) s =
    let valid = from_utf8 value in
    if bytes_eq field field_event
    then (if valid then record s { event = some value } else record s { valid_utf8 = false })
    else if bytes_eq field field_id
    then (if valid && not (contains 0 value)
        then record s { id = some value }
        else record s { valid_utf8 = false })
    else if bytes_eq field field_retry
    then record s { retry_ms = (if valid then parse_u64 value else none) }
    else if bytes_eq field field_data
    then record s { data_lines = s.data_lines ++ value ∷ []; valid_utf8 = s.valid_utf8 && valid }
    else s

-- One round of the loop: empty lines and comments are skipped.
unfoldable pub read_line : Bytes → Fields → Fields
read_line [] s = s
read_line (b ∷ bs) s = if b == b':' then s else set_field (split_field (b ∷ bs)) s

unfoldable pub read_lines : List Bytes → Fields → Fields
read_lines [] s = s
read_lines (line ∷ lines) s = read_lines lines (read_line line s)

-- The data lines, with a line feed between two of them.
unfoldable pub join_lines : List Bytes → Bytes
join_lines [] = []
join_lines (line ∷ []) = line
join_lines (line ∷ next ∷ lines) = line ++ (lf ∷ join_lines (next ∷ lines))

unfoldable pub parse_event : Bytes → SseEvent
parse_event raw =
    let s = read_lines (split_lines raw) no_fields in
    record {
      raw = raw;
      event = s.event;
      id = s.id;
      retry_ms = s.retry_ms;
      content = join_lines s.data_lines;
      valid_utf8 = s.valid_utf8;
    }
