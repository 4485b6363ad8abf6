-- ===== src/Sse/Format.antt =====
-- The other direction of src/sse.rs: an event as a server writes it, with a name and data lines.
use mathlib.Core.List.{append_assoc, append-nil}
use inference_io.Prelude.{
  ℕ, ◌+◌, ◌≡◌, refl, ap, ◌∙◌, true, false, List, [], ◌∷◌, ◌++◌, ◌&&◌, none, some, arith, length,
  All, length-append,
}
use inference_io.Bytes.{Bytes, ascii, any, all}
use inference_io.Bytes.Utf8.{from_utf8}
use inference_io.Sse.Scan.{lf, is_line_end, scan, find_event_end, find_event_end_lem}
use inference_io.Sse.Event.{
  Fields, no_fields, split_lines, split_field, set_field, read_line, read_lines, join_lines,
  parse_event,
}

pub data_block : List Bytes → Bytes
data_block [] = lf ∷ []
data_block (line ∷ lines) = (ascii "data: " ++ line) ++ (lf ∷ data_block lines)

unfoldable pub encode : Bytes → List Bytes → Bytes
unfolding data_block
encode name lines = (ascii "event: " ++ name) ++ (lf ∷ data_block lines)

-- A line holds no line end.
abbrev pub IsLine : Bytes → Type 0
IsLine line = any is_line_end line ≡ false

split_lines-line :
    (line rest : Bytes) → IsLine line → split_lines (line ++ (lf ∷ rest)) ≡ line ∷ split_lines rest
unfolding split_lines
split_lines-line [] rest h = refl
split_lines-line (b ∷ line) rest h = ground (arith, split_lines-line line rest)

read_line-event :
    (name : Bytes) (s : Fields)
    → from_utf8 name ≡ true
    → read_line (ascii "event: " ++ name) s ≡ record s { event = some name }
unfolding read_line split_field set_field
read_line-event name s h = rw h

-- The fields that the data lines of a block set.
abbrev with_lines : List Bytes → Fields → Fields
with_lines lines s = record s {
  data_lines = s.data_lines ++ lines;
  valid_utf8 = s.valid_utf8 && all from_utf8 lines;
}

read_line-data :
    (line : Bytes) (s : Fields) → read_line (ascii "data: " ++ line) s ≡ with_lines (line ∷ []) s
unfolding read_line split_field set_field
read_line-data line s = ground arith

read_event_line :
    (name rest : Bytes) (s : Fields)
    → IsLine name
    → from_utf8 name ≡ true
    → read_lines (split_lines ((ascii "event: " ++ name) ++ (lf ∷ rest))) s
      ≡ read_lines (split_lines rest) (record s { event = some name })
unfolding read_lines
read_event_line name rest s h valid =
    rw (split_lines-line (ascii "event: " ++ name) rest h)
      (ap (read_lines (split_lines rest)) (read_line-event name s valid))

read_data_line :
    (line rest : Bytes) (s : Fields)
    → IsLine line
    → read_lines (split_lines ((ascii "data: " ++ line) ++ (lf ∷ rest))) s
      ≡ read_lines (split_lines rest) (with_lines (line ∷ []) s)
unfolding read_lines
read_data_line line rest s h =
    rw (split_lines-line (ascii "data: " ++ line) rest h)
      (ap (read_lines (split_lines rest)) (read_line-data line s))

with_lines-nil : (s : Fields) → s ≡ with_lines [] s
with_lines-nil s = rw append-nil (ground arith)

with_lines-cons :
    (line : Bytes) (lines : List Bytes) (s : Fields)
    → with_lines lines (with_lines (line ∷ []) s) ≡ with_lines (line ∷ lines) s
with_lines-cons line lines s = rw append_assoc (ground arith)

read_lines-data_block :
    (lines : List Bytes) (s : Fields)
    → All IsLine lines
    → read_lines (split_lines (data_block lines)) s ≡ with_lines lines s
unfolding data_block
read_lines-data_block [] s h = unfold read_lines split_lines read_line in with_lines-nil s
read_lines-data_block (line ∷ lines) s (h, hs) =
    read_data_line line (data_block lines) s h
    ∙ read_lines-data_block lines (with_lines (line ∷ []) s) hs
    ∙ with_lines-cons line lines s

pub parse_event-encode :
    (name : Bytes) (lines : List Bytes)
    → IsLine name
    → from_utf8 name ≡ true
    → All IsLine lines
    → parse_event (encode name lines) ≡ record {
      raw = encode name lines;
      event = some name;
      id = none;
      retry_ms = none;
      content = join_lines lines;
      valid_utf8 = all from_utf8 lines;
    }
unfolding parse_event encode
parse_event-encode name lines hn hu hl =
    rw (read_event_line name (data_block lines) no_fields hn hu)
      (rw (read_lines-data_block lines (record no_fields { event = some name }) hl))

-- A line that is not empty resets the count; its line feed is then the first.
line_feed :
    (rest : Bytes) (index next : ℕ) → next ≡ index + 1 → scan index 0 (lf ∷ rest) ≡ scan next 1 rest
unfolding scan
line_feed [] index next e = refl
line_feed (c ∷ rest) index next e = ground arith

scan-line :
    (b : ℕ) (line rest : Bytes) (index line_ends next : ℕ)
    → next ≡ index + length line + 2
    → IsLine (b ∷ line)
    → scan index line_ends ((b ∷ line) ++ (lf ∷ rest)) ≡ scan next 1 rest
unfolding scan
scan-line b [] rest index line_ends next e h = ground (arith, line_feed rest (index + 1) next)
scan-line b (d ∷ line) rest index line_ends next e h =
    ground (arith, scan-line d line rest (index + 1) 0 next)

scan-data_block :
    (lines : List Bytes) (rest : Bytes) (index end : ℕ)
    → end ≡ index + length (data_block lines)
    → All IsLine lines
    → scan index 1 (data_block lines ++ rest) ≡ some end
unfolding data_block
scan-data_block [] [] index end e h = unfold scan in ground arith
scan-data_block [] (c ∷ rest) index end e h = unfold scan in ground arith
scan-data_block (line ∷ lines) rest index end e (h, hs) =
    let text : Bytes = ascii "data: " ++ line in
    let next : ℕ = index + length (ascii "ata: " ++ line) + 2 in
    rw (append_assoc text (lf ∷ data_block lines) rest) (
      scan-line b'd' (ascii "ata: " ++ line) (data_block lines ++ rest) index 1 next (omega arith) h
      ∙ scan-data_block lines rest next end
          (omega (arith, length-append text (lf ∷ data_block lines))) hs)

-- A formatted event ends at its own end, whatever follows it.
pub find_event_end-encode :
    (name : Bytes) (lines : List Bytes) (rest : Bytes)
    → IsLine name
    → All IsLine lines
    → find_event_end (encode name lines ++ rest) ≡ some (length (encode name lines))
unfolding encode
find_event_end-encode name lines rest h hs =
    let text : Bytes = ascii "event: " ++ name in
    let next : ℕ = length text + 1 in
    find_event_end_lem ((text ++ (lf ∷ data_block lines)) ++ rest)
    ∙ ap (scan 0 0) (append_assoc text (lf ∷ data_block lines) rest)
    ∙ scan-line b'e' (ascii "vent: " ++ name) (data_block lines ++ rest) 0 0 next (omega arith) h
    ∙ scan-data_block lines rest next (length (text ++ (lf ∷ data_block lines)))
        (omega (arith, length-append text (lf ∷ data_block lines))) hs
