-- ===== src/Sse/SharedLineEnd.antt =====
-- A line end `\r\n` that two chunks share, in `push` and `finish` of src/sse.rs.
use inference_io.Prelude.{
  ℕ, suc, ◌+◌, ◌≤◌, ◌≡◌, ◌<◌, refl, sym, ◌∙◌, ap, false, List, [], ◌∷◌, ◌++◌, some, none, arith,
  ltb, length, length-append, Bool-cases, inl, inr,
}
use mathlib.Core.List.{append_assoc, append-nil}
use inference_io.Bytes.{Bytes}
use inference_io.Sse.Scan.{
  cr, lf, scan, find_event_end, find_event_end_lem, find_event_end-nil, is_line_end,
}
use inference_io.Sse.Event.{
  SseEvent, Fields, no_fields, split_lines, read_line, read_lines, parse_event,
}
use inference_io.Sse.Parser.{SseParser, Pushed, new, drain, drained, drain-nil, ok, push, finish}
use inference_io.Sse.Chunks.{then_push}
use inference_io.Sse.Format.{IsLine}
use inference_io.Sse.Stream.{drain_whole}

abbrev pub crlf : Bytes
crlf = cr ∷ lf ∷ []

crlf_pair :
    (rest : Bytes) (index next : ℕ)
    → next ≡ index + 2
    → scan index 0 (cr ∷ lf ∷ rest) ≡ scan next 1 rest
unfolding scan
crlf_pair rest index next e = ground arith

scan-crlf :
    (b : ℕ) (line rest : Bytes) (index line_ends next : ℕ)
    → next ≡ index + length line + 3
    → IsLine (b ∷ line)
    → scan index line_ends ((b ∷ line) ++ (cr ∷ lf ∷ rest)) ≡ scan next 1 rest
unfolding scan
scan-crlf b [] rest index line_ends next e h = ground (arith, crlf_pair rest (index + 1) next)
scan-crlf b (d ∷ line) rest index line_ends next e h =
    ground (arith, scan-crlf d line rest (index + 1) 0 next)

last_cr : (index end : ℕ) → end ≡ index + 1 → scan index 1 (cr ∷ []) ≡ some end
unfolding scan
last_cr index end e = ground arith

last_crlf : (index end : ℕ) → end ≡ index + 2 → scan index 1 (cr ∷ lf ∷ []) ≡ some end
unfolding scan
last_crlf index end e = ground arith

abbrev with_raw : Bytes → SseEvent → SseEvent
with_raw raw event = record event { raw = raw }

-- The line feed left behind in the buffer.
abbrev pub left_with : ℕ → Pushed → SseParser × Pushed
left_with max pushed = (record { buffer = lf ∷ []; max_event_bytes = max }, pushed)

module _ (b : ℕ) (line : Bytes) where
  -- One line, its `\r\n`, and the first half of the blank line's `\r\n`.
  abbrev pub open_text : Bytes
  open_text = (b ∷ line) ++ (cr ∷ lf ∷ cr ∷ [])

  abbrev pub closed_text : Bytes
  closed_text = (b ∷ line) ++ (cr ∷ lf ∷ cr ∷ lf ∷ [])

  closed_open : open_text ++ lf ∷ [] ≡ closed_text
  closed_open = append_assoc (b ∷ line) (cr ∷ lf ∷ cr ∷ []) (lf ∷ [])

  end_open : IsLine (b ∷ line) → find_event_end open_text ≡ some (length open_text)
  end_open h =
      find_event_end_lem open_text
      ∙ scan-crlf b line (cr ∷ []) 0 0 (length line + 3) (omega arith) h
      ∙ last_cr (length line + 3) (length open_text)
          (omega (arith, length-append (b ∷ line) (cr ∷ lf ∷ cr ∷ [])))

  end_closed : IsLine (b ∷ line) → find_event_end closed_text ≡ some (length closed_text)
  end_closed h =
      find_event_end_lem closed_text
      ∙ scan-crlf b line (cr ∷ lf ∷ []) 0 0 (length line + 3) (omega arith) h
      ∙ last_crlf (length line + 3) (length closed_text)
          (omega (arith, length-append (b ∷ line) (cr ∷ lf ∷ cr ∷ lf ∷ [])))

-- A text that is one event is taken off whole.
drain_one :
    (fuel max : ℕ) (text : Bytes)
    → find_event_end text ≡ some (length text)
    → length text ≤ max
    → drain (suc fuel) max [] text ≡ drained (parse_event text ∷ []) []
drain_one fuel max text e le =
    ap (drain (suc fuel) max []) (sym (append-nil text))
    ∙ drain_whole fuel max [] text [] (ap find_event_end (append-nil text) ∙ e) le
    ∙ drain-nil fuel max (parse_event text ∷ [])

push_one :
    (max : ℕ) (text : Bytes)
    → find_event_end text ≡ some (length text)
    → length text ≤ max
    → push (new max) text ≡ (new max, ok (parse_event text ∷ []))
unfolding push
push_one max [] e le = cc (find_event_end-nil, e)
push_one max (b ∷ text) e le =
    let small : ltb max 0 ≡ false = ground arith in
    rw (drain_one (length text) max (b ∷ text) e le) (rw small)

push-lf :
    (max : ℕ)
    → 0 < max
    → push (new max) (lf ∷ []) ≡ (record { buffer = lf ∷ []; max_event_bytes = max }, ok [])
unfolding push drain find_event_end scan
push-lf max h = let small : ltb max 1 ≡ false = ground arith in rw small

split_lines-cases :
    (text : Bytes) → (line : Bytes) × (lines : List Bytes) × (split_lines text ≡ line ∷ lines)
unfolding split_lines
split_lines-cases [] = ([], [], refl)
split_lines-cases (b ∷ text) = elim (Bool-cases (is_line_end b)) [
  | inl e ↦ ([], split_lines text, rw e)
  | inr e ↦ let (line, lines, split) = split_lines-cases text in (b ∷ line, lines, rw (e, split))
]

-- A line feed behind a text adds an empty line.
split_lines-lf : (text : Bytes) → split_lines (text ++ lf ∷ []) ≡ split_lines text ++ [] ∷ []
unfolding split_lines
split_lines-lf [] = refl
split_lines-lf (b ∷ text) =
    let (line, lines, split) = split_lines-cases text in
    rw (split_lines-lf text, split)
      (elim (Bool-cases (is_line_end b)) [ inl e ↦ rw e | inr e ↦ rw e ])

read_lines_empty :
    (lines : List Bytes) (s : Fields) → read_lines (lines ++ [] ∷ []) s ≡ read_lines lines s
unfolding read_lines read_line
read_lines_empty [] s = refl
read_lines_empty (line ∷ lines) s = read_lines_empty lines (read_line line s)

-- A line feed behind the text of an event changes nothing but the text.
parse_event-lf :
    (text : Bytes)
    → parse_event (text ++ lf ∷ []) ≡ record (parse_event text) { raw = text ++ lf ∷ [] }
unfolding parse_event
parse_event-lf text = rw (split_lines-lf text, read_lines_empty (split_lines text) no_fields)

-- The source's parser depends on where the chunks are cut. An event of one line, within the parser's
-- limit, that ends in `\r\n\r\n` and is pushed whole is returned, and nothing is left. Cut before its
-- last byte, the event is returned one byte early, with the same fields, and the line feed stays behind
-- in the buffer, where `finish` finds it as an unterminated fragment.
pub crlf_cut_leaves_lf :
    (max b : ℕ) (line : Bytes)
    → IsLine (b ∷ line)
    → length (closed_text b line) ≤ max
    → (push (new max) (closed_text b line) ≡ (new max, ok (parse_event (closed_text b line) ∷ [])))
      × (then_push (lf ∷ []) (push (new max) (open_text b line))
          ≡ left_with max
              (ok (record (parse_event (closed_text b line)) { raw = open_text b line } ∷ [])))
      × (finish (push (new max) (closed_text b line)).0 ≡ none)
      × (finish (then_push (lf ∷ []) (push (new max) (open_text b line))).0 ≡ some (lf ∷ []))
unfolding finish parse_event
crlf_cut_leaves_lf max b line h le =
    let shorter : length (open_text b line) ≤ max = omega (
      arith,
      length-append (b ∷ line) (cr ∷ lf ∷ cr ∷ []),
      length-append (b ∷ line) (cr ∷ lf ∷ cr ∷ lf ∷ []),
    ) in
    let positive : 0 < max = omega arith in
    let whole = push_one max (closed_text b line) (end_closed b line h) le in
    let early = push_one max (open_text b line) (end_open b line h) shorter in
    let same : parse_event (open_text b line)
        ≡ record (parse_event (closed_text b line)) { raw = open_text b line } =
      sym (
        ap (with_raw (open_text b line))
          (ap parse_event (sym (closed_open b line)) ∙ parse_event-lf (open_text b line))) in
    (
      whole,
      rw early (
          rw (push-lf max positive)
            (ap (λ (event : SseEvent). left_with max (ok (event ∷ []))) same)),
      rw whole,
      rw early (rw (push-lf max positive)),
    )
