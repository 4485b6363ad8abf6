-- ===== src/Sse/Tests.antt =====
-- Runs of the event parser of src/sse.rs, and its theorems at concrete inputs.
use inference_io.Prelude.{◌≡◌, refl, true, List, [], ◌∷◌, ◌++◌, none, some, arith, map, ◌<◌}
use inference_io.Bytes.{Bytes, ascii}
use inference_io.Sse.Scan.{cr, lf, find_event_end}
use inference_io.Sse.Event.{
  SseEvent, parse_event, read_lines, join_lines, split_lines, read_line, set_field, split_field,
}
use inference_io.Sse.Parser.{event_too_large, new, ok, err, push, finish, drain}
use inference_io.Sse.Progress.{IsPush, push-IsPush}
use inference_io.Sse.Chunks.{then_push, push-append}
use inference_io.Sse.Stream.{Message, IsMessage, stream, expected, push-stream, push_refuses}
use inference_io.Bytes.Utf8.{from_utf8}
use inference_io.Sse.Format.{encode}
use inference_io.Sse.SharedLineEnd.{open_text, closed_text, left_with, crlf_cut_leaves_lf}

abbrev newline : Bytes
newline = lf ∷ []

abbrev one : Bytes
one = ascii "data: one" ++ lf ∷ lf ∷ []

abbrev two : Bytes
two = ascii "data: two" ++ lf ∷ lf ∷ []

-- `handles_boundaries_and_multiline_data` of the source's tests.
abbrev delta : Bytes
delta = ascii "event: delta" ++ cr ∷ lf ∷ ascii "data: first" ++ cr ∷ []

abbrev second_half : Bytes
second_half = lf ∷ ascii "data: second" ++ cr ∷ lf ∷ cr ∷ lf ∷ []

first_half_waits : push (new 100) delta ≡ (record { buffer = delta; max_event_bytes = 100 }, ok [])
unfolding push drain find_event_end
first_half_waits = refl

multiline : parse_event (delta ++ second_half) ≡ record {
  raw = delta ++ second_half;
  event = some (ascii "delta");
  id = none;
  retry_ms = none;
  content = ascii "first" ++ lf ∷ ascii "second";
  valid_utf8 = true;
}
unfolding parse_event read_lines join_lines split_lines read_line set_field split_field from_utf8
multiline = refl

-- `rejects_unbounded_event` of the source's tests.
unbounded : push (new 4) (ascii "12345") ≡ (new 4, err (event_too_large 4))
unfolding push drain find_event_end
unbounded = refl

abbrev both : List SseEvent
both = parse_event one ∷ parse_event two ∷ []

two_events : push (new 100) (one ++ two) ≡ (new 100, ok both)
unfolding push drain find_event_end
two_events = refl

push-IsPush_example : IsPush (new 100) (one ++ two) (new 100) both
push-IsPush_example = push-IsPush (new 100) (one ++ two) (new 100) both two_events

push-append_example :
    push (new 100) (ascii "data: on" ++ (ascii "e" ++ lf ∷ lf ∷ []))
    ≡ then_push (ascii "e" ++ lf ∷ lf ∷ []) (push (new 100) (ascii "data: on"))
push-append_example = push-append (new 100) (ascii "data: on") (ascii "e" ++ lf ∷ lf ∷ []) refl

abbrev hello : Message
hello = record { name = ascii "delta"; lines = ascii "a" ∷ ascii "b" ∷ [] }

hello-IsMessage : IsMessage 64 hello
hello-IsMessage = record {
  name_line = refl;
  name_utf8 = unfold from_utf8 in refl;
  data_lines = (refl, (refl, tt));
  fits = unfold encode in omega arith;
}

push-stream_example :
    push (new 64) (stream (hello ∷ hello ∷ [])) ≡ (new 64, ok (map expected (hello ∷ hello ∷ [])))
push-stream_example = push-stream 64 (hello ∷ hello ∷ []) (hello-IsMessage, (hello-IsMessage, tt))

push_refuses_example : (new 4 ≡ new 4) × (event_too_large 4 ≡ event_too_large 4) × (4 < 5)
push_refuses_example = push_refuses (new 4) (new 4) (ascii "12345") (event_too_large 4) unbounded

crlf_cut_leaves_lf_example :
    (push (new 100) (closed_text b'd' (ascii "ata: x"))
      ≡ (new 100, ok (parse_event (closed_text b'd' (ascii "ata: x")) ∷ [])))
    × (then_push newline (push (new 100) (open_text b'd' (ascii "ata: x")))
        ≡ left_with 100 (
            ok (
              record (parse_event (closed_text b'd' (ascii "ata: x"))) {
                raw = open_text b'd' (ascii "ata: x");
              }
              ∷ [])))
    × (finish (push (new 100) (closed_text b'd' (ascii "ata: x"))).0 ≡ none)
    × (finish (then_push newline (push (new 100) (open_text b'd' (ascii "ata: x")))).0
        ≡ some newline)
crlf_cut_leaves_lf_example = crlf_cut_leaves_lf 100 b'd' (ascii "ata: x") refl (omega arith)
