-- ===== src/Sse/Parser.antt =====
-- `SseParser` of src/sse.rs: the buffer, `push` and `finish`.
use inference_io.Prelude.{
  ℕ, zero, suc, ◌*◌, ◌≡◌, refl, List, [], ◌∷◌, ◌++◌, Option, none, some, ltb, if◌then◌else◌, length,
  take, drop,
}
use inference_io.Sse.Scan.{find_event_end, find_event_end-nil}
use inference_io.Sse.Event.{SseEvent, parse_event}

abbrev pub default_max_event_bytes : ℕ
default_max_event_bytes = 8 * 1024 * 1024

pub data SseError : Type 0 where
  event_too_large : ℕ → SseError

pub record SseParser : Type 0 where
  pub buffer : List ℕ
  pub max_event_bytes : ℕ

abbrev pub new : ℕ → SseParser
new max_event_bytes = record { buffer = []; max_event_bytes = max_event_bytes }

-- How the `while let` loop of `push` is left: by an event beyond the limit, or with no further end
-- in the buffer.
pub data Drained : Type 0 where
  too_large : Drained
  drained : List SseEvent → List ℕ → Drained

-- The loop, on fuel; each round takes a non-empty event off the buffer, so that the buffer's length
-- is enough.
unfoldable pub drain : ℕ → ℕ → List SseEvent → List ℕ → Drained
drain zero max output buffer = drained output buffer
drain (suc fuel) max output buffer = elim (find_event_end buffer) [
  | none ↦ drained output buffer
  | some end ↦
      let rest = drain fuel max (output ++ parse_event (take end buffer) ∷ []) (drop end buffer) in
      if ltb max end then too_large else rest
]

pub data Pushed : Type 0 where
  ok : List SseEvent → Pushed
  err : SseError → Pushed

-- Both ways to fail clear the buffer.
abbrev pub fail : SseParser → SseParser × Pushed
fail p = (record p { buffer = [] }, err (event_too_large p.max_event_bytes))

abbrev pub settle : SseParser → Drained → SseParser × Pushed
settle p too_large = fail p
settle p (drained output buffer) =
    if ltb p.max_event_bytes (length buffer)
    then fail p
    else (record p { buffer = buffer }, ok output)

unfoldable pub push : SseParser → List ℕ → SseParser × Pushed
push p bytes =
    let buffer = p.buffer ++ bytes in settle p (drain (length buffer) p.max_event_bytes [] buffer)

-- An unterminated fragment, if there is one.
unfoldable pub finish : SseParser → Option (List ℕ)
finish p = elim p.buffer [ [] ↦ none | b ∷ bs ↦ some (b ∷ bs) ]

pub drain-nil :
    (fuel max : ℕ) (output : List SseEvent) → drain fuel max output [] ≡ drained output []
unfolding drain
drain-nil zero max output = refl
drain-nil (suc fuel) max output = rw (find_event_end-nil, drain)

-- The round of the loop in equations.
module _ (fuel max : ℕ) (output : List SseEvent) (buffer : List ℕ) where
  pub drain_stop :
      find_event_end buffer ≡ none → drain (suc fuel) max output buffer ≡ drained output buffer
  unfolding drain
  drain_stop e = rw (e, drain)

  pub drain_step :
      (end : ℕ)
      → find_event_end buffer ≡ some end
      → drain (suc fuel) max output buffer ≡ (
          if ltb max end
          then too_large
          else drain fuel max (output ++ parse_event (take end buffer) ∷ []) (drop end buffer))
  unfolding drain
  drain_step end e = rw (e, drain)
