-- ===== src/EventLog/Torn.antt =====
-- A log of whole lines, and at its end perhaps a line that a crash has torn, is recovered exactly.
use mathlib.Core.List.{append_assoc}
use inference_io.Prelude.{
  ℕ, zero, suc, ◌+◌, ◌≤◌, ◌≡◌, refl, ap, ◌∙◌, subst, true, false, List, [], ◌∷◌, ◌++◌, Option,
  arith, length, length-append, saturating_add_exact, u64_max, ok,
}
use inference_io.Bytes.{Bytes, contains}
use inference_io.Bytes.Lines.{newline, read_until-line, read_until-open}
use inference_io.Model.{EventEnvelope}
use inference_io.EventLog.Record.{max_event_record_bytes}
use inference_io.EventLog.Cipher.{EncryptionKey, Codec}
use inference_io.EventLog.Recover.{
  Recovered, nothing_recovered, recover_line, recover_from, recover_jsonl_records,
}
use inference_io.EventLog.Codec.{IsLineOf}

-- An event, and the line that stands for it.
pub record Entry : Type 0 where
  pub event : EventEnvelope
  pub text : Bytes

unfoldable pub file_of : List Entry → Bytes
file_of [] = []
file_of (line ∷ lines) = line.text ++ (newline ∷ file_of lines)

unfoldable pub events_of : List Entry → List EventEnvelope
events_of [] = []
events_of (line ∷ lines) = line.event ∷ events_of lines

pub events_of-append :
    (lines more : List Entry) → events_of (lines ++ more) ≡ events_of lines ++ events_of more
unfolding events_of
events_of-append [] more = refl
events_of-append (line ∷ lines) more =
    ap (λ events. line.event ∷ events) (events_of-append lines more)

pub length-events_of : (lines : List Entry) → length (events_of lines) ≡ length lines
unfolding events_of
length-events_of [] = refl
length-events_of (line ∷ lines) = omega (arith, length-events_of lines)

length-le-file_of : (lines : List Entry) → length lines ≤ length (file_of lines)
unfolding file_of
length-le-file_of [] = omega arith
length-le-file_of (line ∷ lines) =
    omega (arith, length-le-file_of lines, length-append line.text (newline ∷ file_of lines))

-- Lines that stand for events with consecutive sequence numbers, after the given one.
unfoldable pub Written : Codec → Option EncryptionKey → ℕ → List Entry → Type 0
Written c encryption n [] = Unit
Written c encryption n (line ∷ lines) =
    IsLineOf c encryption line.event line.text
    × (line.event.sequence ≡ suc n)
    × Written c encryption (suc n) lines

abbrev pub advanced : Recovered → List Entry → Recovered
advanced s lines = record {
  count = s.count + length lines;
  last_sequence = s.last_sequence + length lines;
  valid_bytes = s.valid_bytes + length (file_of lines);
}

-- The counters do not overflow.
abbrev HasRoom : Recovered → List Entry → Type 0
HasRoom s lines =
    (s.count + length lines ≤ u64_max)
    × (s.last_sequence + length lines ≤ u64_max)
    × (s.valid_bytes + length (file_of lines) ≤ u64_max)

abbrev pub IsTorn : Bytes → Type 0
IsTorn torn = (contains newline torn ≡ false) × (length torn ≤ max_event_record_bytes)

module _ (c : Codec) (encryption : Option EncryptionKey) where
  recover_line-IsLineOf :
      (line : Entry) (rest : Bytes) (s : Recovered)
      → IsLineOf c encryption line.event line.text
      → line.event.sequence ≡ suc s.last_sequence
      → HasRoom s (line ∷ [])
      → recover_line c encryption (record { text = line.text; terminated = true; rest = rest }) s
        ≡ ok (advanced s (line ∷ []))
  unfolding recover_line file_of
  recover_line-IsLineOf line rest s is_line next (count, sequence, bytes) = ground (
    arith,
    is_line.decoded,
    next,
    length-append line.text (newline ∷ []),
    saturating_add_exact s.count 1 (omega (arith, count)),
    saturating_add_exact s.last_sequence 1 (omega (arith, sequence)),
    saturating_add_exact s.valid_bytes (length line.text + 1)
        (omega (arith, bytes, length-append line.text (newline ∷ []))),
  )

  recover_from-torn :
      (fuel : ℕ) (s : Recovered) (torn : Bytes)
      → IsTorn torn
      → recover_from fuel c encryption s torn ≡ ok s
  unfolding recover_from
  recover_from-torn zero s torn is_torn = refl
  recover_from-torn (suc fuel) s torn (one_line, fits) =
      rw (read_until-open (max_event_record_bytes + 1) torn one_line (omega (arith, fits)))
        (ground (arith, fits))

  recover_from_step :
      (fuel : ℕ) (line : Entry) (rest : Bytes) (s : Recovered)
      → IsLineOf c encryption line.event line.text
      → line.event.sequence ≡ suc s.last_sequence
      → HasRoom s (line ∷ [])
      → recover_from (suc fuel) c encryption s (line.text ++ newline ∷ rest)
        ≡ recover_from fuel c encryption (advanced s (line ∷ [])) rest
  unfolding recover_from
  recover_from_step fuel line rest s is_line next room =
      rw
        (
          read_until-line (max_event_record_bytes + 1) line.text rest is_line.one_line
              (omega (arith, is_line.fits)),
          recover_line-IsLineOf line rest s is_line next room,
        )
        (ground (arith, is_line.fits))

  recover_from-Written :
      (fuel : ℕ) (s : Recovered) (lines : List Entry) (torn : Bytes)
      → Written c encryption s.last_sequence lines
      → HasRoom s lines
      → length (file_of lines) ≤ fuel
      → IsTorn torn
      → recover_from fuel c encryption s (file_of lines ++ torn) ≡ ok (advanced s lines)
  unfolding Written file_of
  recover_from-Written fuel s [] torn written room enough is_torn =
      recover_from-torn fuel s torn is_torn ∙ ground arith
  recover_from-Written zero s (line ∷ lines) torn written room enough is_torn =
      absurd (omega (arith, enough, length-append line.text (newline ∷ file_of lines)))
  recover_from-Written (suc fuel) s (line ∷ lines) torn (is_line, next, written)
        (count, sequence, bytes) enough is_torn =
      let after : Recovered = advanced s (line ∷ []) in
      let size = length-append line.text (newline ∷ file_of lines) in
      let first = length-append line.text (newline ∷ []) in
      ap (λ file. recover_from (suc fuel) c encryption s file)
        (append_assoc line.text (newline ∷ file_of lines) torn)
      ∙ recover_from_step fuel line (file_of lines ++ torn) s is_line next
          (omega (arith, count), omega (arith, sequence), omega (arith, bytes, size, first))
      ∙ recover_from-Written fuel after lines torn
          (subst (λ n. Written c encryption n lines) (omega arith) written)
          (omega (arith, count), omega (arith, sequence), omega (arith, bytes, size, first))
          (omega (arith, enough, size)) is_torn
      ∙ ground (arith, size, first)

-- A file of fewer than 2 ^ 64 bytes that holds the lines of consecutive events from the first on, and
-- behind them a part of a line (with no line feed, and no longer than a record may be), is recovered:
-- as many events as lines, the last of that number, and exactly the bytes of the whole lines.
pub recover-torn :
    (c : Codec) (encryption : Option EncryptionKey) (lines : List Entry) (torn : Bytes)
    → Written c encryption 0 lines
    → IsTorn torn
    → length (file_of lines) ≤ u64_max
    → recover_jsonl_records c encryption (file_of lines ++ torn)
      ≡ ok (record {
        count = length lines;
        last_sequence = length lines;
        valid_bytes = length (file_of lines);
      })
unfolding recover_jsonl_records
recover-torn c encryption lines torn written is_torn room =
    recover_from-Written c encryption (length (file_of lines ++ torn)) nothing_recovered lines torn
      written
      (
        omega (arith, room, length-le-file_of lines),
        omega (arith, room, length-le-file_of lines),
        omega (arith, room),
      )
      (omega (arith, length-append (file_of lines) torn)) is_torn
    ∙ ground arith
