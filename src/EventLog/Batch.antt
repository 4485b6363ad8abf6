-- ===== src/EventLog/Batch.antt =====
-- A batch, whatever fails in it, leaves a log from which exactly the events that it has written are
-- recovered, and acknowledges no other.
use mathlib.Core.List.{append_assoc, append-nil}
use inference_io.Prelude.{
  ℕ, zero, suc, ◌+◌, ◌-◌, ◌≤◌, ◌≡◌, refl, sym, ap, ◌∙◌, subst, false, List, [], ◌∷◌, ◌++◌, Option,
  none, arith, leb, length, take, length-append, saturating_add, saturating_add_exact, u64_max, ◌⊎◌,
  Bool-cases, inl, inr,
}
use inference_io.Bytes.{Bytes, contains}
use inference_io.Bytes.Lines.{newline}
use inference_io.Model.{EventEnvelope}
use inference_io.EventLog.Record.{StorageError, io}
use inference_io.EventLog.Cipher.{EncryptionKey, Codec}
use inference_io.EventLog.Codec.{IsLineOf}
use inference_io.EventLog.Torn.{
  Entry, file_of, events_of, events_of-append, length-events_of, Written, IsTorn,
}
use inference_io.EventLog.Append.{write_all, Appending, stop, write_line}

file_of-append : (lines more : List Entry) → file_of (lines ++ more) ≡ file_of lines ++ file_of more
unfolding file_of
file_of-append [] more = refl
file_of-append (line ∷ lines) more =
    ap (λ file. line.text ++ (newline ∷ file)) (file_of-append lines more)
    ∙ sym (append_assoc line.text (newline ∷ file_of lines) (file_of more))

take-contains :
    (n : ℕ) (b : ℕ) (text : Bytes) → contains b text ≡ false → contains b (take n text) ≡ false
take-contains zero b text h = refl
take-contains (suc n) b [] h = refl
take-contains (suc n) b (x ∷ text) h = ground (arith, h, take-contains n b text)

length-take : (n : ℕ) (text : Bytes) → length (take n text) ≤ length text
length-take zero text = omega arith
length-take (suc n) [] = omega arith
length-take (suc n) (x ∷ text) = omega (arith, length-take n text)

-- What write_line makes of the loop's variables: a whole line more, or a piece of it and a failure.
abbrev whole : Bytes → ℕ → ℕ → Appending → Appending
whole line requested room s = record {
  disk = record { file = s.disk.file ++ (line ++ newline ∷ []); room = room };
  persisted = s.persisted + 1;
  persisted_bytes = saturating_add s.persisted_bytes requested;
  failure = none;
}

abbrev cut_short : Bytes → Appending → Appending
cut_short piece s = stop io (record s { disk = record { file = s.disk.file ++ piece; room = 0 } })

abbrev IsPiece : Bytes → Bytes → Type 0
IsPiece line piece =
    (contains newline line ≡ false → contains newline piece ≡ false) × (length piece ≤ length line)

write_line-cases :
    (line : Bytes) (requested : ℕ) (s : Appending)
    → ((room : ℕ) × (write_line line requested s ≡ whole line requested room s))
      ⊎ ((piece : Bytes) × IsPiece line piece × (write_line line requested s ≡ cut_short piece s))
unfolding write_line write_all
write_line-cases line requested s = elim (Bool-cases (leb (length line) s.disk.room)) [
  | inl fits ↦ elim (Bool-cases (leb 1 (s.disk.room - length line))) [
    | inl ends ↦ inl (
      s.disk.room - length line - 1,
      ground (arith, fits, ends, append_assoc s.disk.file line (newline ∷ [])),
    )
    | inr full ↦
        let empty : s.disk.room - length line ≡ 0 = ground (arith, full) in
        inr (
          line,
          ((λ h. h), omega arith),
          ground (arith, fits, full, empty, append-nil (s.disk.file ++ line)),
        )
  ]
  | inr cut ↦ inr (
    take s.disk.room line,
    (take-contains s.disk.room newline line, length-take s.disk.room line),
    ground (arith, cut),
  )
]

-- The log has taken a part of the given events, and all of them if nothing has failed.
abbrev pub HasTaken : Option StorageError → List Entry → List Entry → List EventEnvelope → Type 0
HasTaken failure lines lines' events =
    (rest : List EventEnvelope) × (events_of lines' ++ rest ≡ events_of lines ++ events)
    × (failure ≡ none → rest ≡ [])

pub length-HasTaken :
    (failure : Option StorageError) (lines lines' : List Entry) (events : List EventEnvelope)
    → HasTaken failure lines lines' events
    → failure ≡ none
    → length lines' ≡ length lines + length events
length-HasTaken failure lines lines' events (rest, taken, all) going = omega (
  arith,
  ap length taken,
  length-append (events_of lines') rest,
  length-append (events_of lines) events,
  length-events_of lines,
  length-events_of lines',
  ap length (all going),
)

module _ (c : Codec) (encryption : Option EncryptionKey) where
  Written-append :
      (n : ℕ) (lines : List Entry) (line : Entry)
      → Written c encryption n lines
      → IsLineOf c encryption line.event line.text
      → line.event.sequence ≡ suc (n + length lines)
      → Written c encryption n (lines ++ line ∷ [])
  unfolding Written
  Written-append n [] line written is_line next = (is_line, omega (arith, next), tt)
  Written-append n (x ∷ lines) line (first, number, written) is_line next =
      (first, number, Written-append (suc n) lines line written is_line (omega (arith, next)))

  -- A loop of appends under way: the lines so far, which extend the lines at the start, and a torn
  -- one after a failure.
  pub record IsAppended (old : ℕ) (used : ℕ) (start : List Entry) (lines : List Entry)
      (torn : Bytes) (s : Appending) : Type 0 where
    pub file : s.disk.file ≡ file_of lines ++ torn
    pub written : Written c encryption 0 lines
    pub is_torn : IsTorn torn
    pub clean : s.failure ≡ none → torn ≡ []
    pub grown : (more : List Entry) × (lines ≡ start ++ more)
    pub counted : old + s.persisted ≡ length lines
    pub bytes : used + s.persisted_bytes ≡ length (file_of lines)
    pub room : length (file_of lines) ≤ u64_max

  module _ (old used : ℕ) (start : List Entry) where
    file_of-line :
        (lines : List Entry) (line : Entry)
        → file_of (lines ++ line ∷ []) ≡ file_of lines ++ (line.text ++ newline ∷ [])
    unfolding file_of
    file_of-line lines line = file_of-append lines (line ∷ [])

    events_of-line :
        (lines : List Entry) (line : Entry)
        → events_of (lines ++ line ∷ []) ≡ events_of lines ++ line.event ∷ []
    unfolding events_of
    events_of-line lines line = events_of-append lines (line ∷ [])

    whole-IsAppended :
        (lines : List Entry) (line : Entry) (s : Appending) (room : ℕ)
        → IsAppended old used start lines [] s
        → IsLineOf c encryption line.event line.text
        → line.event.sequence ≡ suc (length lines)
        → length (file_of lines) + (length line.text + 1) ≤ u64_max
        → IsAppended old used start
            (lines ++ line ∷ [])
            []
            (whole line.text (length line.text + 1) room s)
    whole-IsAppended lines line s room a is_line next small =
        let size : length (file_of (lines ++ line ∷ []))
            ≡ length (file_of lines) + (length line.text + 1) =
          omega (
            arith,
            ap length (file_of-line lines line),
            length-append (file_of lines) (line.text ++ newline ∷ []),
            length-append line.text (newline ∷ []),
          ) in
        record {
          file =
              ap (λ file. file ++ (line.text ++ newline ∷ [])) (a.file ∙ append-nil (file_of lines))
              ∙ sym (file_of-line lines line)
              ∙ sym (append-nil (file_of (lines ++ line ∷ [])));
          written = Written-append 0 lines line a.written is_line (omega (arith, next));
          is_torn = (refl, omega arith);
          clean = λ _. refl;
          grown = (
            a.grown.0 ++ line ∷ [],
            ap (λ l. l ++ line ∷ []) a.grown.1 ∙ append_assoc start a.grown.0 (line ∷ []),
          );
          counted = omega (arith, a.counted, length-append lines (line ∷ []));
          bytes = omega (
            arith,
            size,
            a.bytes,
            saturating_add_exact s.persisted_bytes (length line.text + 1)
                (omega (arith, a.bytes, small)),
          );
          room = omega (arith, size, small);
        }

    cut_short-IsAppended :
        (lines : List Entry) (line : Entry) (piece : Bytes) (s : Appending)
        → IsAppended old used start lines [] s
        → IsLineOf c encryption line.event line.text
        → IsPiece line.text piece
        → IsAppended old used start lines piece (cut_short piece s)
    cut_short-IsAppended lines line piece s a is_line (one_line, shorter) = record {
      file = ap (λ file. file ++ piece) (a.file ∙ append-nil (file_of lines));
      written = a.written;
      is_torn = (one_line is_line.one_line, omega (arith, shorter, is_line.fits));
      clean = λ h. cc h;
      grown = a.grown;
      counted = a.counted;
      bytes = a.bytes;
      room = a.room;
    }

    -- One line, written whole or torn.
    pub write_line-IsAppended :
        (lines : List Entry) (line : Entry) (s : Appending)
        → IsAppended old used start lines [] s
        → s.failure ≡ none
        → IsLineOf c encryption line.event line.text
        → line.event.sequence ≡ suc (length lines)
        → length (file_of lines) + (length line.text + 1) ≤ u64_max
        → (lines' : List Entry) × (torn : Bytes) × IsAppended old used start lines' torn
            (write_line line.text (length line.text + 1) s)
          × HasTaken
              (write_line line.text (length line.text + 1) s).failure
              lines
              lines'
              (line.event ∷ [])
    write_line-IsAppended lines line s a going is_line next small =
        elim (write_line-cases line.text (length line.text + 1) s) [
          | inl (room, written) ↦ (
            lines ++ line ∷ [],
            [],
            subst (IsAppended old used start (lines ++ line ∷ []) []) (sym written)
                (whole-IsAppended lines line s room a is_line next small),
            (
              [],
              append-nil (events_of (lines ++ line ∷ [])) ∙ events_of-line lines line,
              (λ _. refl),
            ),
          )
          | inr (piece, is_piece, written) ↦ (
            lines,
            piece,
            subst (IsAppended old used start lines piece) (sym written)
                (cut_short-IsAppended lines line piece s a is_line is_piece),
            (line.event ∷ [], refl, (λ h. cc (h, written))),
          )
        ]
