-- ===== src/EventLog/Acknowledge.antt =====
-- What a whole batch of src/storage.rs leaves behind: the log, and the replies to its events.
use mathlib.Core.List.{append_assoc, append-nil}
use inference_io.Prelude.{
  ℕ, suc, ◌+◌, ◌≡◌, refl, sym, ap, ◌∙◌, subst, Bool, true, false, ◌||◌, List, [], ◌∷◌, ◌++◌, Option,
  none, some, arith, ltb, if◌then◌else◌, length, map, All, saturating_add, saturating_add_exact,
  u64_max, ok, inl, inr, Result-cases, Option-cases,
}
use inference_io.Bytes.{Bytes}
use inference_io.Model.{PendingEvent, Uuid, EventEnvelope, from_pending}
use inference_io.EventLog.Record.{StorageError, encode_envelope}
use inference_io.EventLog.Cipher.{EncryptionKey, Codec}
use inference_io.EventLog.Codec.{IsReadable, encode-IsLineOf}
use inference_io.EventLog.Sealed.{stored, IsKey}
use inference_io.EventLog.Torn.{Entry, file_of, events_of}
use inference_io.EventLog.Append.{Appending, stop, append_encoded, append_jsonl_records, prepare}
use inference_io.EventLog.Batch.{IsAppended, HasTaken, length-HasTaken, write_line-IsAppended}

-- Envelopes with consecutive sequence numbers from one on.
abbrev pub Numbered : ℕ → List EventEnvelope → Type 0
Numbered n [] = Unit
Numbered n (e ∷ prepared) = (e.sequence ≡ n) × Numbered (suc n) prepared

-- The events of a batch in their envelopes.
unfoldable pub numbered_from : ℕ → List (Uuid × PendingEvent) → List EventEnvelope
numbered_from n [] = []
numbered_from n ((event_id, event) ∷ batch) =
    from_pending n event_id event ∷ numbered_from (n + 1) batch

pub numbered_from-Numbered :
    (n : ℕ) (batch : List (Uuid × PendingEvent)) → Numbered n (numbered_from n batch)
unfolding numbered_from
numbered_from-Numbered n [] = tt
numbered_from-Numbered n ((event_id, event) ∷ batch) =
    let first : (from_pending n event_id event).sequence ≡ n = refl in
    (
      first,
      subst (λ m. Numbered m (numbered_from (n + 1) batch)) (omega arith)
          (numbered_from-Numbered (n + 1) batch),
    )

pub prepare-numbered_from :
    (n : ℕ) (batch : List (Uuid × PendingEvent)) (prepared : List EventEnvelope)
    → prepare n batch ≡ ok prepared
    → prepared ≡ numbered_from n batch
unfolding prepare numbered_from
prepare-numbered_from n [] prepared h = cc h
prepare-numbered_from n ((event_id, event) ∷ batch) prepared h =
    elim (Result-cases (prepare (n + 1) batch)) [
      | inr (failure, e) ↦ absurd (ground (arith, e, h))
      | inl (rest, e) ↦ ground (arith, e, h, prepare-numbered_from (n + 1) batch rest e)
    ]

module _ (c : Codec) (encryption : Option EncryptionKey) (key : IsKey c encryption) where
  module _ (old used maximum : ℕ) (start : List Entry) where
    stop-IsAppended :
        (failure : StorageError) (lines : List Entry) (s : Appending)
        → IsAppended c encryption old used start lines [] s
        → IsAppended c encryption old used start lines [] (stop failure s)
    stop-IsAppended failure lines s a = record {
      file = a.file;
      written = a.written;
      is_torn = a.is_torn;
      clean = λ h. refl;
      grown = a.grown;
      counted = a.counted;
      bytes = a.bytes;
      room = a.room;
    }

    abbrev pub IsRound : List Entry → List EventEnvelope → Appending → Type 0
    IsRound lines events s =
        (lines' : List Entry) × (torn : Bytes) × IsAppended c encryption old used start lines' torn
          s
        × HasTaken s.failure lines lines' (map (stored c) events)

    if_IsRound :
        (lines : List Entry) (events : List EventEnvelope) (b : Bool) (s t : Appending)
        → (b ≡ true → IsRound lines events s)
        → (b ≡ false → IsRound lines events t)
        → IsRound lines events (if b then s else t)
    if_IsRound lines events true s t hs ht = hs refl
    if_IsRound lines events false s t hs ht = ht refl

    append_encoded-IsRound :
        (lines : List Entry) (e : EventEnvelope) (s : Appending)
        → IsAppended c encryption old used start lines [] s
        → s.failure ≡ none
        → e.sequence ≡ suc (length lines)
        → IsReadable c e
        → IsRound lines (e ∷ []) (append_encoded used maximum (encode_envelope c encryption e) s)
    unfolding append_encoded stored
    append_encoded-IsRound lines e s a going next readable =
        elim (Result-cases (encode_envelope c encryption e)) [
          | inr (failure, h) ↦
              rw h
                (lines, [], stop-IsAppended failure lines s a, (stored c e ∷ [], refl, (λ f. cc f)))
          | inl (line, h) ↦
              let is_line = encode-IsLineOf c e readable encryption line key h in
              let size = saturating_add_exact (length line) 1 (omega (arith, is_line.fits)) in
              let total : saturating_add used s.persisted_bytes ≡ length (file_of lines) = omega (
                arith,
                a.bytes,
                a.room,
                saturating_add_exact used s.persisted_bytes (omega (arith, a.bytes, a.room)),
              ) in
              rw (h, size, total)
                (if_IsRound lines (e ∷ [])
                  (ltb u64_max (length (file_of lines) + (length line + 1))
                    || ltb maximum (length (file_of lines) + (length line + 1)))
                  _ _
                  (λ over.
                    (lines, [], stop-IsAppended _ lines s a, (stored c e ∷ [], refl, (λ f. cc f))))
                  (λ within.
                    write_line-IsAppended c encryption old used start lines
                      (record { event = stored c e; text = line }) s a going is_line next
                      (ground (arith, within))))
        ]

    first_round : EventEnvelope → Appending → Appending
    first_round e s = append_encoded used maximum (encode_envelope c encryption e) s

    first_round-IsRound :
        (lines : List Entry) (e : EventEnvelope) (s : Appending)
        → IsAppended c encryption old used start lines [] s
        → s.failure ≡ none
        → e.sequence ≡ suc (length lines)
        → IsReadable c e
        → IsRound lines (e ∷ []) (first_round e s)
    unfolding first_round
    first_round-IsRound lines e s a going next readable =
        append_encoded-IsRound lines e s a going next readable

    records_stop :
        (e : EventEnvelope) (prepared : List EventEnvelope) (s : Appending) {failure : StorageError}
        → (first_round e s).failure ≡ some failure
        → append_jsonl_records c encryption used maximum (e ∷ prepared) s ≡ first_round e s
    unfolding append_jsonl_records first_round
    records_stop e prepared s f = ground (arith, f)

    records_go :
        (e : EventEnvelope) (prepared : List EventEnvelope) (s : Appending)
        → (first_round e s).failure ≡ none
        → append_jsonl_records c encryption used maximum (e ∷ prepared) s
          ≡ append_jsonl_records c encryption used maximum prepared (first_round e s)
    unfolding append_jsonl_records first_round
    records_go e prepared s f = ground (arith, f)

    pub append_jsonl-IsRound :
        (lines : List Entry) (prepared : List EventEnvelope) (s : Appending)
        → IsAppended c encryption old used start lines [] s
        → s.failure ≡ none
        → Numbered (suc (length lines)) prepared
        → All (IsReadable c) prepared
        → IsRound lines prepared (append_jsonl_records c encryption used maximum prepared s)
    unfolding append_jsonl_records
    append_jsonl-IsRound lines [] s a going numbered readable = (
      lines,
      [],
      a,
      ([], append-nil (events_of lines) ∙ sym (append-nil (events_of lines)), (λ f. refl)),
    )
    append_jsonl-IsRound lines (e ∷ prepared) s a going (first, numbered) (one, readable) =
        let (lines', torn, a', (rest, taken, whole)) =
          first_round-IsRound lines e s a going first one in
        elim (Option-cases (first_round e s).failure) [
          | inr (failure, f) ↦
              subst (IsRound lines (e ∷ prepared)) (sym (records_stop e prepared s f)) (
                lines',
                torn,
                a',
                (
                  rest ++ map (stored c) prepared,
                  sym (append_assoc (events_of lines') rest (map (stored c) prepared))
                      ∙ ap (λ events. events ++ map (stored c) prepared) taken
                      ∙ append_assoc (events_of lines) (stored c e ∷ []) (map (stored c) prepared),
                  (λ g. absurd (cc (f, g))),
                ),
              )
          | inl f ↦
              let (all, end, b, (rest', taken', whole')) =
                append_jsonl-IsRound lines' prepared (first_round e s)
                  (subst
                    (λ piece. IsAppended c encryption old used start lines' piece (first_round e s))
                    (a'.clean f) a')
                  f
                  (subst (λ n. Numbered n prepared)
                    (omega (
                      arith,
                      length-HasTaken (first_round e s).failure lines lines' (stored c e ∷ [])
                          (rest, taken, whole) f,
                    ))
                    numbered)
                  readable in
              subst (IsRound lines (e ∷ prepared)) (sym (records_go e prepared s f)) (
                all,
                end,
                b,
                (
                  rest',
                  taken'
                      ∙ ap (λ events. events ++ map (stored c) prepared)
                          (sym (append-nil (events_of lines'))
                            ∙ ap (λ r. events_of lines' ++ r) (sym (whole f))
                            ∙ taken)
                      ∙ append_assoc (events_of lines) (stored c e ∷ []) (map (stored c) prepared),
                  whole',
                ),
              )
        ]
