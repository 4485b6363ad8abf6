-- ===== src/EventLog/Durable.antt =====
-- The writer of src/storage.rs over a batch: what it has acknowledged is recovered, and when the batch
-- succeeds the writer's own account of the log is right again.
use mathlib.Core.List.{append-nil}
use inference_io.Prelude.{
  ℕ, zero, suc, ◌+◌, ◌≤◌, ◌≡◌, refl, sym, ap, ◌∙◌, subst, Bool, true, false, not, ◌&&◌, List, [],
  ◌∷◌, ◌++◌, Option, none, some, arith, ltb, if◌then◌else◌, length, map, saturating_add_exact,
  u64_max, All, ok, inl, inr, Result-cases,
}
use inference_io.Bytes.{Bytes}
use inference_io.Model.{PendingEvent, Uuid, EventEnvelope}
use inference_io.EventLog.Record.{StorageError, io}
use inference_io.EventLog.Cipher.{EncryptionKey, Codec}
use inference_io.EventLog.Codec.{IsReadable}
use inference_io.EventLog.Sealed.{stored, IsKey}
use inference_io.EventLog.Recover.{recover_jsonl_records}
use inference_io.EventLog.Torn.{Entry, file_of, events_of, Written, recover-torn}
use inference_io.EventLog.Append.{
  Appending, prepare, Writer, Reply, replies, has_failed, Batched, finish, appending,
  append_prepared, append_batch,
}
use inference_io.EventLog.Batch.{IsAppended, HasTaken}
use inference_io.EventLog.Acknowledge.{
  Numbered, numbered_from, numbered_from-Numbered, prepare-numbered_from, append_jsonl-IsRound,
}

-- The writer's account of a log that holds the given lines.
pub record IsWriter (c : Codec) (encryption : Option EncryptionKey) (w : Writer)
    (lines : List Entry) : Type 0 where
  pub file : w.disk.file ≡ file_of lines
  pub written : Written c encryption 0 lines
  pub sequence : w.sequence ≡ suc (length lines)
  pub bytes : w.event_storage_bytes ≡ length (file_of lines)
  pub room : length (file_of lines) ≤ u64_max

-- A reply that names an event names one of the first so many.
abbrev pub IsAmong : ℕ → Reply → Type 0
IsAmong events reply = (sequence : ℕ) → reply ≡ ok sequence → sequence ≤ events

has_failed-none : (failure : Option StorageError) → has_failed failure ≡ ok tt → failure ≡ none
has_failed-none none h = refl
has_failed-none (some e) h = cc h

none-IsAmong :
    (n : ℕ) (failure : Option StorageError) (prepared : List EventEnvelope)
    → All (IsAmong n) (replies zero failure prepared)
unfolding replies
none-IsAmong n failure [] = tt
none-IsAmong n failure (e ∷ prepared) = ((λ q h. cc h), none-IsAmong n failure prepared)

replies-IsAmong :
    (n persisted : ℕ) (failure : Option StorageError) (prepared : List EventEnvelope)
    → Numbered (suc n) prepared
    → All (IsAmong (n + persisted)) (replies persisted failure prepared)
unfolding replies
replies-IsAmong n persisted failure [] numbered = tt
replies-IsAmong n zero failure (e ∷ prepared) numbered = none-IsAmong (n + 0) failure (e ∷ prepared)
replies-IsAmong n (suc persisted) failure (e ∷ prepared) (first, numbered) = (
  (λ q h. ground (arith, h, first)),
  subst (λ m. All (IsAmong m) (replies persisted failure prepared)) (omega arith)
      (replies-IsAmong (suc n) persisted failure prepared numbered),
)

module _ (c : Codec) (encryption : Option EncryptionKey) where
  abbrev pub IsRecovered : List Entry → Bytes → Type 0
  IsRecovered lines file =
      recover_jsonl_records c encryption file
      ≡ ok (record {
        count = length lines;
        last_sequence = length lines;
        valid_bytes = length (file_of lines);
      })

  -- What holds when a log of the given lines is to take the given events: the lines of the file stand
  -- for the old events and then a part of the new ones, as they are read back and in their order, and
  -- are all recovered.
  abbrev pub IsDurable : List Entry → List EventEnvelope → Batched → Type 0
  IsDurable lines events b =
      (all : List Entry) × (torn : Bytes) × (rest : List EventEnvelope) × (b.writer.disk.file
        ≡ file_of all ++ torn)
      × Written c encryption 0 all
      × (events_of all ++ rest ≡ events_of lines ++ map (stored c) events)
      × IsRecovered all b.writer.disk.file
      × All (IsAmong (length all)) b.sent
      × (b.outcome ≡ ok tt → IsWriter c encryption b.writer all × (rest ≡ []))

  module _ (key : IsKey c encryption) where
    IsAppended-IsRecovered :
        (old used : ℕ) (start lines : List Entry) (torn : Bytes) (s : Appending)
        → IsAppended c encryption old used start lines torn s
        → IsRecovered lines s.disk.file
    IsAppended-IsRecovered old used start lines torn s a =
        subst (IsRecovered lines) (sym a.file)
          (recover-torn c encryption lines torn a.written a.is_torn a.room)

    if_IsDurable :
        (lines : List Entry) (events : List EventEnvelope) (test : Bool) (b d : Batched)
        → (test ≡ true → IsDurable lines events b)
        → (test ≡ false → IsDurable lines events d)
        → IsDurable lines events (if test then b else d)
    if_IsDurable lines events true b d hb hd = hb refl
    if_IsDurable lines events false b d hb hd = hd refl

    finish-IsDurable :
        (synced : Bool) (w : Writer) (start lines : List Entry) (torn : Bytes)
        (prepared : List EventEnvelope) (s : Appending)
        → IsWriter c encryption w start
        → Numbered (suc (length start)) prepared
        → IsAppended c encryption (length start) w.event_storage_bytes start lines torn s
        → HasTaken s.failure start lines (map (stored c) prepared)
        → IsDurable start prepared (finish synced w prepared s)
    unfolding finish
    finish-IsDurable synced w start lines torn prepared s is_writer numbered a
          (rest, taken, whole) =
        let recovered =
          IsAppended-IsRecovered (length start) w.event_storage_bytes start lines torn s a in
        if_IsDurable start prepared (ltb 0 s.persisted && not synced) _ _
          (λ lost. (
            lines,
            torn,
            rest,
            a.file,
            a.written,
            taken,
            recovered,
            none-IsAmong (length lines) (some io) prepared,
            (λ h. cc h),
          ))
          (λ kept.
            if_IsDurable start prepared (ltb u64_max (w.sequence + s.persisted)) _ _
              (λ over. (lines, torn, rest, a.file, a.written, taken, recovered, tt, (λ h. cc h)))
              (λ fits. (
                lines,
                torn,
                rest,
                a.file,
                a.written,
                taken,
                recovered,
                subst (λ n. All (IsAmong n) (replies s.persisted s.failure prepared)) a.counted
                    (replies-IsAmong (length start) s.persisted s.failure prepared numbered),
                (λ h.
                    let going : s.failure ≡ none = has_failed-none s.failure h in
                    (
                      record {
                        file =
                            a.file
                            ∙ ap (λ piece. file_of lines ++ piece) (a.clean going)
                            ∙ append-nil (file_of lines);
                        written = a.written;
                        sequence = omega (arith, is_writer.sequence, a.counted);
                        bytes = omega (
                          arith,
                          a.bytes,
                          a.room,
                          saturating_add_exact w.event_storage_bytes s.persisted_bytes
                              (omega (arith, a.bytes, a.room)),
                        );
                        room = a.room;
                      },
                      whole going,
                    )),
              )))

    start_of :
        (w : Writer) (lines : List Entry)
        → IsWriter c encryption w lines
        → IsAppended c encryption
            (length lines)
            w.event_storage_bytes
            lines
            lines
            []
            (appending w.disk)
    start_of w lines is_writer = record {
      file = is_writer.file ∙ sym (append-nil (file_of lines));
      written = is_writer.written;
      is_torn = (refl, omega arith);
      clean = λ h. refl;
      grown = ([], sym (append-nil lines));
      counted = omega arith;
      bytes = omega (arith, is_writer.bytes);
      room = is_writer.room;
    }

    -- Let a writer's account of the log be right, and a batch be appended on any disk, at any limit,
    -- synchronised or not. Then the file that is left holds the lines of the old events and then of the
    -- first so many of the batch, in its order, each as serde_json reads it back, and perhaps a torn
    -- line, and recovery finds exactly those events; every sequence number that a reply acknowledges is
    -- one of theirs; and when the batch succeeds, all its events are among them and the writer's account
    -- is right again. It is given, of the batch's events that pass the checks, that serde_json writes
    -- each on one line and reads it again, as an event, and as a value with its run ID and sequence
    -- number, but not as an encrypted record; and that it writes the encrypted records of an event as
    -- lines of JSON within the limits and reads them again. With a key it is also given that the AEAD
    -- decrypts what it encrypts, that its nonces have 24 bytes, and that base64 decodes what it encodes.
    pub append_batch-IsDurable :
        (maximum : ℕ) (synced : Bool) (w : Writer) (lines : List Entry)
        (batch : List (Uuid × PendingEvent))
        → IsWriter c encryption w lines
        → All (IsReadable c) (numbered_from w.sequence batch)
        → IsDurable lines
            (numbered_from w.sequence batch)
            (append_batch c encryption maximum synced w batch)
    unfolding append_batch append_prepared
    append_batch-IsDurable maximum synced w lines batch is_writer readable =
        elim (Result-cases (prepare w.sequence batch)) [
          | inr (failure, e) ↦
              let start = start_of w lines is_writer in
              rw e (
                lines,
                [],
                map (stored c) (numbered_from w.sequence batch),
                start.file,
                start.written,
                refl,
                IsAppended-IsRecovered (length lines) w.event_storage_bytes lines lines []
                    (appending w.disk) start,
                tt,
                (λ h. cc h),
              )
          | inl (prepared, e) ↦
              let numbered : Numbered (suc (length lines)) (numbered_from w.sequence batch) =
                subst (λ n. Numbered n (numbered_from w.sequence batch)) is_writer.sequence
                  (numbered_from-Numbered w.sequence batch) in
              let (all, torn, a, taken) =
                append_jsonl-IsRound c encryption key (length lines) w.event_storage_bytes maximum
                  lines lines (numbered_from w.sequence batch) (appending w.disk)
                  (start_of w lines is_writer) refl numbered readable in
              rw (e, prepare-numbered_from w.sequence batch prepared e)
                (finish-IsDurable synced w lines all torn (numbered_from w.sequence batch) _
                  is_writer numbered a taken)
        ]
