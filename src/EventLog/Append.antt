-- ===== src/EventLog/Append.antt =====
-- append_batch and append_jsonl_records of src/storage.rs. A write can fail: the disk takes a number
-- of bytes, and a write beyond them leaves the bytes that still fit. Whether the synchronisation
-- after the batch succeeds is an argument.
use inference_io.Prelude.{
  ℕ, zero, suc, ◌+◌, ◌-◌, Bool, true, false, ◌||◌, ◌&&◌, not, List, [], ◌∷◌, ◌++◌, Option, none,
  some, ltb, leb, if◌then◌else◌, length, take, saturating_add, u64_max, Result, ok, err, ◌>>=◌,
  ◌>>◌, ensure,
}
use inference_io.Bytes.{Bytes}
use inference_io.Bytes.Lines.{newline}
use inference_io.Model.{PendingEvent, Uuid, EventEnvelope, from_pending}
use inference_io.EventLog.Record.{
  StorageError, event_storage_budget_exceeded, io, writer, encode_envelope,
}
use inference_io.EventLog.Cipher.{EncryptionKey, Codec}

pub record Disk : Type 0 where
  pub file : Bytes
  pub room : ℕ

-- `write_all`.
unfoldable pub write_all : Bytes → Disk → Bool × Disk
write_all bytes d =
    if leb (length bytes) d.room
    then (true, record { file = d.file ++ bytes; room = d.room - length bytes })
    else (false, record { file = d.file ++ take d.room bytes; room = 0 })

-- The variables of the loop of append_jsonl_records.
pub record Appending : Type 0 where
  pub disk : Disk
  pub persisted : ℕ
  pub persisted_bytes : ℕ
  pub failure : Option StorageError

abbrev pub stop : StorageError → Appending → Appending
stop e s = record s { failure = some e }

unfoldable pub write_line : Bytes → ℕ → Appending → Appending
write_line serialized requested s =
    let (first, d) = write_all serialized s.disk in
    let (second, d') = write_all (newline ∷ []) d in
    if first
    then (if second
        then record {
          disk = d';
          persisted = s.persisted + 1;
          persisted_bytes = saturating_add s.persisted_bytes requested;
          failure = none;
        }
        else stop io (record s { disk = d' }))
    else stop io (record s { disk = d })

-- A round of the loop, for what encode_envelope gives.
unfoldable pub append_encoded : ℕ → ℕ → Result StorageError Bytes → Appending → Appending
append_encoded event_storage_bytes maximum (err e) s = stop e s
append_encoded event_storage_bytes maximum (ok serialized) s =
    let requested = saturating_add (length serialized) 1 in
    let used = saturating_add event_storage_bytes s.persisted_bytes in
    if ltb u64_max (used + requested) || ltb maximum (used + requested)
    then stop (event_storage_budget_exceeded used requested maximum) s
    else write_line serialized requested s

module _ (c : Codec) (encryption : Option EncryptionKey) (event_storage_bytes maximum : ℕ) where
  unfoldable pub append_jsonl_records : List EventEnvelope → Appending → Appending
  append_jsonl_records [] s = s
  append_jsonl_records (e ∷ prepared) s =
      let t = append_encoded event_storage_bytes maximum (encode_envelope c encryption e) s in
      let rest = append_jsonl_records prepared t in elim t.failure [ none ↦ rest | some _ ↦ t ]

-- The envelopes of a batch, numbered from a sequence number on.
unfoldable pub prepare : ℕ → List (Uuid × PendingEvent) → Result StorageError (List EventEnvelope)
prepare sequence [] = ok []
prepare sequence ((event_id, event) ∷ batch) = do
  ensure (leb sequence u64_max) writer
  prepared ← prepare (sequence + 1) batch
  ok (from_pending sequence event_id event ∷ prepared)

-- The variables of `writer_loop` that a batch changes, and the counters of the statistics.
pub record Writer : Type 0 where
  pub disk : Disk
  pub sequence : ℕ
  pub event_storage_bytes : ℕ
  pub events : ℕ
  pub event_sync_batches : ℕ

abbrev pub Reply : Type 0
Reply = Result StorageError ℕ

abbrev pub failure_or_stopped : Option StorageError → StorageError
failure_or_stopped none = writer
failure_or_stopped (some e) = e

-- The first replies give the sequence numbers of their events, the others the failure.
unfoldable pub replies : ℕ → Option StorageError → List EventEnvelope → List Reply
replies persisted failure [] = []
replies zero failure (e ∷ prepared) =
    err (failure_or_stopped failure) ∷ replies zero failure prepared
replies (suc persisted) failure (e ∷ prepared) = ok e.sequence ∷ replies persisted failure prepared

abbrev pub has_failed : Option StorageError → Result StorageError (Unit {0})
has_failed none = ok tt
has_failed (some e) = err writer

-- What becomes of the writer, its replies, and whether it goes on.
pub record Batched : Type 0 where
  pub writer : Writer
  pub sent : List Reply
  pub outcome : Result StorageError (Unit {0})

unfoldable pub finish : Bool → Writer → List EventEnvelope → Appending → Batched
finish synced w prepared s =
    if ltb 0 s.persisted && not synced
    then record {
      writer = record w { disk = s.disk };
      sent = replies 0 (some io) prepared;
      outcome = err writer;
    }
    else if ltb u64_max (w.sequence + s.persisted)
    then record { writer = record w { disk = s.disk }; sent = []; outcome = err writer }
    else record {
      writer = record {
        disk = s.disk;
        sequence = w.sequence + s.persisted;
        event_storage_bytes = saturating_add w.event_storage_bytes s.persisted_bytes;
        events = w.events + s.persisted;
        event_sync_batches =
            (if ltb 0 s.persisted then w.event_sync_batches + 1 else w.event_sync_batches);
      };
      sent = replies s.persisted s.failure prepared;
      outcome = has_failed s.failure;
    }

abbrev pub appending : Disk → Appending
appending disk = record { disk = disk; persisted = 0; persisted_bytes = 0; failure = none }

unfoldable pub append_prepared :
    Codec
    → Option EncryptionKey
    → ℕ
    → Bool
    → Writer
    → Result StorageError (List EventEnvelope)
    → Batched
append_prepared c encryption maximum synced w (err e) = record {
  writer = w;
  sent = [];
  outcome = err e;
}
append_prepared c encryption maximum synced w (ok prepared) =
    finish synced w prepared
      (append_jsonl_records c encryption w.event_storage_bytes maximum prepared (appending w.disk))

unfoldable pub append_batch :
    Codec → Option EncryptionKey → ℕ → Bool → Writer → List (Uuid × PendingEvent) → Batched
append_batch c encryption maximum synced w batch =
    append_prepared c encryption maximum synced w (prepare w.sequence batch)
