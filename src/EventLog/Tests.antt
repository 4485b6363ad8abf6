-- ===== src/EventLog/Tests.antt =====
-- Runs of the event log of src/storage.rs, and its theorems at concrete inputs.
use inference_io.Prelude.{
  ◌≡◌, refl, true, [], ◌∷◌, ◌++◌, none, some, ok, err, arith, All, replicate, saturating_add,
}
use inference_io.Bytes.{Bytes, ascii, contains}
use inference_io.Input.{
  validate_stored_json_complexity, validate_json_complexity, validate_json_complexity_with_limits,
  run, step, plain_byte,
}
use inference_io.Metadata.{has_control}
use inference_io.Model.{validate_envelope, validate_text, validate_ids, validate_texts}
use inference_io.EventLog.Record.{io, encode_envelope, encode_plaintext_envelope, decode_event}
use inference_io.EventLog.Cipher.{
  encrypt_event_record, encrypt_text, sealed_event, event_aad_v2, to_be_bytes, is_encrypted_event,
}
use inference_io.EventLog.Sealed.{stored}
use inference_io.EventLog.TestCodec.{
  event, uuid, entry, entry_read, codec, key, key-IsCipher, entry-IsRecordText, entry_1-IsText,
  entry_2-IsText,
}
use inference_io.EventLog.Codec.{encode-IsLineOf, IsReadable, IsLineOf}
use inference_io.EventLog.Recover.{recover_jsonl_records}
use inference_io.EventLog.Torn.{file_of, Written, recover-torn}
use inference_io.EventLog.Append.{
  Writer, append_prepared, prepare, append_jsonl_records, append_encoded, write_line, write_all,
  finish, replies, append_batch,
}
use inference_io.EventLog.Acknowledge.{numbered_from}
use inference_io.EventLog.Durable.{IsWriter, IsDurable, append_batch-IsDurable}
use inference_io.EventLog.Repair.{IsRepaired, repair_settles}

abbrev started : Writer
started = record {
  disk = record { file = []; room = 3 };
  sequence = 1;
  event_storage_bytes = 0;
  events = 0;
  event_sync_batches = 0;
}

-- A log under a key, on a disk that has no room for the line feed of the second event.
abbrev started_sealed : Writer
started_sealed = record started { disk = record { file = []; room = 59 } }

sealed-IsWriter : IsWriter codec (some key) started_sealed []
unfolding file_of Written
sealed-IsWriter = record {
  file = refl;
  written = tt;
  sequence = refl;
  bytes = refl;
  room = omega arith;
}

batch-IsReadable : All (IsReadable codec) (numbered_from 1 ((uuid, event) ∷ (uuid, event) ∷ []))
unfolding numbered_from
batch-IsReadable = (
  (λ _. (entry_1-IsText, entry-IsRecordText 1)),
  ((λ _. (entry_2-IsText, entry-IsRecordText 2)), tt),
)

append_batch-IsDurable_example :
    IsDurable codec
      (some key)
      []
      (numbered_from 1 ((uuid, event) ∷ (uuid, event) ∷ []))
      (append_batch codec (some key) 100 true started_sealed ((uuid, event) ∷ (uuid, event) ∷ []))
append_batch-IsDurable_example =
    append_batch-IsDurable codec (some key) key-IsCipher 100 true started_sealed []
      ((uuid, event) ∷ (uuid, event) ∷ []) sealed-IsWriter batch-IsReadable

sealed_batch :
    (append_batch codec
      (some key)
      100
      true
      started_sealed
      ((uuid, event) ∷ (uuid, event) ∷ [])).sent
    ≡ ok 1 ∷ err io ∷ []
unfolding append_batch append_prepared prepare append_jsonl_records append_encoded encode_envelope
    encode_plaintext_envelope write_line write_all finish replies validate_stored_json_complexity
    validate_json_complexity_with_limits run step plain_byte saturating_add validate_envelope
    validate_text validate_ids validate_texts has_control encrypt_event_record encrypt_text
    sealed_event event_aad_v2 to_be_bytes
sealed_batch = refl

first_decoded : decode_event codec none (ascii "1" ++ 10 ∷ []) ≡ ok (entry_read 1)
unfolding decode_event is_encrypted_event validate_json_complexity validate_stored_json_complexity
    validate_json_complexity_with_limits run step plain_byte saturating_add validate_envelope
    validate_text validate_ids validate_texts has_control
first_decoded = refl

-- The first byte of the ciphertext is the length of the additional data, 35 bytes.
abbrev first_line : Bytes
first_line = b'#' ∷ 129 ∷ (replicate 24 135 ++ (b'#' ∷ 163 ∷ 177 ∷ []))

first_encoded : encode_envelope codec (some key) (entry 1) ≡ ok first_line
unfolding encode_envelope encode_plaintext_envelope validate_stored_json_complexity
    validate_json_complexity_with_limits run step plain_byte saturating_add validate_envelope
    validate_text validate_ids validate_texts has_control encrypt_event_record encrypt_text
    sealed_event event_aad_v2 to_be_bytes
first_encoded = refl

encode-IsLineOf_example : IsLineOf codec (some key) (stored codec (entry 1)) first_line
encode-IsLineOf_example =
    encode-IsLineOf codec (entry 1) (λ _. (entry_1-IsText, entry-IsRecordText 1)) (some key)
      first_line key-IsCipher first_encoded

-- The log stands after one event, and half of the second is left on the disk.
one_line : Written codec none 0 (record { event = entry_read 1; text = ascii "1" } ∷ [])
unfolding Written contains decode_event
one_line = (record { decoded = first_decoded; one_line = refl; fits = omega arith }, refl, tt)

recover-torn_example :
    recover_jsonl_records codec none
      (file_of (record { event = entry_read 1; text = ascii "1" } ∷ []) ++ ascii "2")
    ≡ ok (record { count = 1; last_sequence = 1; valid_bytes = 2 })
unfolding file_of
recover-torn_example =
    recover-torn codec none (record { event = entry_read 1; text = ascii "1" } ∷ []) (ascii "2")
      one_line (refl, omega arith) (omega arith)

repair_settles_example :
    IsRepaired codec none
      (file_of (record { event = entry_read 1; text = ascii "1" } ∷ []) ++ ascii "2")
      (record { count = 1; last_sequence = 1; valid_bytes = 2 })
unfolding file_of
repair_settles_example =
    repair_settles codec none
      (file_of (record { event = entry_read 1; text = ascii "1" } ∷ []) ++ ascii "2")
      (record { count = 1; last_sequence = 1; valid_bytes = 2 }) (omega arith) recover-torn_example

torn_batch :
    (append_batch codec none 100 true started ((uuid, event) ∷ (uuid, event) ∷ [])).sent
    ≡ ok 1 ∷ err io ∷ []
unfolding append_batch append_prepared prepare append_jsonl_records append_encoded encode_envelope
    encode_plaintext_envelope write_line write_all finish replies validate_stored_json_complexity
    validate_json_complexity_with_limits run step plain_byte saturating_add validate_envelope
    validate_text validate_ids validate_texts has_control
torn_batch = refl
