-- ===== src/EventLog/Bound.antt =====
-- What decrypt_event of src/crypto.rs has checked of the text that it gives.
use inference_io.Prelude.{ℕ, ◌≡◌, some, length, ok, ◌⊎◌}
use inference_io.Bytes.{Bytes, ascii}
use inference_io.Json.{Value, string, get}
use inference_io.Control.Fields.{as_u64}
use inference_io.Input.{validate_stored_json_complexity}
use inference_io.EventLog.Cipher.{EncryptedEvent, Codec, EncryptionKey, event_aad_v2}

-- The text is an event of the given run, with the given sequence number.
pub record IsEventOf (c : Codec) (plaintext run_id : Bytes) (sequence : ℕ) : Type 0 where
  pub simple : validate_stored_json_complexity plaintext ≡ ok tt
  pub value : Value
  pub parsed : c.value_of plaintext ≡ some value
  pub of_run : get (ascii "run_id") value ≡ some (string run_id)
  pub digits : Value
  pub numbered : get (ascii "sequence") value ≡ some digits
  pub as_number : as_u64 digits ≡ some sequence

-- The AEAD has authenticated the text with the additional data, under a nonce of 24 bytes.
abbrev pub IsAuthentic : EncryptionKey → Bytes → Bytes → Bytes → Bytes → Type 0
IsAuthentic key nonce ciphertext aad plaintext =
    (length nonce ≡ 24) × (key.unseal nonce ciphertext aad ≡ some plaintext)

-- The text belongs to its record: with version 2, to the run and sequence number that the record names.
abbrev pub IsBound : Codec → EncryptionKey → EncryptedEvent → Bytes → Bytes → Bytes → Type 0
IsBound c key r nonce ciphertext plaintext =
    ((r.version ≡ 1) × IsAuthentic key nonce ciphertext (ascii "iorec:event:v1") plaintext)
    ⊎ ((r.version ≡ 2)
        × ((run_id : Bytes) × (sequence : ℕ) × (r.run_id ≡ some run_id)
            × (r.sequence ≡ some sequence)
            × IsAuthentic key nonce ciphertext (event_aad_v2 run_id sequence) plaintext
            × IsEventOf c plaintext run_id sequence))
