-- ===== src/EventLog/Record.antt =====
-- One event of the log: encode_envelope and decode_event of src/storage.rs. The JSON text of an
-- event is a parameter, and so are the ciphers that `Cipher` calls.
use inference_io.Prelude.{
  ℕ, ◌+◌, ◌*◌, Bool, true, false, Option, none, some, leb, length, Result, err, ok, ◌>>=◌, ◌>>◌,
  ensure,
}
use inference_io.Bytes.{Bytes}
use inference_io.Input.{InputError, validate_stored_json_complexity}
use inference_io.EventLog.Cipher.{
  CipherError, Codec, EncryptionKey, encrypt_event_record, decrypt_event, is_encrypted_event,
}
use inference_io.Model.{EventEnvelope, InvalidEnvelope, validate_envelope}

abbrev pub max_event_record_bytes : ℕ
max_event_record_bytes = 24 * 1024 * 1024

pub data StorageError : Type 0 where
  invalid_envelope : InvalidEnvelope → StorageError
  complexity : InputError → StorageError
  event_record_too_large : ℕ → StorageError
  invalid_sequence : ℕ → ℕ → StorageError
  malformed : StorageError
  key_required : StorageError
  cipher_failed : CipherError → StorageError
  event_storage_budget_exceeded : ℕ → ℕ → ℕ → StorageError
  io : StorageError
  writer : StorageError

-- `?` on the errors of other modules.
abbrev pub lift_envelope : Result InvalidEnvelope (Unit {0}) → Result StorageError (Unit {0})
lift_envelope (ok u) = ok u
lift_envelope (err e) = err (invalid_envelope e)

abbrev pub lift_complexity : Result InputError (Unit {0}) → Result StorageError (Unit {0})
lift_complexity (ok u) = ok u
lift_complexity (err e) = err (complexity e)

abbrev pub lift_cipher : Result CipherError Bytes → Result StorageError Bytes
lift_cipher (ok text) = ok text
lift_cipher (err e) = err (cipher_failed e)

abbrev pub or_fail {ℓ} : {A : Type ℓ} → StorageError → Option A → Result StorageError A
or_fail e none = err e
or_fail e (some a) = ok a

abbrev pub fits_record : ℕ → Bytes → Result StorageError (Unit {0})
fits_record sequence bytes =
    ensure (leb (length bytes + 1) max_event_record_bytes) (event_record_too_large sequence)

unfoldable pub encode_plaintext_envelope : Codec → EventEnvelope → Result StorageError Bytes
encode_plaintext_envelope c e = do
  lift_envelope (validate_envelope e)
  lift_complexity (validate_stored_json_complexity (c.to_vec e))
  fits_record e.sequence (c.to_vec e)
  ok (c.to_vec e)

abbrev pub encrypt :
    Codec → Option EncryptionKey → EventEnvelope → Bytes → Result StorageError Bytes
encrypt c none e plaintext = ok plaintext
encrypt c (some key) e plaintext =
    lift_cipher (encrypt_event_record c key plaintext e.run_id e.sequence)

unfoldable pub encode_envelope :
    Codec → Option EncryptionKey → EventEnvelope → Result StorageError Bytes
encode_envelope c encryption e = do
  plaintext ← encode_plaintext_envelope c e
  serialized ← encrypt c encryption e plaintext
  fits_record e.sequence serialized
  ok serialized

abbrev pub decrypt : Codec → Option EncryptionKey → Bytes → Result StorageError EventEnvelope
decrypt c none encoded = err key_required
decrypt c (some key) encoded = do
  plaintext ← lift_cipher (decrypt_event c key encoded)
  lift_complexity (validate_stored_json_complexity plaintext)
  or_fail malformed (c.from_slice plaintext)

abbrev pub parse : Codec → Option EncryptionKey → Bool → Bytes → Result StorageError EventEnvelope
parse c encryption true encoded = decrypt c encryption encoded
parse c encryption false encoded = or_fail malformed (c.from_slice encoded)

unfoldable pub decode_event :
    Codec → Option EncryptionKey → Bytes → Result StorageError EventEnvelope
decode_event c encryption encoded = do
  lift_complexity (validate_stored_json_complexity encoded)
  e ← parse c encryption (is_encrypted_event c encoded) encoded
  lift_envelope (validate_envelope e)
  ok e
