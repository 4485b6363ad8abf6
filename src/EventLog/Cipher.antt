-- ===== src/EventLog/Cipher.antt =====
-- The encrypted records of the log: encrypt_event_record and decrypt_event of src/crypto.rs, with the
-- additional data that they authenticate and the check of the decrypted envelope. The AEAD, base64
-- and the JSON texts are parameters.
use inference_io.Prelude.{
  ℕ, ◌*◌, ◌/◌, ◌%◌, ◌^◌, Bool, true, false, ◌&&◌, [], ◌∷◌, ◌++◌, Option, none, some, length, map,
  ◌==◌, if◌then◌else◌, Result, ok, err, ◌>>=◌, ◌>>◌, ensure,
}
use inference_io.Bytes.{Bytes, ascii, bytes_eq}
use inference_io.Json.{Value, string, get}
use inference_io.Control.Fields.{as_u64}
use inference_io.Input.{InputError, validate_json_complexity, validate_stored_json_complexity}
use inference_io.Model.{EventEnvelope}

-- `EncryptedEvent`, also as `EncryptedEventRef` reads it.
pub record EncryptedEvent : Type 0 where
  pub version : ℕ
  pub run_id : Option Bytes
  pub sequence : Option ℕ
  pub nonce : Bytes
  pub ciphertext : Bytes

-- What the code calls of other packages: serde_json on envelopes, on encrypted records and on values,
-- and base64. `read_value` is what serde_json reads of the text that it writes for a value: it may
-- round a fraction.
pub record Codec : Type 0 where
  pub to_vec : EventEnvelope → Bytes
  pub from_slice : Bytes → Option EventEnvelope
  pub write_record : EncryptedEvent → Bytes
  pub read_record : Bytes → Option EncryptedEvent
  pub value_of : Bytes → Option Value
  pub read_value : Value → Value
  pub encode64 : Bytes → Bytes
  pub decode64 : Bytes → Option Bytes

-- XChaCha20-Poly1305 under a key: the nonce that is drawn for a record with the given additional data,
-- and the encryption and decryption of a text by nonce, text and additional data.
pub record EncryptionKey : Type 0 where
  pub generate : Bytes → Bytes
  pub seal : Bytes → Bytes → Bytes → Option Bytes
  pub unseal : Bytes → Bytes → Bytes → Option Bytes

-- `u64::to_be_bytes`.
unfoldable pub to_be_bytes : ℕ → Bytes
to_be_bytes n = map (λ k. n / 2 ^ (8 * k) % 256) (7 ∷ 6 ∷ 5 ∷ 4 ∷ 3 ∷ 2 ∷ 1 ∷ 0 ∷ [])

unfoldable pub event_aad_v2 : Bytes → ℕ → Bytes
event_aad_v2 run_id sequence =
    ascii "iorec:event:v2" ++ (to_be_bytes (length run_id) ++ (run_id ++ to_be_bytes sequence))

pub data CipherError : Type 0 where
  complexity : InputError → CipherError
  malformed : CipherError
  invalid_base64 : CipherError
  no_context : CipherError
  unsupported_version : CipherError
  invalid_nonce : CipherError
  aead_failed : CipherError
  context_mismatch : CipherError

-- `?` on the error of another module, and on what other packages give.
abbrev pub lift_input : Result InputError (Unit {0}) → Result CipherError (Unit {0})
lift_input (ok u) = ok u
lift_input (err e) = err (complexity e)

abbrev pub given {ℓ} : {A : Type ℓ} → CipherError → Option A → Result CipherError A
given e none = err e
given e (some a) = ok a

-- `EncryptionKey::encrypt`: the nonce and the ciphertext.
unfoldable pub encrypt_text : EncryptionKey → Bytes → Bytes → Result CipherError (Bytes × Bytes)
encrypt_text key plaintext aad = do
  ciphertext ← given aead_failed (key.seal (key.generate aad) plaintext aad)
  ok (key.generate aad, ciphertext)

-- `EncryptionKey::decrypt`.
unfoldable pub decrypt_text : EncryptionKey → Bytes → Bytes → Bytes → Result CipherError Bytes
decrypt_text key nonce ciphertext aad = do
  ensure (length nonce == 24) invalid_nonce
  given aead_failed (key.unseal nonce ciphertext aad)

-- The record of a ciphertext.
unfoldable pub sealed_event : Codec → Bytes → ℕ → Bytes → Bytes → EncryptedEvent
sealed_event c run_id sequence nonce ciphertext = record {
  version = 2;
  run_id = some run_id;
  sequence = some sequence;
  nonce = c.encode64 nonce;
  ciphertext = c.encode64 ciphertext;
}

unfoldable pub encrypt_event_record :
    Codec → EncryptionKey → Bytes → Bytes → ℕ → Result CipherError Bytes
encrypt_event_record c key plaintext run_id sequence = do
  (nonce, ciphertext) ← encrypt_text key plaintext (event_aad_v2 run_id sequence)
  ok (c.write_record (sealed_event c run_id sequence nonce ciphertext))

abbrev pub is_text : Bytes → Option Value → Bool
is_text text none = false
is_text text (some (string s)) = bytes_eq s text
is_text text (some _) = false

abbrev pub is_same : ℕ → Option ℕ → Bool
is_same n none = false
is_same n (some m) = m == n

abbrev pub is_number : ℕ → Option Value → Bool
is_number n none = false
is_number n (some value) = is_same n (as_u64 value)

unfoldable pub validate_event_context : Codec → Bytes → Bytes → ℕ → Result CipherError (Unit {0})
validate_event_context c plaintext run_id sequence = do
  lift_input (validate_stored_json_complexity plaintext)
  event ← given malformed (c.value_of plaintext)
  ensure
      (is_text run_id (get (ascii "run_id") event)
        && is_number sequence (get (ascii "sequence") event))
      context_mismatch

-- The branches on the version.
unfoldable pub decrypt_record :
    Codec → EncryptionKey → EncryptedEvent → Bytes → Bytes → Result CipherError Bytes
decrypt_record c key r nonce ciphertext =
    let bound = (do
      run_id ← given no_context r.run_id
      sequence ← given no_context r.sequence
      plaintext ← decrypt_text key nonce ciphertext (event_aad_v2 run_id sequence)
      validate_event_context c plaintext run_id sequence
      ok plaintext) in
    if r.version == 1
    then decrypt_text key nonce ciphertext (ascii "iorec:event:v1")
    else if r.version == 2
    then bound
    else err unsupported_version

unfoldable pub decrypt_event : Codec → EncryptionKey → Bytes → Result CipherError Bytes
decrypt_event c key encoded = do
  lift_input (validate_json_complexity encoded)
  r ← given malformed (c.read_record encoded)
  nonce ← given invalid_base64 (c.decode64 r.nonce)
  ciphertext ← given invalid_base64 (c.decode64 r.ciphertext)
  decrypt_record c key r nonce ciphertext

abbrev is_given : Option EncryptedEvent → Bool
is_given none = false
is_given (some r) = true

abbrev pub is_valid : Result InputError (Unit {0}) → Bool
is_valid (ok u) = true
is_valid (err e) = false

unfoldable pub is_encrypted_event : Codec → Bytes → Bool
is_encrypted_event c encoded =
    is_valid (validate_json_complexity encoded) && is_given (c.read_record encoded)
