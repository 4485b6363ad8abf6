-- ===== src/EventLog/Sealed.antt =====
-- What the log's proofs ask of serde_json, base64 and the AEAD, and that src/crypto.rs decrypts with
-- them the record of an event that it has encrypted.
use inference_io.Prelude.{
  ℕ, ◌≡◌, refl, sym, subst, true, false, [], ◌∷◌, ◌++◌, Option, none, some, arith, length, ok, err,
  Option-cases, inl, inr,
}
use inference_io.Bytes.{Bytes, ascii, contains, bytes_eq_refl}
use inference_io.Bytes.Lines.{newline}
use inference_io.Json.{Value, string, null, get}
use inference_io.Control.Fields.{as_u64}
use inference_io.Input.{validate_json_complexity, validate_stored_json_complexity}
use inference_io.Input.Stored.{validate_stored-within}
use inference_io.Model.{EventEnvelope}
use inference_io.EventLog.Cipher.{
  Codec, EncryptionKey, event_aad_v2, encrypt_text, decrypt_text, sealed_event,
  encrypt_event_record, validate_event_context, decrypt_record, decrypt_event, is_encrypted_event,
  CipherError, given, aead_failed,
}

-- An event as serde_json reads its text: `null` for the optional value is read as no value.
abbrev pub read_normalized : Codec → Option Value → Option Value
read_normalized c none = none
read_normalized c (some null) = none
read_normalized c (some value) = some (c.read_value value)

unfoldable pub stored : Codec → EventEnvelope → EventEnvelope
stored c e = record e { normalized = read_normalized c e.normalized }

-- serde_json on the text of one event: it is one line, which is read again, also with a line feed
-- behind it, and as a value has the event's run ID and sequence number; it is not an encrypted record,
-- whose version, nonce and ciphertext it lacks.
pub record IsText (c : Codec) (e : EventEnvelope) : Type 0 where
  pub one_line : contains newline (c.to_vec e) ≡ false
  pub reads : c.from_slice (c.to_vec e) ≡ some (stored c e)
  pub reads_line : c.from_slice (c.to_vec e ++ newline ∷ []) ≡ some (stored c e)
  pub is_plain : c.read_record (c.to_vec e ++ newline ∷ []) ≡ none
  pub value : Value
  pub value_of : c.value_of (c.to_vec e) ≡ some value
  pub run_id : get (ascii "run_id") value ≡ some (string e.run_id)
  pub number : Value
  pub sequence : get (ascii "sequence") value ≡ some number
  pub as_number : as_u64 number ≡ some e.sequence

-- serde_json on the encrypted records of one event: each is one line of flat JSON, which is read again
-- with a line feed behind it.
pub record IsRecordText (c : Codec) (e : EventEnvelope) : Type 0 where
  pub one_line :
      (nonce ciphertext : Bytes)
      → contains newline (c.write_record (sealed_event c e.run_id e.sequence nonce ciphertext))
        ≡ false
  pub is_simple :
      (nonce ciphertext : Bytes)
      → validate_json_complexity
          (c.write_record (sealed_event c e.run_id e.sequence nonce ciphertext) ++ newline ∷ [])
        ≡ ok tt
  pub reads :
      (nonce ciphertext : Bytes)
      → c.read_record
          (c.write_record (sealed_event c e.run_id e.sequence nonce ciphertext) ++ newline ∷ [])
        ≡ some (sealed_event c e.run_id e.sequence nonce ciphertext)

-- base64 is decoded again, a nonce has 24 bytes, and a text that the AEAD has encrypted is decrypted
-- with the same nonce and additional data.
pub record IsCipher (c : Codec) (key : EncryptionKey) : Type 0 where
  pub base64 : (bytes : Bytes) → c.decode64 (c.encode64 bytes) ≡ some bytes
  pub nonce : (aad : Bytes) → length (key.generate aad) ≡ 24
  pub aead :
      (nonce plaintext aad ciphertext : Bytes)
      → key.seal nonce plaintext aad ≡ some ciphertext
      → key.unseal nonce ciphertext aad ≡ some plaintext

abbrev pub IsKey : Codec → Option EncryptionKey → Type 0
IsKey c none = Unit
IsKey c (some key) = IsCipher c key

pub given-ok : {A : Type 0} (e : CipherError) (o : Option A) (a : A) → given e o ≡ ok a → o ≡ some a
given-ok e none a h = cc h
given-ok e (some x) a h = cc h

module _ (c : Codec) (key : EncryptionKey) where
  -- What encrypt_event_record has done when it succeeds.
  encrypt_event_record-parts :
      (plaintext run_id encrypted : Bytes) (sequence : ℕ)
      → encrypt_event_record c key plaintext run_id sequence ≡ ok encrypted
      → (ciphertext : Bytes) × (key.seal
            (key.generate (event_aad_v2 run_id sequence))
            plaintext
            (event_aad_v2 run_id sequence)
          ≡ some ciphertext)
        × (encrypted
            ≡ c.write_record (
                sealed_event c run_id sequence
                  (key.generate (event_aad_v2 run_id sequence))
                  ciphertext))
  unfolding encrypt_event_record encrypt_text
  encrypt_event_record-parts plaintext run_id encrypted sequence h =
      elim (Option-cases (
        key.seal (key.generate (event_aad_v2 run_id sequence)) plaintext
          (event_aad_v2 run_id sequence))) [
            | inl e ↦ absurd (
                let failed : encrypt_event_record c key plaintext run_id sequence
                    ≡ err aead_failed =
                  rw e refl in
                cc (failed, h))
            | inr (ciphertext, e) ↦ (
              ciphertext,
              e,
              let wrote : encrypt_event_record c key plaintext run_id sequence
                      ≡ ok (
                          c.write_record (
                            sealed_event c run_id sequence
                              (key.generate (event_aad_v2 run_id sequence)) ciphertext)) =
                    rw e refl in
                  cc (wrote, h),
            )
          ]

  -- The check of the decrypted envelope passes for the envelope that was encrypted.
  context_passes :
      (e : EventEnvelope)
      → IsText c e
      → validate_stored_json_complexity (c.to_vec e) ≡ ok tt
      → validate_event_context c (c.to_vec e) e.run_id e.sequence ≡ ok tt
  unfolding validate_event_context
  context_passes e text simple =
      rw (simple, text.value_of, text.run_id, text.sequence, text.as_number)
        (rw (bytes_eq_refl e.run_id) (ground arith))

  module _ (cipher : IsCipher c key) where
    decrypt_text-seal :
        (plaintext aad ciphertext : Bytes)
        → key.seal (key.generate aad) plaintext aad ≡ some ciphertext
        → decrypt_text key (key.generate aad) ciphertext aad ≡ ok plaintext
    unfolding decrypt_text
    decrypt_text-seal plaintext aad ciphertext h =
        rw (cipher.nonce aad, cipher.aead (key.generate aad) plaintext aad ciphertext h) refl

    -- The line of an encrypted event is known as one, is decrypted to the text of the event, and passes
    -- the complexity check of stored events.
    pub decrypt_event-encrypt_event_record :
        (e : EventEnvelope) (encrypted : Bytes)
        → IsText c e
        → IsRecordText c e
        → validate_stored_json_complexity (c.to_vec e) ≡ ok tt
        → encrypt_event_record c key (c.to_vec e) e.run_id e.sequence ≡ ok encrypted
        → (decrypt_event c key (encrypted ++ newline ∷ []) ≡ ok (c.to_vec e))
          × (is_encrypted_event c (encrypted ++ newline ∷ []) ≡ true)
          × (validate_stored_json_complexity (encrypted ++ newline ∷ []) ≡ ok tt)
          × (contains newline encrypted ≡ false)
    unfolding decrypt_event decrypt_record sealed_event is_encrypted_event
    decrypt_event-encrypt_event_record e encrypted text records simple h =
        let aad : Bytes = event_aad_v2 e.run_id e.sequence in
        let (ciphertext, sealed, made) =
          encrypt_event_record-parts (c.to_vec e) e.run_id encrypted e.sequence h in
        let nonce : Bytes = key.generate aad in
        let flat = records.is_simple nonce ciphertext in
        let known = records.reads nonce ciphertext in
        subst
          (λ line.
            (decrypt_event c key (line ++ newline ∷ []) ≡ ok (c.to_vec e))
            × (is_encrypted_event c (line ++ newline ∷ []) ≡ true)
            × (validate_stored_json_complexity (line ++ newline ∷ []) ≡ ok tt)
            × (contains newline line ≡ false))
          (sym made)
          (
            rw
                (
                  flat,
                  known,
                  cipher.base64 nonce,
                  cipher.base64 ciphertext,
                  decrypt_text-seal (c.to_vec e) aad ciphertext sealed,
                  context_passes e text simple,
                )
                refl,
            rw (flat, known) refl,
            validate_stored-within _ flat,
            records.one_line nonce ciphertext,
          )
