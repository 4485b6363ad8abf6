-- ===== src/EventLog/Codec.antt =====
-- encode_envelope and decode_event of src/storage.rs: the line that one gives, and the event that the
-- other reads from it.
use inference_io.Prelude.{
  ℕ, refl, inl, inr, Bool-cases, Result, err, ◌+◌, ◌≤◌, ◌≡◌, sym, subst, false, [], ◌∷◌, ◌++◌,
  Option, none, some, arith, length, ok, ◌>>◌, >>=-eq-ok, Result-cases,
}
use inference_io.Bytes.{Bytes, contains}
use inference_io.Bytes.Lines.{newline}
use inference_io.Input.{validate_json_complexity, validate_stored_json_complexity}
use inference_io.Input.Blank.{validate_stored-newline}
use inference_io.Model.{EventEnvelope, validate_envelope}
use inference_io.EventLog.Record.{
  encode_plaintext_envelope, encode_envelope, decode_event, max_event_record_bytes, fits_record,
  encrypt, parse, lift_cipher,
}
use inference_io.EventLog.Cipher.{
  CipherError, EncryptionKey, Codec, encrypt_event_record, is_encrypted_event, is_valid,
}
use inference_io.EventLog.Sealed.{
  stored, IsText, IsRecordText, IsCipher, IsKey, decrypt_event-encrypt_event_record,
}

-- The checks that an event passes before it is written.
abbrev pub IsWritable : Codec → EventEnvelope → Type 0
IsWritable c e =
    (validate_envelope e ≡ ok tt) × (validate_stored_json_complexity (c.to_vec e) ≡ ok tt)

-- What serde_json does with the texts of an event that passes them.
abbrev pub IsReadable : Codec → EventEnvelope → Type 0
IsReadable c e = IsWritable c e → IsText c e × IsRecordText c e

-- A line of the log that stands for an event.
pub record IsLineOf (c : Codec) (encryption : Option EncryptionKey) (e : EventEnvelope)
    (line : Bytes) : Type 0 where
  pub decoded : decode_event c encryption (line ++ newline ∷ []) ≡ ok e
  pub one_line : contains newline line ≡ false
  pub fits : length line + 1 ≤ max_event_record_bytes

encode_plaintext_parts :
    (c : Codec) (e : EventEnvelope) (plaintext : Bytes)
    → encode_plaintext_envelope c e ≡ ok plaintext
    → (validate_envelope e ≡ ok tt)
      × (validate_stored_json_complexity (c.to_vec e) ≡ ok tt)
      × (length (c.to_vec e) + 1 ≤ max_event_record_bytes)
      × (c.to_vec e ≡ plaintext)
unfolding encode_plaintext_envelope
encode_plaintext_parts c e plaintext h = ground (
  arith,
  h,
  Result-cases (validate_envelope e),
  Result-cases (validate_stored_json_complexity (c.to_vec e)),
)

-- The checks that a decoded line passes again.
decode_event-ok :
    (c : Codec) (encryption : Option EncryptionKey) (e : EventEnvelope) (encoded : Bytes)
    → validate_stored_json_complexity encoded ≡ ok tt
    → parse c encryption (is_encrypted_event c encoded) encoded ≡ ok e
    → validate_envelope e ≡ ok tt
    → decode_event c encryption encoded ≡ ok e
unfolding decode_event
decode_event-ok c encryption e encoded simple parsed valid = rw (simple, parsed, valid)

lift_cipher-ok :
    (r : Result CipherError Bytes) (text : Bytes) → lift_cipher r ≡ ok text → r ≡ ok text
lift_cipher-ok (err e) text h = cc h
lift_cipher-ok (ok x) text h = cc h

fits_record-ok :
    (sequence : ℕ) (text line : Bytes)
    → (fits_record sequence text >> ok text) ≡ ok line
    → (length text + 1 ≤ max_event_record_bytes) × (text ≡ line)
fits_record-ok sequence text line h = ground (arith, h)

-- validate_envelope does not look at the optional value.
validate_envelope-stored :
    (c : Codec) (e : EventEnvelope)
    → validate_envelope e ≡ ok tt
    → validate_envelope (stored c e) ≡ ok tt
unfolding validate_envelope stored
validate_envelope-stored c e valid = valid

known_as_plain :
    (c : Codec) (text : Bytes) → c.read_record text ≡ none → is_encrypted_event c text ≡ false
unfolding is_encrypted_event
known_as_plain c text h = rw h (elim (Bool-cases (is_valid (validate_json_complexity text))) [
  | inl e ↦ rw e refl
  | inr e ↦ rw e refl
])

module _ (c : Codec) (e : EventEnvelope) (readable : IsReadable c e) where
  plain-IsLineOf :
      (line : Bytes) → encode_envelope c none e ≡ ok line → IsLineOf c none (stored c e) line
  unfolding encode_envelope
  plain-IsLineOf line h =
      let (plaintext, encoded, rest) = >>=-eq-ok (encode_plaintext_envelope c e) _ h in
      let (valid, simple, fits, same) = encode_plaintext_parts c e plaintext encoded in
      let whole : c.to_vec e ≡ line = ground (arith, same, rest) in
      let text : IsText c e = (readable (valid, simple)).0 in
      subst (IsLineOf c none (stored c e)) whole (record {
        decoded =
            decode_event-ok c none (stored c e) (c.to_vec e ++ newline ∷ [])
              (validate_stored-newline (c.to_vec e) simple)
              (rw (known_as_plain c (c.to_vec e ++ newline ∷ []) text.is_plain, text.reads_line)
                refl)
              (validate_envelope-stored c e valid);
        one_line = text.one_line;
        fits = fits;
      })

  cipher-IsLineOf :
      (key : EncryptionKey) (line : Bytes)
      → IsCipher c key
      → encode_envelope c (some key) e ≡ ok line
      → IsLineOf c (some key) (stored c e) line
  unfolding encode_envelope
  cipher-IsLineOf key line cipher h =
      let (plaintext, encoded, rest) = >>=-eq-ok (encode_plaintext_envelope c e) _ h in
      let (valid, simple, fits, same) = encode_plaintext_parts c e plaintext encoded in
      let (text, records) = readable (valid, simple) in
      let (encrypted, made, checked) = >>=-eq-ok (encrypt c (some key) e plaintext) _ rest in
      let sealed : encrypt_event_record c key (c.to_vec e) e.run_id e.sequence ≡ ok encrypted =
        subst (λ t. encrypt_event_record c key t e.run_id e.sequence ≡ ok encrypted) (sym same)
          (lift_cipher-ok (encrypt_event_record c key plaintext e.run_id e.sequence) encrypted
            made) in
      let (decrypted, known, flat, one_line) =
        decrypt_event-encrypt_event_record c key cipher e encrypted text records simple sealed in
      let (small, whole) = fits_record-ok e.sequence encrypted line checked in
      subst (IsLineOf c (some key) (stored c e)) whole (record {
        decoded =
            decode_event-ok c (some key) (stored c e) (encrypted ++ newline ∷ []) flat
              (rw (known, decrypted, simple, text.reads) refl) (validate_envelope-stored c e valid);
        one_line = one_line;
        fits = small;
      })

  -- When encode_envelope succeeds, what it gives has no line feed, fits into a record with one, and is
  -- decoded, with a line feed behind it, to the event that was encoded, its optional value as serde_json
  -- reads it back. With a key, this goes through the encrypted record of src/crypto.rs and its checks.
  -- It is given that serde_json, if the event passes the checks, writes it on one line and reads it
  -- again, as an event, and as a value with its run ID and sequence number, but not as an encrypted
  -- record; and that it writes the encrypted records of the event as lines of JSON within the limits
  -- and reads them again. With a key it is also given that the AEAD decrypts what it encrypts, that its
  -- nonces have 24 bytes, and that base64 decodes what it encodes.
  pub encode-IsLineOf :
      (encryption : Option EncryptionKey) (line : Bytes)
      → IsKey c encryption
      → encode_envelope c encryption e ≡ ok line
      → IsLineOf c encryption (stored c e) line
  encode-IsLineOf none line key h = plain-IsLineOf line h
  encode-IsLineOf (some key) line cipher h = cipher-IsLineOf key line cipher h
