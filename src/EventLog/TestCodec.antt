-- ===== src/EventLog/TestCodec.antt =====
-- Stand-ins, for the tests, for what the event log calls of other packages: they write the sequence
-- number of an event as its text, and of an encrypted record what differs from one record to another,
-- in bytes above 127.
use mathlib.Core.List.{append_assoc, append-nil}
use inference_io.Prelude.{
  ℕ, ◌+◌, ◌-◌, ◌≤◌, ◌<◌, ◌≡◌, refl, sym, ap, ◌∙◌, subst, false, [], ◌∷◌, ◌++◌, Option, none, some,
  ok, arith, length, map, replicate, ◌==◌, if◌then◌else◌,
}
use inference_io.Bytes.{Bytes, ascii, contains}
use inference_io.Bytes.Lines.{newline}
use inference_io.Bytes.Decimal.{parse_u64}
use inference_io.Json.{Value, object, number, string, null, no_fields, get, find_field}
use inference_io.Json as Json
use inference_io.Control.Fields.{as_u64}
use inference_io.Input.{
  Scanner, start, run, step, plain_byte, validate_json_complexity,
  validate_json_complexity_with_limits, max_json_nesting_depth, max_json_structural_tokens,
}
use inference_io.Model.{PendingEvent, EventEnvelope, Uuid, from_pending}
use inference_io.EventLog.Cipher.{EncryptedEvent, Codec, EncryptionKey, sealed_event}
use inference_io.EventLog.Sealed.{stored, IsText, IsRecordText, IsCipher}

-- An event whose optional value is `null`.
abbrev pub event : PendingEvent
event = record {
  run_id = ascii "run-1";
  source = ascii "proxy";
  kind = ascii "request";
  ids = record {
    task_id = none;
    session_id = none;
    turn_id = none;
    inference_id = none;
    attempt_id = none;
    connection_id = none;
    parent_id = none;
    pid = some 7;
    container_id = none;
  };
  observed_at = 5;
  monotonic_ns = 6;
  raw = none;
  normalized = some null;
  redaction = record { policy = ascii "default"; fields = []; omitted = [] };
  confidence = none;
  evidence = [];
  terminal_state = none;
}

abbrev pub uuid : Uuid
uuid = record { number = 1; version = 7 }

abbrev pub entry : ℕ → EventEnvelope
entry n = from_pending n uuid event

-- The event as it is read back.
abbrev pub entry_read : ℕ → EventEnvelope
entry_read n = from_pending n uuid (record event { normalized = none })

abbrev digit : EventEnvelope → ℕ
digit e = if e.sequence == 1 then b'1' else b'2'

abbrev first_byte : Bytes → ℕ
first_byte [] = 0
first_byte (b ∷ text) = b

abbrev read_event : ℕ → Option EventEnvelope
read_event b =
    if b == b'1' then some (entry_read 1) else if b == b'2' then some (entry_read 2) else none

abbrev json : ℕ → Value
json b = object (
    Json.entry (ascii "run_id") (string (ascii "run-1"))
      (Json.entry (ascii "sequence") (number (b ∷ [])) no_fields))

abbrev raised : Bytes → Bytes
raised text = map (λ b. b + 128) text

-- The bytes before the given one, and those behind it.
abbrev split : ℕ → Bytes → Bytes × Bytes
split d [] = ([], [])
split d (b ∷ text) =
    let (before, after) = split d text in if b == d then ([], text) else (b ∷ before, after)

abbrev sequence_of : Option ℕ → ℕ
sequence_of none = 0
sequence_of (some n) = n

abbrev read_parts : ℕ → Bytes × Bytes → EncryptedEvent
read_parts n (nonce, rest) = record {
  version = 2;
  run_id = some (ascii "run-1");
  sequence = some (n - 128);
  nonce = nonce;
  ciphertext = (split newline rest).0;
}

abbrev read_sealed : Bytes → Option EncryptedEvent
read_sealed [] = none
read_sealed (b ∷ []) = none
read_sealed (b ∷ n ∷ rest) = if b == b'#' then some (read_parts n (split b'#' rest)) else none

abbrev pub codec : Codec
codec = record {
  to_vec = λ e. digit e ∷ [];
  from_slice = λ text. read_event (first_byte text);
  write_record = λ r. b'#' ∷ (sequence_of r.sequence + 128) ∷ (r.nonce ++ (b'#' ∷ r.ciphertext));
  read_record = read_sealed;
  value_of = λ text. some (json (first_byte text));
  read_value = λ value. value;
  encode64 = raised;
  decode64 = λ text. some (map (λ b. b - 128) text);
}

-- The ciphertext is the text behind the length of the additional data, which is compared.
abbrev open_tagged : Bytes → Bytes → Option Bytes
open_tagged [] aad = none
open_tagged (tag ∷ text) aad = if tag == length aad then some text else none

abbrev pub key : EncryptionKey
key = record {
  generate = λ aad. replicate 24 7;
  seal = λ nonce plaintext aad. some (length aad ∷ plaintext);
  unseal = λ nonce ciphertext aad. open_tagged ciphertext aad;
}

contains-raised :
    (text rest : Bytes) → contains newline (raised text ++ rest) ≡ contains newline rest
unfolding contains
contains-raised [] rest = refl
contains-raised (b ∷ text) rest = ground (arith, contains-raised text rest)

split-raised :
    (d : ℕ) (text rest : Bytes)
    → d < 128
    → split d (raised text ++ (d ∷ rest)) ≡ (raised text, rest)
split-raised d [] rest small = ground arith
split-raised d (b ∷ text) rest small = rw (split-raised d text rest small) (ground (arith, small))

step-raised :
    (b : ℕ) (s : Scanner)
    → s.in_string ≡ false
    → s.tokens ≤ max_json_structural_tokens
    → step max_json_nesting_depth max_json_structural_tokens (b + 128) s ≡ ok s
unfolding step plain_byte
step-raised b s outside fits = ground (arith, outside, fits)

run-raised :
    (text rest : Bytes) (s : Scanner)
    → s.in_string ≡ false
    → s.tokens ≤ max_json_structural_tokens
    → run max_json_nesting_depth max_json_structural_tokens (raised text ++ rest) s
      ≡ run max_json_nesting_depth max_json_structural_tokens rest s
unfolding run
run-raised [] rest s outside fits = refl
run-raised (b ∷ text) rest s outside fits =
    rw (step-raised b s outside fits) (run-raised text rest s outside fits)

raised_back : (text : Bytes) → map (λ b. b - 128) (raised text) ≡ text
raised_back [] = refl
raised_back (b ∷ text) = ground (arith, raised_back text)

pub key-IsCipher : IsCipher codec key
key-IsCipher = record {
  base64 = λ bytes. ap some (raised_back bytes);
  nonce = λ aad. refl;
  aead = λ nonce plaintext aad ciphertext h.
      let same : length aad ∷ plaintext ≡ ciphertext = cc h in
      let opened : open_tagged (length aad ∷ plaintext) aad ≡ some plaintext = ground arith in
      subst (λ text. open_tagged text aad ≡ some plaintext) same opened;
}

-- Bytes above 127 and `#` are plain to the complexity check.
run_hash :
    (rest : Bytes)
    → run max_json_nesting_depth max_json_structural_tokens (b'#' ∷ rest) start
      ≡ run max_json_nesting_depth max_json_structural_tokens rest start
unfolding run step plain_byte
run_hash rest = refl

run-sealed :
    (first second : Bytes)
    → run max_json_nesting_depth max_json_structural_tokens
        (b'#' ∷ (raised first ++ (b'#' ∷ (raised second ++ newline ∷ []))))
        start
      ≡ ok start
unfolding run step plain_byte
run-sealed first second =
    run_hash (raised first ++ (b'#' ∷ (raised second ++ newline ∷ [])))
    ∙ run-raised first (b'#' ∷ (raised second ++ newline ∷ [])) start refl (omega arith)
    ∙ run_hash (raised second ++ newline ∷ [])
    ∙ run-raised second (newline ∷ []) start refl (omega arith)
    ∙ refl

flat_line : (text : Bytes) → contains newline (raised text) ≡ false
unfolding contains
flat_line text =
    ap (contains newline) (sym (append-nil (raised text))) ∙ contains-raised text [] ∙ refl

read_parts-sealed :
    (n : ℕ) (nonce ciphertext : Bytes)
    → read_parts
        (n + 128)
        (split b'#' (raised nonce ++ (b'#' ∷ (raised ciphertext ++ newline ∷ []))))
      ≡ sealed_event codec (ascii "run-1") n nonce ciphertext
unfolding sealed_event
read_parts-sealed n nonce ciphertext =
    rw
      (
        split-raised b'#' nonce (raised ciphertext ++ newline ∷ []) (omega arith),
        split-raised newline ciphertext [] (omega arith),
      )
      (ground arith)

pub entry-IsRecordText : (n : ℕ) → IsRecordText codec (entry n)
unfolding sealed_event contains validate_json_complexity validate_json_complexity_with_limits run
entry-IsRecordText n = record {
  one_line = λ nonce ciphertext.
      contains-raised (n ∷ nonce) (b'#' ∷ raised ciphertext) ∙ flat_line ciphertext;
  is_simple = λ nonce ciphertext.
      rw
        (
          append_assoc (raised nonce) (b'#' ∷ raised ciphertext) (newline ∷ []),
          run-sealed (n ∷ nonce) ciphertext,
        )
        refl;
  reads = λ nonce ciphertext.
      rw (append_assoc (raised nonce) (b'#' ∷ raised ciphertext) (newline ∷ []))
        (ap some (read_parts-sealed n nonce ciphertext));
}

pub entry_1-IsText : IsText codec (entry 1)
unfolding stored contains get find_field as_u64 parse_u64
entry_1-IsText = record {
  one_line = refl;
  reads = refl;
  reads_line = refl;
  is_plain = refl;
  value = json b'1';
  value_of = refl;
  run_id = refl;
  number = number (b'1' ∷ []);
  sequence = refl;
  as_number = refl;
}

pub entry_2-IsText : IsText codec (entry 2)
unfolding stored contains get find_field as_u64 parse_u64
entry_2-IsText = record {
  one_line = refl;
  reads = refl;
  reads_line = refl;
  is_plain = refl;
  value = json b'2';
  value_of = refl;
  run_id = refl;
  number = number (b'2' ∷ []);
  sequence = refl;
  as_number = refl;
}
