-- ===== src/Control/Config.antt =====
-- The data of `merge_remote_config` in src/control.rs: the local policy, the default configuration,
-- and the pair that the merge fills.
use inference_io.Prelude.{ℕ, ◌*◌, Bool, true, false, List, [], ◌∷◌, ◌++◌, if◌then◌else◌}
use inference_io.Bytes.{Bytes, ascii, member}
use inference_io.Bytes.Decimal.{show_u64}
use inference_io.Json.{
  Value, object, array, string, number, bool, Fields, no_fields, entry, Items, no_items, item,
}
use inference_io.Input.{InputError}
use inference_io.Policy.Secrets.{always_secret_headers}
use inference_io.Control.Fields.{insert_field, set_setting}
use inference_io.Control.Names.{extend_names}

abbrev pub max_config_bytes : ℕ
max_config_bytes = 256 * 1024

abbrev pub max_config_sections : ℕ
max_config_sections = 32

abbrev pub max_redact_fields : ℕ
max_redact_fields = 1_024

abbrev pub default_batch_bytes : ℕ
default_batch_bytes = 4 * 1024 * 1024

abbrev pub default_batch_age_ms : ℕ
default_batch_age_ms = 5_000

pub record LocalPolicy : Type 0 where
  pub allow_remote_delete : Bool
  pub class_erasure_enabled : Bool
  pub max_body_bytes : ℕ

pub data ControlError : Type 0 where
  config_too_large : ControlError
  config_too_complex : InputError → ControlError
  config_not_object : ControlError
  too_many_sections : ControlError
  redact_not_array : ControlError
  too_many_redact_fields : ControlError
  redact_not_string : ControlError
  invalid_header_name : ControlError
  panicked : ControlError

-- `json!` of a number and of a set of texts.
abbrev pub number_value : ℕ → Value
number_value n = number (show_u64 n)

unfoldable pub name_items : List Bytes → Items
name_items [] = no_items
name_items (first ∷ rest) = item (string first) (name_items rest)

abbrev pub content_policy : Bytes
content_policy = ascii "content_policy"

abbrev pub upload : Bytes
upload = ascii "upload"

abbrev pub sensitive_tier_upload : Bytes
sensitive_tier_upload = ascii "sensitive_tier_upload"

abbrev pub retention_local : Bytes
retention_local = ascii "retention_local"

-- The keys of an object that `json!` builds, in their order in its map.
unfoldable pub default_effective_config : ℕ → Value
unfolding name_items
default_effective_config max_body_bytes = object (
    entry content_policy
      (object (
        entry (ascii "capture_bodies") (bool true) (
          entry (ascii "max_body_bytes") (number_value max_body_bytes) (
            entry (ascii "pty") (bool false) (
              entry (ascii "redact_fields")
                (array (name_items (extend_names [] always_secret_headers))) no_fields)))))
      (entry retention_local (object (entry (ascii "remote_delete") (bool false) no_fields)) (
        entry sensitive_tier_upload
          (object
            (entry (ascii "pcap") (bool false) (entry (ascii "tls_keys") (bool false) no_fields)))
          (entry upload
            (object (
              entry (ascii "batch_max_age_ms") (number_value default_batch_age_ms)
                (entry (ascii "batch_max_bytes") (number_value default_batch_bytes) no_fields)))
            no_fields))))

-- The effective configuration and the settings that are not taken over, with the reasons.
pub record Merge : Type 0 where
  pub effective : Value
  pub rejected : Fields

unfoldable pub assign : Bytes → Bytes → Value → Merge → Merge
assign section key new m = record m { effective = set_setting section key new m.effective }

unfoldable pub reject : Bytes → Value → Merge → Merge
reject name why m = record m { rejected = insert_field name why m.rejected }

abbrev pub reason : Bytes → Value
reason text = object (entry (ascii "reason") (string text) no_fields)

abbrev pub reason_with : Bytes → Value → Value
reason_with text value =
    object (entry (ascii "effective") value (entry (ascii "reason") (string text) no_fields))

-- `for name in fields.keys()`: the names that are not known are rejected.
unfoldable pub reject_unknown : List Bytes → Bytes → Bytes → Fields → Merge → Merge
reject_unknown known prefix text no_fields m = m
reject_unknown known prefix text (entry name _ rest) m =
    reject_unknown known prefix text rest
      (if member name known then m else reject (prefix ++ name) (reason text) m)
