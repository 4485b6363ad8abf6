-- ===== src/Control/Tests.antt =====
-- Runs of the models of src/control.rs, and the theorems at concrete inputs.
use inference_io.Prelude.{
  ◌≡◌, refl, Bool, true, false, not, List, [], ◌∷◌, some, ok, arith, ◌≤◌, saturating_add,
}
use inference_io.Bytes.{Bytes, ascii, member, contains}
use inference_io.Json.{
  Value, object, array, string, number, bool, null, Fields, no_fields, entry, item, no_items,
}
use inference_io.Policy.Capture.{CapturePolicy, default, validate}
use inference_io.Input
use inference_io.Metadata.{has_control}
use inference_io.Json
use inference_io.Bytes.Decimal
use inference_io.Control.Fields
use inference_io.Control.Names
use inference_io.Control.Names.{extend_names}
use inference_io.Control.Config
use inference_io.Control.Merge
use inference_io.Control.Remote
use inference_io.Control.Apply
use inference_io.Policy.Secrets.{always_secret_headers}
use inference_io.Control.Config.{
  LocalPolicy, Merge, number_value, name_items, content_policy, upload, sensitive_tier_upload,
  retention_local, reason, reason_with, default_effective_config,
}
use inference_io.Control.Remote.{merge_remote_config}
use inference_io.Control.Apply.{apply_new_run_config}
use inference_io.Control.Merged.{RestrictiveResult}
use inference_io.Control.Within.{merge_remote_config-IsRestrictive}
use inference_io.Control.Merge.{merge_content_policy}
use inference_io.Json.{find_field}
use inference_io.Control.Tighten.{IsTighter, apply_new_run_config-IsTighter}
use inference_io.Control.Overlay.{apply_new_run_config-merge_remote_config}

-- A header name has no space.
abbrev token : Bytes → Bool
token name = not (contains b' ' name)

abbrev encoded : Value → Bytes
encoded _ = ascii "{}"

abbrev local : LocalPolicy
local = record { allow_remote_delete = true; class_erasure_enabled = false; max_body_bytes = 1000 }

-- The names of the default policy and one that the platform adds, in their order.
abbrev names : List Bytes
names = extend_names (extend_names [] always_secret_headers) (ascii "x-trace" ∷ [])

abbrev headers : List Bytes
headers = extend_names always_secret_headers names

abbrev content : Fields
content =
    entry (ascii "max_body_bytes") (number (ascii "5000"))
      (entry (ascii "redact_fields") (array (item (string (ascii "X-Trace")) no_items)) no_fields)

-- A platform that asks for more than the local policy allows.
abbrev config : Value
config = object (
    entry content_policy
      (object (
        entry (ascii "max_body_bytes") (number (ascii "5000")) (
          entry (ascii "redact_fields") (array (item (string (ascii "X-Trace")) no_items))
            no_fields)))
      (entry retention_local
        (object (
          entry (ascii "acked_events_ttl_hours") (number (ascii "24"))
            (entry (ascii "body_ttl_hours") (number (ascii "24")) no_fields)))
        no_fields))

engine : Unit {0}
unfolding merge_remote_config Input.validate_json_complexity
    Input.validate_json_complexity_with_limits Input.run Input.step saturating_add Fields.as_object
    Remote.merge_sections Remote.content_section Json.find_field Merge.merge_content_policy
    Fields.is_section Json.get default_effective_config Remote.upload_section
    Remote.sensitive_section Remote.retention_section Decimal.parse_u64 Decimal.show_u64
    Config.assign name_items Config.reject Config.reject_unknown Fields.as_array Fields.as_bool
    Fields.as_u64 Fields.insert_field Fields.is_assignable Fields.set_setting
    Merge.merge_capture_bodies Merge.merge_content_fields Merge.merge_max_body_bytes Merge.merge_pty
    Merge.merge_redact_fields Merge.parse_redact_fields Merge.positive Merge.redact_name
    Merge.redact_names Merge.validate_header_name extend_names Names.insert_name Remote.assign_ttl
    Remote.egress_section Remote.is_fixed_upload Remote.merge_object Remote.merge_retention_policy
    Remote.merge_ttl Remote.merge_ttls Remote.reject_egress Remote.reject_sensitive
    Remote.reject_unsupported_upload Remote.reject_upload_fields Remote.ttl_hours
    Remote.ttl_rejection Remote.unknown_sections Input.plain_byte Input.string_byte Json.as_str
    apply_new_run_config Apply.apply_content Apply.add_fields validate has_control
engine = tt

-- The local maximum holds, the lifetime of events is taken over and that of bodies is not.
abbrev merged : Merge
merged = record {
  effective = object (
      entry content_policy
        (object (
          entry (ascii "capture_bodies") (bool true) (
            entry (ascii "max_body_bytes") (number (ascii "1000")) (
              entry (ascii "pty") (bool false)
                (entry (ascii "redact_fields") (array (name_items names)) no_fields)))))
        (entry retention_local
          (object (
            entry (ascii "acked_events_ttl_hours") (number (ascii "24"))
              (entry (ascii "remote_delete") (bool true) no_fields)))
          (entry sensitive_tier_upload
            (object
              (entry (ascii "pcap") (bool false) (entry (ascii "tls_keys") (bool false) no_fields)))
            (entry upload
              (object (
                entry (ascii "batch_max_age_ms") (number (ascii "5000"))
                  (entry (ascii "batch_max_bytes") (number (ascii "4194304")) no_fields)))
              no_fields))));
  rejected =
      entry (ascii "content_policy.max_body_bytes")
        (reason_with (ascii "local maximum takes precedence") (number (ascii "1000")))
        (entry (ascii "retention_local.body_ttl_hours")
          (reason (ascii "class TTL requires a local encryption key")) no_fields);
}

merge_remote_config_runs : merge_remote_config token encoded config local ≡ ok merged
unfolding engine
merge_remote_config_runs = refl

-- The content policy alone, over the default configuration.
abbrev start : Merge
start = record { effective = default_effective_config 1000; rejected = no_fields }

abbrev content_merged : Merge
content_merged = record {
  effective = object (
      entry content_policy
        (object (
          entry (ascii "capture_bodies") (bool true) (
            entry (ascii "max_body_bytes") (number (ascii "1000")) (
              entry (ascii "pty") (bool false)
                (entry (ascii "redact_fields") (array (name_items names)) no_fields)))))
        (entry retention_local (object (entry (ascii "remote_delete") (bool false) no_fields)) (
          entry sensitive_tier_upload
            (object
              (entry (ascii "pcap") (bool false) (entry (ascii "tls_keys") (bool false) no_fields)))
            (entry upload
              (object (
                entry (ascii "batch_max_age_ms") (number (ascii "5000"))
                  (entry (ascii "batch_max_bytes") (number (ascii "4194304")) no_fields)))
              no_fields))));
  rejected =
      entry (ascii "content_policy.max_body_bytes")
        (reason_with (ascii "local maximum takes precedence") (number (ascii "1000"))) no_fields;
}

merge_remote_config-IsRestrictive_example :
    RestrictiveResult local (merge_remote_config token encoded config local)
merge_remote_config-IsRestrictive_example =
    merge_remote_config-IsRestrictive token encoded config local

abbrev applied : CapturePolicy
applied = record default { max_blob_bytes = 1000; redact_headers = headers }

apply_new_run_config_runs :
    apply_new_run_config token (some merged.effective) default ≡ ok (applied, true)
unfolding engine
apply_new_run_config_runs = refl

apply_new_run_config-IsTighter_example :
    IsTighter default applied
    × (◌≡◌ {A = Bool} true true → validate token applied ≡ ok tt)
    × (◌≡◌ {A = Bool} true false → applied ≡ default)
apply_new_run_config-IsTighter_example =
    apply_new_run_config-IsTighter token (some merged.effective) default applied true
      apply_new_run_config_runs

apply_new_run_config-merge_remote_config_example :
    (applied.max_blob_bytes ≤ local.max_body_bytes)
    × ((name : Bytes)
        → member name always_secret_headers ≡ true
        → member name applied.redact_headers ≡ true)
apply_new_run_config-merge_remote_config_example =
    apply_new_run_config-merge_remote_config token encoded config local merged default applied true
      (omega arith) merge_remote_config_runs apply_new_run_config_runs
