-- ===== src/ProbePolicy/Rule.antt =====
-- The rules of a probe policy, their checks, and when a rule matches: validate_policy, rule_matches and
-- matched_tls_surface of src/probe_policy.rs.
use inference_io.Prelude.{
  ℕ, Bool, true, false, not, ◌&&◌, ◌||◌, List, [], ◌∷◌, Option, none, some, leb, ◌==◌,
  if◌then◌else◌, length, drop, Result, ok, ◌>>◌, ensure,
}
use inference_io.Bytes.{Bytes, ascii, bytes_eq, starts_with, member, any, all}

abbrev pub probe_policy_version : ℕ
probe_policy_version = 1

abbrev pub max_rules : ℕ
max_rules = 128

abbrev pub max_rule_list_items : ℕ
max_rule_list_items = 128

abbrev pub max_label_bytes : ℕ
max_label_bytes = 128

pub record ProbeRule : Type 0 where
  pub id : Bytes
  pub priority : ℕ
  pub helper_kind : Bytes
  pub helper_path : Bytes
  pub helper_sha256 : Bytes
  pub os : Bytes
  pub architecture : Bytes
  pub runtime : Option Bytes
  pub any_tls_surfaces : List Bytes
  pub target_executable_sha256 : Option Bytes
  pub require_ebpf : Bool
  pub require_task_cgroup : Bool

pub record ProbePolicy : Type 0 where
  pub schema_version : ℕ
  pub rules : List ProbeRule

-- What the rules read of the command that is to run, and of the host.
pub record CommandMetadata : Type 0 where
  pub runtime : Option Bytes
  pub executable_tls_surfaces : List Bytes
  pub executable_sha256 : Option Bytes

pub record DoctorReport : Type 0 where
  pub os : Bytes
  pub architecture : Bytes
  pub ebpf_status : Option Bytes

-- Why a policy, a rule's digest or a piece of evidence is refused.
pub data Invalid : Type 0 where
  unsupported_schema : Invalid
  rule_count : Invalid
  duplicate_id : Invalid
  invalid_label : Invalid
  unsupported_kind : Invalid
  surface_list : Invalid
  invalid_digest : Invalid
  invalid_path : Invalid
  unbound_rule : Invalid
  invalid_mode : Invalid
  missing_rule_id : Invalid
  missing_fingerprint : Invalid
  unexpected_rule_id : Invalid

abbrev is_label_byte : ℕ → Bool
is_label_byte c =
    (leb b'0' c && leb c b'9')
    || (leb b'A' c && leb c b'Z')
    || (leb b'a' c && leb c b'z')
    || (c == b'_' || c == b'-' || c == b'.' || c == b'/' || c == b':')

unfoldable pub validate_label : Bytes → Result Invalid (Unit {0})
validate_label value =
    ensure (leb 1 (length value) && leb (length value) max_label_bytes && all is_label_byte value)
      invalid_label

abbrev is_lower_hex : ℕ → Bool
is_lower_hex c = (leb b'0' c && leb c b'9') || (leb b'a' c && leb c b'f')

abbrev pub is_digest : Bytes → Bool
is_digest value = (length value == 64) && all is_lower_hex value

-- `validate_sha256(value, prefixed)`.
unfoldable pub validate_sha256 : Bytes → Bool → Result Invalid (Unit {0})
validate_sha256 value false = ensure (is_digest value) invalid_digest
validate_sha256 value true =
    ensure (starts_with (ascii "sha256:") value && is_digest (drop 7 value)) invalid_digest

abbrev pub helper_kinds : List Bytes
helper_kinds = ascii "ecapture" ∷ ascii "agentsight" ∷ ascii "external" ∷ []

abbrev pub is_valid_path : Bytes → Bool
is_valid_path path = starts_with (ascii "/") path && leb (length path) 4_096

abbrev pub is_some : Option Bytes → Bool
is_some none = false
is_some (some _) = true

abbrev pub is_empty : List Bytes → Bool
is_empty [] = true
is_empty (_ ∷ _) = false

abbrev pub optional : (Bytes → Result Invalid (Unit {0})) → Option Bytes → Result Invalid (Unit {0})
optional check none = ok tt
optional check (some value) = check value

unfoldable pub validate_labels : List Bytes → Result Invalid (Unit {0})
validate_labels [] = ok tt
validate_labels (value ∷ rest) = validate_label value >> validate_labels rest

-- One round of the loop of `validate_policy`, after the rules with the given IDs.
unfoldable pub validate_rule : List Bytes → ProbeRule → Result Invalid (Unit {0})
validate_rule ids rule =
    validate_label rule.id
    >> ensure (not (member rule.id ids)) duplicate_id
    >> validate_label rule.helper_kind
    >> ensure (member rule.helper_kind helper_kinds) unsupported_kind
    >> validate_label rule.os
    >> validate_label rule.architecture
    >> optional validate_label rule.runtime
    >> ensure (leb (length rule.any_tls_surfaces) max_rule_list_items) surface_list
    >> validate_labels rule.any_tls_surfaces
    >> optional (λ digest. validate_sha256 digest true) rule.target_executable_sha256
    >> validate_sha256 rule.helper_sha256 false
    >> ensure (is_valid_path rule.helper_path) invalid_path
    >> ensure (not (is_empty rule.any_tls_surfaces) || is_some rule.target_executable_sha256)
        unbound_rule

unfoldable pub validate_rules : List Bytes → List ProbeRule → Result Invalid (Unit {0})
validate_rules ids [] = ok tt
validate_rules ids (rule ∷ rules) = validate_rule ids rule >> validate_rules (rule.id ∷ ids) rules

unfoldable pub validate_policy : ProbePolicy → Result Invalid (Unit {0})
validate_policy policy =
    ensure (policy.schema_version == probe_policy_version) unsupported_schema
    >> ensure (leb 1 (length policy.rules) && leb (length policy.rules) max_rules) rule_count
    >> validate_rules [] policy.rules

-- Why a rule does not match.
pub data Mismatch : Type 0 where
  other_os : Mismatch
  other_architecture : Mismatch
  other_runtime : Mismatch
  no_fingerprint : Mismatch
  other_target : Mismatch
  cgroup_required : Mismatch
  ebpf_unavailable : Mismatch

abbrev pub option_eq : Option Bytes → Option Bytes → Bool
option_eq none none = true
option_eq (some x) (some y) = bytes_eq x y
option_eq _ _ = false

abbrev pub is_usable : Option Bytes → Bool
is_usable none = false
is_usable (some status) = member status (ascii "available" ∷ ascii "experimental" ∷ [])

unfoldable pub rule_matches :
    ProbeRule → CommandMetadata → DoctorReport → Bool → Result Mismatch (Unit {0})
rule_matches rule command doctor task_cgroup_selected =
    ensure (bytes_eq rule.os doctor.os) other_os
    >> ensure (bytes_eq rule.architecture doctor.architecture) other_architecture
    >> ensure (not (is_some rule.runtime) || option_eq command.runtime rule.runtime) other_runtime
    >> ensure
        (is_empty rule.any_tls_surfaces
          || any (λ required. member required command.executable_tls_surfaces)
              rule.any_tls_surfaces)
        no_fingerprint
    >> ensure
        (not (is_some rule.target_executable_sha256)
          || option_eq rule.target_executable_sha256 command.executable_sha256)
        other_target
    >> ensure (not rule.require_task_cgroup || task_cgroup_selected) cgroup_required
    >> ensure (not rule.require_ebpf || is_usable doctor.ebpf_status) ebpf_unavailable

unfoldable pub first_observed : List Bytes → List Bytes → Option Bytes
first_observed [] observed = none
first_observed (required ∷ rest) observed =
    if member required observed then some required else first_observed rest observed

abbrev pub matched_tls_surface : ProbeRule → CommandMetadata → Option Bytes
matched_tls_surface rule command =
    first_observed rule.any_tls_surfaces command.executable_tls_surfaces
