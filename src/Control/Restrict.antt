-- ===== src/Control/Restrict.antt =====
-- What the effective configuration of `merge_remote_config` (src/control.rs) may say.
use inference_io.Prelude.{
  ℕ, ◌≡◌, ◌≤◌, refl, Bool, true, false, ◌&&◌, some, List, [], ◌∷◌, arith, Bool-cases, inl, inr, ◌∙◌,
  sym, subst,
}
use inference_io.Bytes.{Bytes, ascii, bytes_eq, bytes_eq_iff, bytes_eq_refl, member}
use inference_io.Json.{Value, array, bool, no_fields, entry, find_field, get}
use inference_io.Policy.Secrets.{always_secret_headers}
use inference_io.Control.Fields.{
  setting, set_setting, is_section, setting-set_setting, is_section-set_setting,
}
use inference_io.Control.Names.{extend_names, member-extend_names}
use inference_io.Control.Config.{
  LocalPolicy, number_value, name_items, content_policy, sensitive_tier_upload, retention_local,
  default_effective_config,
}

abbrev pub remote_delete : Bytes
remote_delete = ascii "remote_delete"

-- The lifetimes that need the keys of the blob classes.
abbrev pub class_ttl_names : List Bytes
class_ttl_names =
    ascii "body_ttl_hours" ∷ ascii "pcap_ttl_hours" ∷ ascii "tls_secrets_ttl_hours" ∷ []

-- What the local policy lets a setting of `retention_local` be.
pub data IsAllowed (policy : LocalPolicy) (name : Bytes) (value : Value) : Type 0 where
  deletion :
      name ≡ remote_delete
      → (value ≡ bool true → policy.allow_remote_delete ≡ true)
      → IsAllowed policy name value
  lifetime :
      (hours : ℕ)
      → value ≡ number_value hours
      → 1 ≤ hours
      → hours ≤ 8_760
      → policy.allow_remote_delete ≡ true
      → (member name class_ttl_names ≡ true → policy.class_erasure_enabled ≡ true)
      → IsAllowed policy name value

pub record IsRestrictive (policy : LocalPolicy) (effective : Value) : Type 0 where
  pub has_content : is_section content_policy effective ≡ true
  pub has_retention : is_section retention_local effective ≡ true
  pub bodies : Bool
  pub bodies_is : setting content_policy (ascii "capture_bodies") effective ≡ some (bool bodies)
  pub maximum : ℕ
  pub maximum_is :
      setting content_policy (ascii "max_body_bytes") effective ≡ some (number_value maximum)
  pub maximum_le : maximum ≤ policy.max_body_bytes
  pub names : List Bytes
  pub names_is :
      setting content_policy (ascii "redact_fields") effective ≡ some (array (name_items names))
  pub names_keep :
      (name : Bytes) → member name always_secret_headers ≡ true → member name names ≡ true
  pub no_pty : setting content_policy (ascii "pty") effective ≡ some (bool false)
  pub no_pcap : setting sensitive_tier_upload (ascii "pcap") effective ≡ some (bool false)
  pub no_tls_keys : setting sensitive_tier_upload (ascii "tls_keys") effective ≡ some (bool false)
  pub retention_allowed :
      (name : Bytes) (value : Value)
      → setting retention_local name effective ≡ some value
      → IsAllowed policy name value

default-IsAllowed :
    (policy : LocalPolicy) (name : Bytes) (value : Value)
    → find_field name (entry remote_delete (bool false) no_fields) ≡ some value
    → IsAllowed policy name value
unfolding find_field
default-IsAllowed policy name value h = elim (Bool-cases (bytes_eq remote_delete name)) [
  | inl same ↦
      deletion (sym ((bytes_eq_iff remote_delete name).0 same)) (λ is_true. ground (arith, same, h))
  | inr differ ↦ absurd (ground (arith, differ, h))
]

-- A setting that an assignment does not name.
pub setting-set_setting_other :
    (section key : Bytes) (new value : Value) (other wanted : Bytes)
    → is_section section value ≡ true
    → (bytes_eq section other && bytes_eq key wanted) ≡ false
    → setting other wanted (set_setting section key new value) ≡ setting other wanted value
setting-set_setting_other section key new value other wanted here differ =
    rw (setting-set_setting section key new value other wanted here, differ) refl

pub setting-set_setting_same :
    (section key : Bytes) (new value : Value)
    → is_section section value ≡ true
    → setting section key (set_setting section key new value) ≡ some new
setting-set_setting_same section key new value here =
    rw
      (
        setting-set_setting section key new value section key here,
        bytes_eq_refl section,
        bytes_eq_refl key,
      )
      refl

module _ (policy : LocalPolicy) (effective : Value) (r : IsRestrictive policy effective) where
  -- The fields of an assignment to `content_policy` that stay.
  content_kept :
      (key : Bytes) (new : Value) (other wanted : Bytes)
      → (bytes_eq content_policy other && bytes_eq key wanted) ≡ false
      → setting other wanted (set_setting content_policy key new effective)
        ≡ setting other wanted effective
  content_kept key new other wanted differ =
      setting-set_setting_other content_policy key new effective other wanted r.has_content differ

  content-IsRestrictive :
      (key : Bytes) (new : Value) (b : Bool) (n : ℕ) (names : List Bytes)
      → setting content_policy
          (ascii "capture_bodies")
          (set_setting content_policy key new effective)
        ≡ some (bool b)
      → setting content_policy
          (ascii "max_body_bytes")
          (set_setting content_policy key new effective)
        ≡ some (number_value n)
      → n ≤ policy.max_body_bytes
      → setting content_policy
          (ascii "redact_fields")
          (set_setting content_policy key new effective)
        ≡ some (array (name_items names))
      → ((name : Bytes) → member name always_secret_headers ≡ true → member name names ≡ true)
      → bytes_eq key (ascii "pty") ≡ false
      → IsRestrictive policy (set_setting content_policy key new effective)
  content-IsRestrictive key new b n names b_is n_is n_le names_is keep no_pty = record {
    has_content = is_section-set_setting content_policy key new effective _ r.has_content;
    has_retention = is_section-set_setting content_policy key new effective _ r.has_retention;
    bodies = b;
    bodies_is = b_is;
    maximum = n;
    maximum_is = n_is;
    maximum_le = n_le;
    names = names;
    names_is = names_is;
    names_keep = keep;
    no_pty = content_kept key new _ _ no_pty ∙ r.no_pty;
    no_pcap = content_kept key new _ _ refl ∙ r.no_pcap;
    no_tls_keys = content_kept key new _ _ refl ∙ r.no_tls_keys;
    retention_allowed =
        λ name value h. r.retention_allowed name value (sym (content_kept key new _ name refl) ∙ h);
  }

  pub capture_bodies-IsRestrictive :
      (b : Bool)
      → IsRestrictive policy
          (set_setting content_policy (ascii "capture_bodies") (bool b) effective)
  capture_bodies-IsRestrictive b =
      content-IsRestrictive (ascii "capture_bodies") (bool b) b r.maximum r.names
        (setting-set_setting_same content_policy _ (bool b) effective r.has_content)
        (content_kept _ (bool b) _ _ refl ∙ r.maximum_is) r.maximum_le
        (content_kept _ (bool b) _ _ refl ∙ r.names_is) r.names_keep refl

  pub max_body_bytes-IsRestrictive :
      (n : ℕ)
      → n ≤ policy.max_body_bytes
      → IsRestrictive policy
          (set_setting content_policy (ascii "max_body_bytes") (number_value n) effective)
  max_body_bytes-IsRestrictive n le =
      content-IsRestrictive (ascii "max_body_bytes") (number_value n) r.bodies n r.names
        (content_kept _ (number_value n) _ _ refl ∙ r.bodies_is)
        (setting-set_setting_same content_policy _ (number_value n) effective r.has_content) le
        (content_kept _ (number_value n) _ _ refl ∙ r.names_is) r.names_keep refl

  pub redact_fields-IsRestrictive :
      (names : List Bytes)
      → ((name : Bytes) → member name always_secret_headers ≡ true → member name names ≡ true)
      → IsRestrictive policy
          (set_setting content_policy (ascii "redact_fields") (array (name_items names)) effective)
  redact_fields-IsRestrictive names keep =
      content-IsRestrictive (ascii "redact_fields") (array (name_items names)) r.bodies r.maximum
        names (content_kept _ (array (name_items names)) _ _ refl ∙ r.bodies_is)
        (content_kept _ (array (name_items names)) _ _ refl ∙ r.maximum_is) r.maximum_le
        (setting-set_setting_same content_policy _ (array (name_items names)) effective
          r.has_content)
        keep refl

  -- The fields of an assignment to `retention_local` that stay.
  retention_kept :
      (key : Bytes) (new : Value) (other wanted : Bytes)
      → bytes_eq retention_local other ≡ false
      → setting other wanted (set_setting retention_local key new effective)
        ≡ setting other wanted effective
  retention_kept key new other wanted differ =
      setting-set_setting_other retention_local key new effective other wanted r.has_retention
        (ground (arith, differ))

  retention-IsAllowed_after :
      (key : Bytes) (new : Value) (name : Bytes) (value : Value)
      → IsAllowed policy key new
      → setting retention_local name (set_setting retention_local key new effective) ≡ some value
      → IsAllowed policy name value
  retention-IsAllowed_after key new name value allowed h = elim (Bool-cases (bytes_eq key name)) [
    | inl same ↦
        let found : (bytes_eq retention_local retention_local && bytes_eq key name) ≡ true = same in
        let is_name : key ≡ name = (bytes_eq_iff key name).0 same in
        let is_new : new ≡ value = ground (
          arith,
          h,
          found,
          setting-set_setting retention_local key new effective retention_local name
              r.has_retention,
        ) in
        subst (λ n. IsAllowed policy n value) is_name
          (subst (λ v. IsAllowed policy key v) is_new allowed)
    | inr differ ↦ r.retention_allowed name value (
        sym (
          setting-set_setting_other retention_local key new effective retention_local name
            r.has_retention differ)
        ∙ h)
  ]

  pub retention-IsRestrictive :
      (key : Bytes) (new : Value)
      → IsAllowed policy key new
      → IsRestrictive policy (set_setting retention_local key new effective)
  retention-IsRestrictive key new allowed = record {
    has_content = is_section-set_setting retention_local key new effective _ r.has_content;
    has_retention = is_section-set_setting retention_local key new effective _ r.has_retention;
    bodies = r.bodies;
    bodies_is = retention_kept key new _ _ refl ∙ r.bodies_is;
    maximum = r.maximum;
    maximum_is = retention_kept key new _ _ refl ∙ r.maximum_is;
    maximum_le = r.maximum_le;
    names = r.names;
    names_is = retention_kept key new _ _ refl ∙ r.names_is;
    names_keep = r.names_keep;
    no_pty = retention_kept key new _ _ refl ∙ r.no_pty;
    no_pcap = retention_kept key new _ _ refl ∙ r.no_pcap;
    no_tls_keys = retention_kept key new _ _ refl ∙ r.no_tls_keys;
    retention_allowed = λ name value h. retention-IsAllowed_after key new name value allowed h;
  }

-- The default configuration itself.
pub default-IsRestrictive :
    (policy : LocalPolicy) → IsRestrictive policy (default_effective_config policy.max_body_bytes)
unfolding default_effective_config is_section get find_field
default-IsRestrictive policy = record {
  has_content = refl;
  has_retention = refl;
  bodies = true;
  bodies_is = refl;
  maximum = policy.max_body_bytes;
  maximum_is = refl;
  maximum_le = omega arith;
  names = extend_names [] always_secret_headers;
  names_is = refl;
  names_keep = λ name h. member-extend_names name [] always_secret_headers ∙ h;
  no_pty = refl;
  no_pcap = refl;
  no_tls_keys = refl;
  retention_allowed = λ name value h. default-IsAllowed policy name value h;
}
