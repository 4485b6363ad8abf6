-- ===== src/ProbePolicy/Select.antt =====
-- select_probe_helper, ProbeHelperEvidence::validate and revalidate_for of src/probe_policy.rs. The
-- file checks of probe_helper::validate_helper and the digest of a helper file are parameters.
use inference_io.Prelude.{
  ℕ, Bool, true, false, not, ◌&&◌, ◌||◌, List, [], ◌∷◌, ◌++◌, Option, none, some, ltb, ◌==◌,
  if◌then◌else◌, length, Result, err, ok, ◌>>=◌, ◌>>◌, ensure,
}
use inference_io.Bytes.{Bytes, ascii, bytes_eq, member}
use inference_io.Bytes.Map.{bytes_lt}
use inference_io.ProbePolicy.Rule.{
  ProbeRule, ProbePolicy, CommandMetadata, DoctorReport, Invalid, invalid_mode, invalid_path,
  missing_rule_id, missing_fingerprint, unexpected_rule_id, unsupported_kind, Mismatch,
  validate_label, validate_sha256, validate_policy, helper_kinds, is_valid_path, is_some, optional,
  option_eq, rule_matches, matched_tls_surface,
}

abbrev pub max_failure_reasons : ℕ
max_failure_reasons = 8

pub record ProbeHelperEvidence : Type 0 where
  pub mode : Bytes
  pub rule_id : Option Bytes
  pub helper_kind : Bytes
  pub helper_path : Bytes
  pub helper_sha256 : Bytes
  pub target_executable_sha256 : Option Bytes
  pub matched_tls_surface : Option Bytes

pub record ProbeHelperSelection : Type 0 where
  pub helper_path : Bytes
  pub evidence : ProbeHelperEvidence
  pub rule : Option ProbeRule

abbrev validate_origin : ProbeHelperEvidence → Result Invalid (Unit {0})
validate_origin e =
    if bytes_eq e.mode (ascii "policy")
    then (elim e.rule_id [ none ↦ err missing_rule_id | some id ↦ validate_label id ])
      >> ensure (is_some e.target_executable_sha256 || is_some e.matched_tls_surface)
          missing_fingerprint
    else ensure (not (is_some e.rule_id)) unexpected_rule_id

-- `ProbeHelperEvidence::validate`.
unfoldable pub validate_evidence : ProbeHelperEvidence → Result Invalid (Unit {0})
validate_evidence e =
    ensure (member e.mode (ascii "explicit" ∷ ascii "policy" ∷ [])) invalid_mode
    >> validate_label e.helper_kind
    >> ensure (member e.helper_kind helper_kinds) unsupported_kind
    >> validate_origin e
    >> validate_sha256 e.helper_sha256 false
    >> optional (λ digest. validate_sha256 digest true) e.target_executable_sha256
    >> optional validate_label e.matched_tls_surface
    >> ensure (is_valid_path e.helper_path) invalid_path

-- The rules that match so far, and why some of the others do not.
abbrev pub Sorting : Type 0
Sorting = List ProbeRule × List (Bytes × Mismatch)

unfoldable pub judge : Result Mismatch (Unit {0}) → ProbeRule → Sorting → Sorting
judge (ok _) rule (matches, failures) = (matches ++ rule ∷ [], failures)
judge (err reason) rule (matches, failures) = (
  matches,
  if ltb (length failures) max_failure_reasons
      then failures ++ (rule.id, reason) ∷ []
      else failures,
)

-- The loop over the rules.
unfoldable pub sort_out : CommandMetadata → DoctorReport → Bool → List ProbeRule → Sorting → Sorting
sort_out command doctor cgroup [] state = state
sort_out command doctor cgroup (rule ∷ rules) state =
    sort_out command doctor cgroup rules
      (judge (rule_matches rule command doctor cgroup) rule state)

-- The order of `sort_by_key(|rule| (rule.priority, rule.id))`.
abbrev pub comes_before : ProbeRule → ProbeRule → Bool
comes_before r s =
    ltb r.priority s.priority || (r.priority == s.priority && not (bytes_lt s.id r.id))

unfoldable pub place : ProbeRule → List ProbeRule → List ProbeRule
place r [] = r ∷ []
place r (s ∷ rules) =
    let after = place r rules in if comes_before r s then r ∷ s ∷ rules else s ∷ after

unfoldable pub sort : List ProbeRule → List ProbeRule
sort [] = []
sort (r ∷ rules) = place r (sort rules)

pub data SelectError : Type 0 where
  invalid : Invalid → SelectError
  no_match : List (Bytes × Mismatch) → SelectError
  ambiguous : ProbeRule → ProbeRule → SelectError
  refused_helper : SelectError
  digest_mismatch : SelectError

-- The first of the sorted matches, unless the second has its priority.
unfoldable pub first_of : List (Bytes × Mismatch) → List ProbeRule → Result SelectError ProbeRule
first_of failures [] = err (no_match failures)
first_of failures (r ∷ []) = ok r
first_of failures (r ∷ s ∷ rules) = if s.priority == r.priority then err (ambiguous r s) else ok r

unfoldable pub choose :
    CommandMetadata → DoctorReport → Bool → List ProbeRule → Result SelectError ProbeRule
choose command doctor cgroup rules =
    let (matches, failures) = sort_out command doctor cgroup rules ([], []) in
    first_of failures (sort matches)

abbrev pub lift : Result Invalid (Unit {0}) → Result SelectError (Unit {0})
lift (ok _) = ok tt
lift (err e) = err (invalid e)

-- A digest is recorded of the command only when the rule asks for one.
abbrev pub target_digest : ProbeRule → CommandMetadata → Option Bytes
target_digest rule command = elim rule.target_executable_sha256 [
  | none ↦ none
  | some _ ↦ command.executable_sha256
]

abbrev pub evidence_of : ProbeRule → CommandMetadata → Bytes → Bytes → ProbeHelperEvidence
evidence_of rule command path digest = record {
  mode = ascii "policy";
  rule_id = some rule.id;
  helper_kind = rule.helper_kind;
  helper_path = path;
  helper_sha256 = digest;
  target_executable_sha256 = target_digest rule command;
  matched_tls_surface = matched_tls_surface rule command;
}

abbrev pub selection_of : ProbeRule → CommandMetadata → Bytes → Bytes → ProbeHelperSelection
selection_of rule command path digest = record {
  helper_path = path;
  evidence = evidence_of rule command path digest;
  rule = some rule;
}

abbrev pub found : Option Bytes → Result SelectError Bytes
found none = err refused_helper
found (some b) = ok b

abbrev pub is_accepted {ℓ} : {E : Type ℓ} → Result E (Unit {0}) → Bool
is_accepted (ok _) = true
is_accepted (err _) = false

abbrev pub still_holds :
    CommandMetadata → DoctorReport → Bool → ProbeHelperEvidence → Option ProbeRule → Bool
still_holds command doctor cgroup e none = true
still_holds command doctor cgroup e (some rule) =
    is_accepted (rule_matches rule command doctor cgroup)
    && option_eq e.target_executable_sha256 (target_digest rule command)
    && option_eq e.matched_tls_surface (matched_tls_surface rule command)

module _ (validate_helper helper_sha256 : Bytes → Option Bytes) where
  unfoldable pub fill : CommandMetadata → ProbeRule → Result SelectError ProbeHelperSelection
  fill command rule = do
    path ← found (validate_helper rule.helper_path)
    digest ← found (helper_sha256 path)
    ensure (bytes_eq digest rule.helper_sha256) digest_mismatch
    lift (validate_evidence (evidence_of rule command path digest))
    ok (selection_of rule command path digest)

  unfoldable pub select_probe_helper :
      ProbePolicy → CommandMetadata → DoctorReport → Bool → Result SelectError ProbeHelperSelection
  select_probe_helper policy command doctor cgroup = do
    lift (validate_policy policy)
    rule ← choose command doctor cgroup policy.rules
    fill command rule

  -- `revalidate` and `revalidate_for`; every way to fail is an error.
  unfoldable pub revalidate : ProbeHelperSelection → Bool
  revalidate s = elim (validate_helper s.helper_path) [
    | none ↦ false
    | some canonical ↦ elim (helper_sha256 canonical) [
      | none ↦ false
      | some digest ↦
          bytes_eq canonical s.helper_path
          && bytes_eq s.evidence.helper_path s.helper_path
          && bytes_eq digest s.evidence.helper_sha256
          && is_accepted (validate_evidence s.evidence)
    ]
  ]

  unfoldable pub revalidate_for :
      CommandMetadata → DoctorReport → Bool → ProbeHelperSelection → Bool
  revalidate_for command doctor cgroup s =
      revalidate s && still_holds command doctor cgroup s.evidence s.rule
