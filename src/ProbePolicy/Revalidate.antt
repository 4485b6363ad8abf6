-- ===== src/ProbePolicy/Revalidate.antt =====
-- A selection of src/probe_policy.rs holds up when it is validated again in the same situation.
use inference_io.Prelude.{
  ◌≡◌, refl, Bool, true, Option, none, some, arith, Option-cases, Bool-cases, Result-cases, inl,
  inr, ok, ◌>>=◌, >>=-eq-ok, subst,
}
use inference_io.Bytes.{Bytes, bytes_eq, bytes_eq_refl}
use inference_io.ProbePolicy.Rule.{
  ProbeRule, ProbePolicy, CommandMetadata, DoctorReport, option_eq, rule_matches,
  matched_tls_surface, validate_policy,
}
use inference_io.ProbePolicy.Select.{
  ProbeHelperSelection, evidence_of, selection_of, target_digest, validate_evidence, choose, fill,
  select_probe_helper, revalidate, revalidate_for, is_accepted, lift,
}
use inference_io.ProbePolicy.Decision.{choose-IsLeast}

option_eq_refl : (o : Option Bytes) → option_eq o o ≡ true
option_eq_refl none = refl
option_eq_refl (some b) = bytes_eq_refl b

module _ (validate_helper helper_sha256 : Bytes → Option Bytes) where
  fill_parts :
      (command : CommandMetadata) (rule : ProbeRule) (s : ProbeHelperSelection)
      → fill validate_helper helper_sha256 command rule ≡ ok s
      → (path digest : Bytes) × (validate_helper rule.helper_path ≡ some path)
        × (helper_sha256 path ≡ some digest)
        × (is_accepted (validate_evidence (evidence_of rule command path digest)) ≡ true)
        × (selection_of rule command path digest ≡ s)
  unfolding fill
  fill_parts command rule s h = elim (Option-cases (validate_helper rule.helper_path)) [
    | inl e ↦ absurd (ground (arith, e, h))
    | inr (path, e) ↦ elim (Option-cases (helper_sha256 path)) [
      | inl d ↦ absurd (ground (arith, e, d, h))
      | inr (digest, d) ↦ elim (Bool-cases (bytes_eq digest rule.helper_sha256)) [
        | inr b ↦ absurd (ground (arith, e, d, b, h))
        | inl b ↦ elim (Result-cases (validate_evidence (evidence_of rule command path digest))) [
          | inr (_, v) ↦ absurd (ground (arith, e, d, b, v, h))
          | inl (_, v) ↦ (path, digest, e, d, ground (arith, v), ground (arith, e, d, b, v, h))
        ]
      ]
    ]
  ]

  revalidate-selection_of :
      (command : CommandMetadata) (doctor : DoctorReport) (cgroup : Bool) (rule : ProbeRule)
      (path digest : Bytes)
      → validate_helper path ≡ some path
      → helper_sha256 path ≡ some digest
      → is_accepted (validate_evidence (evidence_of rule command path digest)) ≡ true
      → rule_matches rule command doctor cgroup ≡ ok tt
      → revalidate_for validate_helper helper_sha256 command doctor cgroup
          (selection_of rule command path digest)
        ≡ true
  unfolding revalidate_for revalidate
  revalidate-selection_of command doctor cgroup rule path digest helper hash accepted matches =
      ground (
        arith,
        helper,
        hash,
        accepted,
        matches,
        bytes_eq_refl path,
        bytes_eq_refl digest,
        option_eq_refl (target_digest rule command),
        option_eq_refl (matched_tls_surface rule command),
      )

  -- A selection just made passes revalidate_for for the same command and host, when
  -- validate_helper gives back a path that it has itself returned.
  pub select-revalidate :
      (policy : ProbePolicy) (command : CommandMetadata) (doctor : DoctorReport) (cgroup : Bool)
      → (s : ProbeHelperSelection)
      → ((path canonical : Bytes)
          → validate_helper path ≡ some canonical
          → validate_helper canonical ≡ some canonical)
      → select_probe_helper validate_helper helper_sha256 policy command doctor cgroup ≡ ok s
      → revalidate_for validate_helper helper_sha256 command doctor cgroup s ≡ true
  unfolding select_probe_helper
  select-revalidate policy command doctor cgroup s canonical h =
      let (_, _, selected) =
        >>=-eq-ok (lift (validate_policy policy))
          (λ _. choose command doctor cgroup policy.rules >>= λ r.
            fill validate_helper helper_sha256 command r)
          h in
      let (rule, chosen, filled) =
        >>=-eq-ok (choose command doctor cgroup policy.rules)
          (λ r. fill validate_helper helper_sha256 command r) selected in
      let (path, digest, helper, hash, accepted, same) = fill_parts command rule s filled in
      subst (λ t. revalidate_for validate_helper helper_sha256 command doctor cgroup t ≡ true) same
        (revalidate-selection_of command doctor cgroup rule path digest
          (canonical rule.helper_path path helper) hash accepted
          (choose-IsLeast command doctor cgroup policy.rules rule chosen).0)
