-- ===== src/ProbePolicy/Tests.antt =====
-- Runs of the selection of src/probe_policy.rs, and its theorems at concrete policies.
use inference_io.Prelude.{
  ℕ, ◌≡◌, refl, true, false, none, some, List, [], ◌∷◌, All, ok, err, replicate,
}
use inference_io.Bytes.{Bytes, ascii}
use inference_io.ProbePolicy.Rule.{
  ProbeRule, ProbePolicy, CommandMetadata, DoctorReport, other_os, validate_label, validate_labels,
  validate_sha256, validate_rule, validate_rules, validate_policy, rule_matches, first_observed,
}
use inference_io.ProbePolicy.Select.{
  judge, sort_out, place, sort, first_of, choose, no_match, ambiguous, fill, select_probe_helper,
  selection_of, revalidate_for, revalidate, validate_evidence,
}
use inference_io.ProbePolicy.Decision.{IsBehind, choose-IsLeast, choose-no_match}
use inference_io.ProbePolicy.Revalidate.{select-revalidate}

abbrev digest : Bytes
digest = replicate 64 b'a'

abbrev rule : Bytes → ℕ → Bytes → ProbeRule
rule id priority os = record {
  id = id;
  priority = priority;
  helper_kind = ascii "ecapture";
  helper_path = ascii "/opt/helper";
  helper_sha256 = digest;
  os = os;
  architecture = ascii "x86_64";
  runtime = none;
  any_tls_surfaces = ascii "openssl" ∷ [];
  target_executable_sha256 = none;
  require_ebpf = true;
  require_task_cgroup = false;
}

abbrev command : CommandMetadata
command = record {
  runtime = none;
  executable_tls_surfaces = ascii "openssl" ∷ [];
  executable_sha256 = none;
}

abbrev doctor : DoctorReport
doctor = record {
  os = ascii "linux";
  architecture = ascii "x86_64";
  ebpf_status = some (ascii "available");
}

abbrev slow : ProbeRule
slow = rule (ascii "slow") 20 (ascii "linux")

abbrev fast : ProbeRule
fast = rule (ascii "fast") 10 (ascii "linux")

abbrev other : ProbeRule
other = rule (ascii "other") 1 (ascii "macos")

abbrev rules : List ProbeRule
rules = slow ∷ other ∷ fast ∷ []

abbrev policy : ProbePolicy
policy = record { schema_version = 1; rules = rules }

engine : Unit {0}
unfolding validate_label validate_labels validate_sha256 validate_rule validate_rules
    validate_policy rule_matches first_observed judge sort_out place sort first_of choose fill
    select_probe_helper revalidate_for revalidate validate_evidence
engine = tt

fast_chosen : choose command doctor false rules ≡ ok fast
unfolding engine
fast_chosen = refl

tie_refused : choose command doctor false (slow ∷ slow ∷ []) ≡ err (ambiguous slow slow)
unfolding engine
tie_refused = refl

other_refused :
    choose command doctor false (other ∷ []) ≡ err (no_match ((ascii "other", other_os) ∷ []))
unfolding engine
other_refused = refl

-- The helper's path is canonical, and its digest is the one that the rules name.
fast_selected :
    select_probe_helper some (λ path. some digest) policy command doctor false
    ≡ ok (selection_of fast command (ascii "/opt/helper") digest)
unfolding engine
fast_selected = refl

choose-IsLeast_example :
    (rule_matches fast command doctor false ≡ ok tt)
    × All (λ r. rule_matches r command doctor false ≡ ok tt → IsBehind fast r) rules
choose-IsLeast_example = choose-IsLeast command doctor false rules fast fast_chosen

choose-no_match_example : All (λ r. ¬ (rule_matches r command doctor false ≡ ok tt)) (other ∷ [])
choose-no_match_example =
    choose-no_match command doctor false (other ∷ []) ((ascii "other", other_os) ∷ []) other_refused

select-revalidate_example :
    revalidate_for some
      (λ path. some digest)
      command
      doctor
      false
      (selection_of fast command (ascii "/opt/helper") digest)
    ≡ true
select-revalidate_example =
    select-revalidate some (λ path. some digest) policy command doctor false
      (selection_of fast command (ascii "/opt/helper") digest) (λ path canonical h. refl)
      fast_selected
