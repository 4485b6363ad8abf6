-- ===== src/ProbePolicy/Decision.antt =====
-- What the selection of src/probe_policy.rs decides: the one matching rule of least priority.
use inference_io.Prelude.{
  ◌≤◌, ◌<◌, ◌≡◌, ◌⊎◌, inl, inr, refl, Bool, List, [], ◌∷◌, arith, ◌==◌, All, All-append, Result,
  err, ok, Bool-cases, subst,
}
use inference_io.Bytes.{Bytes}
use inference_io.ProbePolicy.Rule.{ProbeRule, CommandMetadata, DoctorReport, Mismatch, rule_matches}
use inference_io.ProbePolicy.Select.{
  Sorting, judge, sort_out, comes_before, place, sort, first_of, choose, no_match,
}
use inference_io.ProbePolicy.Order.{
  All-map, of_if, All-of_append, All-sort, All-of_sort, sort-IsSorted, IsSorted,
}

module _ (Good : ProbeRule → Type 0) where
  All-judge :
      (m : Result Mismatch (Unit {0})) (rule : ProbeRule) (state : Sorting)
      → (m ≡ ok tt → Good rule)
      → All Good state.0
      → All Good (judge m rule state).0
  unfolding judge
  All-judge (ok tt) rule (matches, failures) good h =
      All-append Good matches (rule ∷ []) h (good refl, tt)
  All-judge (err reason) rule (matches, failures) good h = h

  All-of_judge :
      (m : Result Mismatch (Unit {0})) (rule : ProbeRule) (state : Sorting)
      → All Good (judge m rule state).0
      → All Good state.0 × (m ≡ ok tt → Good rule)
  unfolding judge
  All-of_judge (ok tt) rule (matches, failures) h =
      let (gs, (g, _)) = All-of_append Good matches (rule ∷ []) h in (gs, (λ e. g))
  All-of_judge (err reason) rule (matches, failures) h = (h, (λ e. cc e))

module _ (command : CommandMetadata) (doctor : DoctorReport) (cgroup : Bool) where
  abbrev pub Matches : ProbeRule → Type 0
  Matches rule = rule_matches rule command doctor cgroup ≡ ok tt

  sort_out-Matches :
      (rules : List ProbeRule) (state : Sorting)
      → All Matches state.0
      → All Matches (sort_out command doctor cgroup rules state).0
  unfolding sort_out
  sort_out-Matches [] state h = h
  sort_out-Matches (rule ∷ rules) state h =
      sort_out-Matches rules _
        (All-judge Matches (rule_matches rule command doctor cgroup) rule state (λ m. m) h)

  All-of_sort_out :
      (Good : ProbeRule → Type 0) (rules : List ProbeRule) (state : Sorting)
      → All Good (sort_out command doctor cgroup rules state).0
      → All Good state.0 × All (λ rule. Matches rule → Good rule) rules
  unfolding sort_out
  All-of_sort_out Good [] state h = (h, tt)
  All-of_sort_out Good (rule ∷ rules) state h =
      let (now, later) = All-of_sort_out Good rules _ h in
      let (old, good) =
        All-of_judge Good (rule_matches rule command doctor cgroup) rule state now in
      (old, (good, later))

-- The rule itself, or one of a greater priority number.
abbrev pub IsBehind : ProbeRule → ProbeRule → Type 0
IsBehind chosen rule = (rule ≡ chosen) ⊎ (chosen.priority < rule.priority)

first_of_pair :
    (failures : List (Bytes × Mismatch)) (x y : ProbeRule) (rules : List ProbeRule) (r : ProbeRule)
    → x.priority ≤ y.priority
    → first_of failures (x ∷ y ∷ rules) ≡ ok r
    → (x ≡ r) × (x.priority < y.priority)
unfolding first_of
first_of_pair failures x y rules r xy h = elim (Bool-cases (y.priority == x.priority)) [
  | inl e ↦ absurd (ground (arith, e, h))
  | inr e ↦ (ground (arith, e, h), ground (arith, e, xy))
]

first_of-IsBehind :
    (failures : List (Bytes × Mismatch)) (rules : List ProbeRule) (r : ProbeRule)
    → IsSorted rules
    → first_of failures rules ≡ ok r
    → All (IsBehind r) rules
unfolding first_of
first_of-IsBehind failures [] r sorted h = absurd (cc h)
first_of-IsBehind failures (x ∷ []) r sorted h = (inl (cc h), tt)
first_of-IsBehind failures (x ∷ y ∷ rules) r ((xy, _), (later, _)) h =
    let (chosen, below) = first_of_pair failures x y rules r xy h in
    let before : r.priority < y.priority = subst (λ z. z.priority < y.priority) chosen below in
    (inl chosen, (inr before, All-map rules (λ z bound. inr (omega (arith, before, bound))) later))

first_of_among :
    (Good : ProbeRule → Type 0) (failures : List (Bytes × Mismatch)) (rules : List ProbeRule)
    (r : ProbeRule)
    → All Good rules
    → first_of failures rules ≡ ok r
    → Good r
unfolding first_of
first_of_among Good failures [] r gs h = absurd (cc h)
first_of_among Good failures (x ∷ []) r (g, _) h = subst Good (cc h) g
first_of_among Good failures (x ∷ y ∷ rules) r (g, _) h =
    of_if (λ z. z ≡ ok r) (Good r) (y.priority == x.priority) _ _ (λ e. absurd (cc e))
      (λ e. subst Good (cc e) g) h

-- A rule that choose selects matches, and every other rule of the list that matches has a strictly
-- greater priority number.
pub choose-IsLeast :
    (command : CommandMetadata) (doctor : DoctorReport) (cgroup : Bool) (rules : List ProbeRule)
    (r : ProbeRule)
    → choose command doctor cgroup rules ≡ ok r
    → (rule_matches r command doctor cgroup ≡ ok tt)
      × All (λ rule. rule_matches rule command doctor cgroup ≡ ok tt → IsBehind r rule) rules
unfolding choose
choose-IsLeast command doctor cgroup rules r h =
    let (matches, failures) = sort_out command doctor cgroup rules ([], []) in
    (
      first_of_among (Matches command doctor cgroup) _ _ r
          (All-sort _ _ (sort_out-Matches command doctor cgroup rules ([], []) tt)) h,
      (All-of_sort_out command doctor cgroup (IsBehind r) rules ([], [])
          (All-of_sort (IsBehind r) _ (first_of-IsBehind _ _ r (sort-IsSorted _) h))).1,
    )

sort_nonempty :
    (r : ProbeRule) (rules : List ProbeRule)
    → (x : ProbeRule) × (xs : List ProbeRule) × (sort (r ∷ rules) ≡ x ∷ xs)
unfolding sort place
sort_nonempty r rules = go (sort rules)
  where
    go :
        (sorted : List ProbeRule)
        → (x : ProbeRule) × (xs : List ProbeRule) × (place r sorted ≡ x ∷ xs)
    go [] = (r, [], refl)
    go (s ∷ rest) = elim (Bool-cases (comes_before r s)) [
      | inl e ↦ (r, s ∷ rest, rw (e))
      | inr e ↦ (s, place r rest, rw (e))
    ]

first_of_some :
    (noted failures : List (Bytes × Mismatch)) (x : ProbeRule) (xs : List ProbeRule)
    → ¬ (first_of noted (x ∷ xs) ≡ err (no_match failures))
unfolding first_of
first_of_some noted failures x [] h = cc h
first_of_some noted failures x (y ∷ ys) h =
    of_if (λ z. z ≡ err (no_match failures)) ⊥ (y.priority == x.priority) _ _ (λ e. cc e)
      (λ e. cc e) h

nothing_matched :
    (failures : List (Bytes × Mismatch)) (state : Sorting)
    → first_of state.1 (sort state.0) ≡ err (no_match failures)
    → All (λ _. ⊥) state.0
nothing_matched failures ([], noted) h = tt
nothing_matched failures (r ∷ rules, noted) h =
    let (x, xs, e) = sort_nonempty r rules in
    absurd (
      first_of_some noted failures x xs
        (subst (λ l. first_of noted l ≡ err (no_match failures)) e h))

-- When choose finds no match, no rule of the list matches.
pub choose-no_match :
    (command : CommandMetadata) (doctor : DoctorReport) (cgroup : Bool) (rules : List ProbeRule)
    (failures : List (Bytes × Mismatch))
    → choose command doctor cgroup rules ≡ err (no_match failures)
    → All (λ rule. ¬ (rule_matches rule command doctor cgroup ≡ ok tt)) rules
unfolding choose
choose-no_match command doctor cgroup rules failures h =
    (All-of_sort_out command doctor cgroup (λ _. ⊥) rules ([], [])
      (nothing_matched failures (sort_out command doctor cgroup rules ([], [])) h)).1
