-- ===== src/ProbePolicy/Order.antt =====
-- The order of the matches in src/probe_policy.rs: `sort` keeps every rule and puts lower priority
-- numbers first.
use inference_io.Prelude.{
  ◌≤◌, ◌≡◌, refl, Bool, true, false, List, [], ◌∷◌, ◌++◌, arith, if◌then◌else◌, All,
}
use inference_io.ProbePolicy.Rule.{ProbeRule}
use inference_io.ProbePolicy.Select.{comes_before, place, sort}

pub All-map {κ ν} :
    {A : Type 0} {Good : A → Type κ} {Fine : A → Type ν} (xs : List A)
    → ((x : A) → Good x → Fine x)
    → All Good xs
    → All Fine xs
All-map [] f h = tt
All-map (x ∷ xs) f (h, hs) = (f x h, All-map xs f hs)

if_both {κ} :
    {A : Type 0} (Good : A → Type κ) (b : Bool) (x y : A)
    → (b ≡ true → Good x)
    → (b ≡ false → Good y)
    → Good (if b then x else y)
if_both Good true x y gx gy = gx refl
if_both Good false x y gx gy = gy refl

pub of_if {κ ν} :
    {A : Type 0} (Good : A → Type κ) (Fine : Type ν) (b : Bool) (x y : A)
    → (Good x → Fine)
    → (Good y → Fine)
    → Good (if b then x else y)
    → Fine
of_if Good Fine true x y fx fy g = fx g
of_if Good Fine false x y fx fy g = fy g

pub All-of_append :
    {A : Type 0} (Good : A → Type 0) (xs ys : List A)
    → All Good (xs ++ ys)
    → All Good xs × All Good ys
All-of_append Good [] ys h = (tt, h)
All-of_append Good (x ∷ xs) ys (g, h) =
    let (gs, rest) = All-of_append Good xs ys h in ((g, gs), rest)

module _ (Good : ProbeRule → Type 0) where
  All-place :
      (r : ProbeRule) (rules : List ProbeRule) → Good r → All Good rules → All Good (place r rules)
  unfolding place
  All-place r [] g gs = (g, tt)
  All-place r (s ∷ rules) g (h, gs) =
      if_both (All Good) (comes_before r s) (r ∷ s ∷ rules) (s ∷ place r rules) (λ e. (g, (h, gs)))
        (λ e. (h, All-place r rules g gs))

  All-of_place :
      (r : ProbeRule) (rules : List ProbeRule) → All Good (place r rules) → Good r × All Good rules
  unfolding place
  All-of_place r [] h = h
  All-of_place r (s ∷ rules) h =
      of_if (All Good) (Good r × All Good (s ∷ rules)) (comes_before r s) (r ∷ s ∷ rules)
        (s ∷ place r rules) (λ (g, hs). (g, hs))
        (λ (g, hs). let (f, gs) = All-of_place r rules hs in (f, (g, gs))) h

  pub All-sort : (rules : List ProbeRule) → All Good rules → All Good (sort rules)
  unfolding sort
  All-sort [] h = tt
  All-sort (r ∷ rules) (g, gs) = All-place r (sort rules) g (All-sort rules gs)

  pub All-of_sort : (rules : List ProbeRule) → All Good (sort rules) → All Good rules
  unfolding sort
  All-of_sort [] h = tt
  All-of_sort (r ∷ rules) h =
      let (g, gs) = All-of_place r (sort rules) h in (g, All-of_sort rules gs)

abbrev pub IsSorted : List ProbeRule → Type 0
IsSorted [] = Unit
IsSorted (r ∷ rules) = All (λ s. r.priority ≤ s.priority) rules × IsSorted rules

comes_before_le : (r s : ProbeRule) → comes_before r s ≡ true → r.priority ≤ s.priority
comes_before_le r s e = ground (arith, e)

comes_after_le : (r s : ProbeRule) → comes_before r s ≡ false → s.priority ≤ r.priority
comes_after_le r s e = ground (arith, e)

place-IsSorted :
    (r : ProbeRule) (rules : List ProbeRule) → IsSorted rules → IsSorted (place r rules)
unfolding place
place-IsSorted r [] h = (tt, tt)
place-IsSorted r (s ∷ rules) (least, h) =
    if_both IsSorted (comes_before r s) (r ∷ s ∷ rules) (s ∷ place r rules)
      (λ e.
        let bound = comes_before_le r s e in
        ((bound, All-map rules (λ x later. omega (arith, bound, later)) least), (least, h)))
      (λ e. (
        All-place (λ x. s.priority ≤ x.priority) r rules (comes_after_le r s e) least,
        place-IsSorted r rules h,
      ))

pub sort-IsSorted : (rules : List ProbeRule) → IsSorted (sort rules)
unfolding sort
sort-IsSorted [] = tt
sort-IsSorted (r ∷ rules) = place-IsSorted r (sort rules) (sort-IsSorted rules)
