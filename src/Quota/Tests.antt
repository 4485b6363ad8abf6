-- ===== src/Quota/Tests.antt =====
-- Two tasks that race for the quota of src/storage.rs, and the theorem at their race.
use inference_io.Prelude.{ℕ, refl, false, List, [], ◌∷◌, arith}
use inference_io.Quota.Reserve.{
  Task, outside, trying, holding, refused, Store, attempt, release, begins, tries, acts, Steps,
  stay, more,
}
use inference_io.Quota.Safe.{IsWithin, reserved, Steps-IsWithin}

abbrev store : ℕ → List Task → Store
store counter tasks = record { counter = counter; tasks = tasks }

engine : Unit {0}
unfolding attempt release reserved
engine = tt

-- Both tasks read the counter before either writes it; the second learns of the first by its failed
-- exchange, and is refused.
race : Steps 100 (store 10 (outside ∷ outside ∷ [])) (store 70 (holding 60 ∷ refused ∷ []))
unfolding engine
race = more (acts [] (outside ∷ []) (begins 60)) (
    more (acts (trying 60 10 ∷ []) [] (begins 50)) (
      more (acts [] (trying 50 10 ∷ []) (tries false)) (
        more (acts (holding 60 ∷ []) [] (tries false))
          (more (acts (holding 60 ∷ []) [] (tries false)) stay))))

race_start : IsWithin 100 10 (store 10 (outside ∷ outside ∷ []))
unfolding engine
race_start = (refl, omega arith)

Steps-IsWithin_example : IsWithin 100 10 (store 70 (holding 60 ∷ refused ∷ []))
Steps-IsWithin_example = Steps-IsWithin 100 10 race race_start
