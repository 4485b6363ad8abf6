-- ===== src/Prelude/Outcome.antt =====
-- `Result<A, E>` with the `?` operator as bind, and saturating arithmetic on 64 bits.
use Prim.Native.Nat.{ℕ, ◌+◌, ◌-◌, ◌^◌, ◌≤◌}
use mathlib.Core.Path.{◌≡◌, refl}
use mathlib.Core.Logic.{◌⊎◌, inl, inr}
use mathlib.Core.Bool.{Bool, true, false}
use native.Mathlib.Omega.{arith}
use inference_io.Prelude.Tests.{ltb, if◌then◌else◌}

pub data Result {ℓ κ} (E : Type κ) (A : Type ℓ) : Type (ℓ ⊔ κ) where
  err : E → Result E A
  ok : A → Result E A

infixl 5 ◌>>=◌ ◌>>◌
-- The `?` operator: an error is returned at once.
abbrev pub ◌>>=◌ {ι κ ν} :
    {E : Type κ} {X : Type ι} {Y : Type ν} → Result E X → (X → Result E Y) → Result E Y
err failure >>= next = err failure
ok x >>= next = next x

abbrev pub ◌>>◌ {ι κ} : {E : Type κ} {Y : Type ι} → Result E (Unit {0}) → Result E Y → Result E Y
check >> next = check >>= λ _. next

-- `ensure!(condition, error)`.
abbrev pub ensure {κ} : {E : Type κ} → Bool → E → Result E (Unit {0})
ensure false failure = err failure
ensure true failure = ok tt

pub >>=-eq-ok {ι κ ν} :
    {E : Type κ} {X : Type ι} {Y : Type ν} (first : Result E X) (next : X → Result E Y) {y : Y}
    → (first >>= next) ≡ ok y
    → (x : X) × (first ≡ ok x) × (next x ≡ ok y)
>>=-eq-ok (err failure) next run = cc
>>=-eq-ok (ok x) next run = (x, refl, run)

pub ensure-then {ι κ} :
    {E : Type κ} {Y : Type ι} (test : Bool) (failure : E) (next : Result E Y) {y : Y}
    → (ensure test failure >> next) ≡ ok y
    → (test ≡ true) × (next ≡ ok y)
ensure-then false failure next run = cc
ensure-then true failure next run = (refl, run)

pub Result-cases {ℓ κ} :
    {E : Type κ} {A : Type ℓ} (m : Result E A) → ((a : A) × (m ≡ ok a)) ⊎ ((e : E) × (m ≡ err e))
Result-cases (ok a) = inl (a, refl)
Result-cases (err e) = inr (e, refl)

abbrev pub u64_max : ℕ
u64_max = 2 ^ 64 - 1

unfoldable pub saturating_add : ℕ → ℕ → ℕ
saturating_add a b = if ltb u64_max (a + b) then u64_max else a + b

pub saturating_add_exact : (a b : ℕ) → a + b ≤ u64_max → saturating_add a b ≡ a + b
unfolding saturating_add
saturating_add_exact a b h = ground arith

pub saturating_add_le : (a b : ℕ) → saturating_add a b ≤ a + b
unfolding saturating_add
saturating_add_le a b = ground arith
