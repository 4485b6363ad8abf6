-- ===== src/Bytes/Map.antt =====
-- `BTreeMap<String, _>` of the standard library: an association list in the order of the keys.
use inference_io.Prelude.{
  ◌≡◌, Bool, true, false, ◌||◌, ◌&&◌, Option, none, some, List, [], ◌∷◌, arith, ltb, ◌==◌,
  if◌then◌else◌, refl, Bool-cases, inl, inr, length, suc, ◌≤◌, All,
}
use inference_io.Bytes.{Bytes, bytes_eq, bytes_eq_iff, bytes_eq_refl}

-- Byte strings in their lexicographic order.
abbrev pub bytes_lt : Bytes → Bytes → Bool
bytes_lt _ [] = false
bytes_lt [] (y ∷ ys) = true
bytes_lt (x ∷ xs) (y ∷ ys) = ltb x y || (x == y && bytes_lt xs ys)

abbrev pub Map {ℓ} : Type ℓ → Type ℓ
Map A = List (Bytes × A)

module _ {ℓ} {A : Type ℓ} where
  unfoldable pub lookup : Bytes → Map A → Option A
  lookup key [] = none
  lookup key ((k, v) ∷ rest) = if bytes_eq k key then some v else lookup key rest

  unfoldable pub insert : Bytes → A → Map A → Map A
  insert key value [] = (key, value) ∷ []
  insert key value ((k, v) ∷ rest) =
      let after = insert key value rest in
      if bytes_eq k key
      then (key, value) ∷ rest
      else if bytes_lt key k
      then (key, value) ∷ (k, v) ∷ rest
      else (k, v) ∷ after

  unfoldable pub contains_key : Bytes → Map A → Bool
  contains_key key m = elim (lookup key m) [ none ↦ false | some _ ↦ true ]

  -- `map.entry(key).or_insert(value)`, the map after it.
  unfoldable pub or_insert : Bytes → A → Map A → Map A
  or_insert key value m = if contains_key key m then m else insert key value m

  pub lookup-insert_same :
      (key : Bytes) (value : A) (m : Map A) → lookup key (insert key value m) ≡ some value
  unfolding lookup insert
  lookup-insert_same key value [] = ground (arith, bytes_eq_refl key)
  lookup-insert_same key value ((k, v) ∷ rest) =
      ground (arith, bytes_eq_refl key, lookup-insert_same key value rest)

  pub lookup-insert_other :
      (key other : Bytes) (value : A) (m : Map A)
      → bytes_eq other key ≡ false
      → lookup key (insert other value m) ≡ lookup key m
  unfolding lookup insert
  lookup-insert_other key other value [] h = ground (arith, h)
  lookup-insert_other key other value ((k, v) ∷ rest) h = elim (Bool-cases (bytes_eq k other)) [
    | inl e ↦
        ground (arith, h, e, (bytes_eq_iff k other).0 e, lookup-insert_other key other value rest h)
    | inr e ↦ ground (arith, h, e, lookup-insert_other key other value rest h)
  ]

  -- An insertion in place of an absent key leaves what was there.
  pub lookup-or_insert_found :
      (key other : Bytes) (value : A) (m : Map A) {found : A}
      → lookup key m ≡ some found
      → lookup key (or_insert other value m) ≡ some found
  unfolding or_insert contains_key
  lookup-or_insert_found key other value m {found} h = elim (Bool-cases (bytes_eq other key)) [
    | inl e ↦ ground (arith, h, (bytes_eq_iff other key).0 e)
    | inr e ↦ ground (arith, h, lookup-insert_other key other value m e)
  ]

  pub lookup-or_insert_present :
      (key : Bytes) (value : A) (m : Map A) → contains_key key (or_insert key value m) ≡ true
  unfolding or_insert contains_key
  lookup-or_insert_present key value m = ground (arith, lookup-insert_same key value m)

  pub length-insert_le :
      (key : Bytes) (value : A) (m : Map A) → length (insert key value m) ≤ suc (length m)
  unfolding insert
  length-insert_le key value [] = omega arith
  length-insert_le key value ((k, v) ∷ rest) = ground (arith, length-insert_le key value rest)

  if-All {κ} :
      (Good : Bytes × A → Type κ) (b : Bool) (m n : Map A)
      → All Good m
      → All Good n
      → All Good (if b then m else n)
  if-All Good true m n hm hn = hm
  if-All Good false m n hm hn = hn

  pub All-insert {κ} :
      (Good : Bytes × A → Type κ) (key : Bytes) (value : A) (m : Map A)
      → Good (key, value)
      → All Good m
      → All Good (insert key value m)
  unfolding insert
  All-insert Good key value [] g gs = (g, tt)
  All-insert Good key value ((k, v) ∷ rest) g (h, gs) =
      if-All Good (bytes_eq k key) _ _ (g, gs)
        (if-All Good (bytes_lt key k) _ _ (g, (h, gs)) (h, All-insert Good key value rest g gs))

  -- A change in place, `if let Some(value) = map.get_mut(key) { *value = f(value) }`.
  unfoldable pub update : Bytes → (A → A) → Map A → Map A
  update key f [] = []
  update key f ((k, v) ∷ rest) =
      let after = update key f rest in if bytes_eq k key then (k, f v) ∷ rest else (k, v) ∷ after

  pub length-update : (key : Bytes) (f : A → A) (m : Map A) → length (update key f m) ≡ length m
  unfolding update
  length-update key f [] = refl
  length-update key f ((k, v) ∷ rest) = ground (arith, length-update key f rest)
