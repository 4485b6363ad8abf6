-- ===== src/Control/Names.antt =====
-- `BTreeSet<String>` of the standard library, as the list of its members in their order.
use inference_io.Prelude.{
  ◌≡◌, true, ◌||◌, List, [], ◌∷◌, arith, if◌then◌else◌, Bool-cases, inl, inr, refl,
}
use inference_io.Bytes.{Bytes, bytes_eq, bytes_eq_iff, member}
use inference_io.Bytes.Map.{bytes_lt}

-- `BTreeSet::insert`.
unfoldable pub insert_name : Bytes → List Bytes → List Bytes
insert_name name [] = name ∷ []
insert_name name (first ∷ rest) =
    let after = insert_name name rest in
    if bytes_eq name first
    then first ∷ rest
    else if bytes_lt name first
    then name ∷ first ∷ rest
    else first ∷ after

-- `BTreeSet::extend`.
unfoldable pub extend_names : List Bytes → List Bytes → List Bytes
extend_names names [] = names
extend_names names (first ∷ rest) = extend_names (insert_name first names) rest

pub member-insert_name :
    (wanted name : Bytes) (names : List Bytes)
    → member wanted (insert_name name names) ≡ (bytes_eq wanted name || member wanted names)
unfolding insert_name
member-insert_name wanted name [] = refl
member-insert_name wanted name (first ∷ rest) = elim (Bool-cases (bytes_eq name first)) [
  | inl same ↦ ground (arith, same, (bytes_eq_iff name first).0 same)
  | inr differ ↦ ground (arith, differ, member-insert_name wanted name rest)
]

-- An insertion keeps the members.
pub member-insert_name_kept :
    (wanted name : Bytes) (names : List Bytes)
    → member wanted names ≡ true
    → member wanted (insert_name name names) ≡ true
member-insert_name_kept wanted name names h = ground (arith, member-insert_name wanted name names)

pub member-extend_names :
    (wanted : Bytes) (names added : List Bytes)
    → member wanted (extend_names names added) ≡ (member wanted names || member wanted added)
unfolding extend_names
member-extend_names wanted names [] = ground arith
member-extend_names wanted names (first ∷ rest) = ground (
  arith,
  member-extend_names wanted (insert_name first names) rest,
  member-insert_name wanted first names,
)
