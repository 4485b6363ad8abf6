-- ===== src/Control/Fields.antt =====
-- The accesses to `serde_json::Value` and `serde_json::Map` that src/control.rs makes.
use inference_io.Prelude.{
  ℕ, ◌≡◌, refl, Bool, true, false, ◌&&◌, Option, none, some, arith, if◌then◌else◌, Bool-cases, inl,
  inr, ◌∙◌,
}
use inference_io.Bytes.{Bytes, bytes_eq, bytes_eq_iff}
use inference_io.Bytes.Map.{bytes_lt}
use inference_io.Bytes.Decimal.{parse_u64}
use inference_io.Json.{
  Value, object, array, string, number, bool, null, Fields, no_fields, entry, Items, find_field,
  get,
}

-- `Value::as_bool`.
unfoldable pub as_bool : Value → Option Bool
as_bool (bool b) = some b
as_bool _ = none

-- `Value::as_u64`: an integer without sign, point or exponent, below 2 ^ 64.
unfoldable pub as_u64 : Value → Option ℕ
as_u64 (number text) = parse_u64 text
as_u64 _ = none

-- `Value::as_object`.
unfoldable pub as_object : Value → Option Fields
as_object (object fields) = some fields
as_object _ = none

-- `Value::as_array`.
unfoldable pub as_array : Value → Option Items
as_array (array items) = some items
as_array _ = none

-- `Map::insert`: a `BTreeMap`, in the order of its keys.
unfoldable pub insert_field : Bytes → Value → Fields → Fields
insert_field key value no_fields = entry key value no_fields
insert_field key value (entry k v rest) =
    let after = insert_field key value rest in
    if bytes_eq k key
    then entry key value rest
    else if bytes_lt key k
    then entry key value (entry k v rest)
    else entry k v after

-- What a key of a section reads as.
abbrev pub entry_of : Bytes → Option Value → Option Value
entry_of key found = elim found [ none ↦ none | some inner ↦ get key inner ]

-- `value.get(section).and_then(|fields| fields.get(key))`.
abbrev pub setting : Bytes → Bytes → Value → Option Value
setting section key value = entry_of key (get section value)

-- The fields of a section: a section that is missing or null is made by an assignment through
-- `IndexMut`.
section_fields : Option Value → Fields
section_fields (some (object fields)) = fields
section_fields _ = no_fields

-- `value[section][key] = new`, where `is_assignable` says that this does not panic.
unfoldable pub set_setting : Bytes → Bytes → Value → Value → Value
unfolding section_fields
set_setting section key new (object fields) = object (
    insert_field section
      (object (insert_field key new (section_fields (find_field section fields)))) fields)
set_setting section key new null =
    object (entry section (object (entry key new no_fields)) no_fields)
set_setting section key new other = other

-- Whether `value.get_mut(section).and_then(Value::as_object_mut)` finds a map.
is_map : Option Value → Bool
is_map (some (object _)) = true
is_map _ = false

unfoldable pub is_section : Bytes → Value → Bool
unfolding is_map
is_section section value = is_map (get section value)

-- Whether `value[section][key] = …` does not panic: both are objects, or the section is made.
is_map_or_missing : Option Value → Bool
is_map_or_missing none = true
is_map_or_missing (some (object _)) = true
is_map_or_missing (some null) = true
is_map_or_missing _ = false

unfoldable pub is_assignable : Bytes → Value → Bool
unfolding is_map_or_missing
is_assignable section (object fields) = is_map_or_missing (find_field section fields)
is_assignable section null = true
is_assignable section _ = false

pub bytes_eq-false :
    (a b c : Bytes) → bytes_eq a b ≡ true → bytes_eq b c ≡ false → bytes_eq a c ≡ false
bytes_eq-false a b c same differ = ground (arith, (bytes_eq_iff a b).0 same)

pub find_field-insert_field :
    (key : Bytes) (value : Value) (fields : Fields) (wanted : Bytes)
    → find_field wanted (insert_field key value fields)
      ≡ (if bytes_eq key wanted then some value else find_field wanted fields)
unfolding find_field insert_field
find_field-insert_field key value no_fields wanted = refl
find_field-insert_field key value (entry k v rest) wanted = elim (Bool-cases (bytes_eq k key)) [
  | inl same ↦ ground (arith, same, (bytes_eq_iff k key).0 same)
  | inr differ ↦ elim (Bool-cases (bytes_eq key wanted)) [
    | inl here ↦ ground (
      arith,
      differ,
      here,
      (bytes_eq_iff key wanted).0 here,
      find_field-insert_field key value rest wanted,
    )
    | inr away ↦ ground (arith, differ, away, find_field-insert_field key value rest wanted)
  ]
]

entry_of-section_fields :
    (key : Bytes) (found : Option Value)
    → is_map found ≡ true
    → entry_of key found ≡ find_field key (section_fields found)
unfolding is_map section_fields get
entry_of-section_fields key (some (object content)) h = refl
entry_of-section_fields key none h = cc
entry_of-section_fields key (some (array items)) h = cc
entry_of-section_fields key (some (string text)) h = cc
entry_of-section_fields key (some (number text)) h = cc
entry_of-section_fields key (some (bool b)) h = cc
entry_of-section_fields key (some null) h = cc

-- A section after an assignment to it or to another one.
get-set_setting :
    (section key : Bytes) (new : Value) (fields : Fields) (other : Bytes)
    → get other (set_setting section key new (object fields)) ≡ (
        if bytes_eq section other
        then some (object (insert_field key new (section_fields (find_field section fields))))
        else find_field other fields)
unfolding set_setting get
get-set_setting section key new fields other =
    find_field-insert_field section
      (object (insert_field key new (section_fields (find_field section fields)))) fields other

-- An assignment changes one key of one section.
pub setting-set_setting :
    (section key : Bytes) (new value : Value) (other wanted : Bytes)
    → is_section section value ≡ true
    → setting other wanted (set_setting section key new value) ≡ (
        if bytes_eq section other && bytes_eq key wanted
        then some new
        else setting other wanted value)
unfolding is_section get
setting-set_setting section key new (object fields) other wanted here =
    elim (Bool-cases (bytes_eq section other)) [
      | inl same ↦
          let found : get other (set_setting section key new (object fields))
              ≡ some (object (insert_field key new (section_fields (find_field section fields)))) =
            ground (arith, get-set_setting section key new fields other, same) in
          rw (found, same)
            (find_field-insert_field key new (section_fields (find_field section fields)) wanted
              ∙ ground (
                arith,
                (bytes_eq_iff section other).0 same,
                entry_of-section_fields wanted (find_field section fields) here,
              ))
      | inr differ ↦
          let found : get other (set_setting section key new (object fields))
              ≡ find_field other fields =
            ground (arith, get-set_setting section key new fields other, differ) in
          rw (found, differ) refl
    ]
setting-set_setting section key new (array items) other wanted here = cc
setting-set_setting section key new (string text) other wanted here = cc
setting-set_setting section key new (number text) other wanted here = cc
setting-set_setting section key new (bool b) other wanted here = cc
setting-set_setting section key new null other wanted here = cc

-- A section stays a section when any setting is assigned.
pub is_section-set_setting :
    (section key : Bytes) (new value : Value) (other : Bytes)
    → is_section other value ≡ true
    → is_section other (set_setting section key new value) ≡ true
unfolding is_section is_map get set_setting
is_section-set_setting section key new (object fields) other here =
    elim (Bool-cases (bytes_eq section other)) [
      | inl same ↦ ground (arith, get-set_setting section key new fields other, same)
      | inr differ ↦ ground (arith, get-set_setting section key new fields other, differ)
    ]
is_section-set_setting section key new (array items) other here = here
is_section-set_setting section key new (string text) other here = here
is_section-set_setting section key new (number text) other here = here
is_section-set_setting section key new (bool b) other here = here
is_section-set_setting section key new null other here = cc

is_map-is_map_or_missing :
    (found : Option Value) → is_map found ≡ true → is_map_or_missing found ≡ true
unfolding is_map is_map_or_missing
is_map-is_map_or_missing none h = refl
is_map-is_map_or_missing (some (object content)) h = refl
is_map-is_map_or_missing (some (array items)) h = h
is_map-is_map_or_missing (some (string text)) h = h
is_map-is_map_or_missing (some (number text)) h = h
is_map-is_map_or_missing (some (bool b)) h = h
is_map-is_map_or_missing (some null) h = refl

-- A section may be assigned to.
pub is_section-is_assignable :
    (section : Bytes) (value : Value)
    → is_section section value ≡ true
    → is_assignable section value ≡ true
unfolding is_section is_assignable get
is_section-is_assignable section (object content) h = is_map-is_map_or_missing _ h
is_section-is_assignable section (array items) h = h
is_section-is_assignable section (string text) h = h
is_section-is_assignable section (number text) h = h
is_section-is_assignable section (bool b) h = h
is_section-is_assignable section null h = refl
