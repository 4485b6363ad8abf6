-- ===== src/Json.antt =====
-- `serde_json::Value` as the source reads and writes it. Texts are their bytes, a number is the
-- text that stands for it, and an object keeps its entries in their order.
use inference_io.Prelude.{Bool, Option, none, some, if◌then◌else◌}
use native.Mathlib.Decide.{ℕ_discrete}
use inference_io.Bytes.{Bytes, bytes_eq}

mutual
  pub data Value : Type 0 where
    object : Fields → Value
    array : Items → Value
    string : Bytes → Value
    number : Bytes → Value
    bool : Bool → Value
    null : Value

  pub data Fields : Type 0 where
    no_fields : Fields
    entry : Bytes → Value → Fields → Fields

  pub data Items : Type 0 where
    no_items : Items
    item : Value → Items → Items

-- `Value::as_str`.
unfoldable pub as_str : Value → Option Bytes
as_str (string s) = some s
as_str _ = none

unfoldable pub find_field : Bytes → Fields → Option Value
find_field key no_fields = none
find_field key (entry k v rest) = if bytes_eq k key then some v else find_field key rest

-- `Value::get(key)`: only an object has fields.
unfoldable pub get : Bytes → Value → Option Value
unfolding find_field
get key (object fields) = find_field key fields
get key _ = none

pub Value-discrete : Discrete Value
Value-discrete = hlevel ℕ_discrete
