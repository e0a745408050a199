-- ===== src/Json.antt =====
-- JSON values as `serde_json::Value` gives them, and the accessors that the code calls.
use pic_x.Base.{Text, List, [], ◌∷◌, Option, none, some, Bool, text_eq, if◌then◌else◌}
use pic_x.Base.Int.{ℤ}

-- A number is an integer that fits an `i64`, or another number by the text that prints it.
mutual
  pub data Value : Type 0 where
    null : Value
    boolean : Bool → Value
    number : ℤ → Value
    other_number : Text → Value
    text : Text → Value
    array : Items → Value
    object : Fields → Value

  pub data Items : Type 0 where
    nil : Items
    cons : Value → Items → Items

  pub data Fields : Type 0 where
    end : Fields
    field : Text → Value → Fields → Fields

-- `serde_json::Map`, whose keys differ from one another.
abbrev pub Map : Type 0
Map = List (Text × Value)

abbrev pub as_str : Value → Option Text
as_str (text s) = some s
as_str _ = none

abbrev pub as_i64 : Value → Option ℤ
as_i64 (number n) = some n
as_i64 _ = none

unfoldable pub items : Items → List Value
items nil = []
items (cons v vs) = v ∷ items vs

abbrev pub as_array : Value → Option (List Value)
as_array (array vs) = some (items vs)
as_array _ = none

unfoldable pub fields : Fields → Map
fields end = []
fields (field k v fs) = (k, v) ∷ fields fs

abbrev pub as_object : Value → Option Map
as_object (object fs) = some (fields fs)
as_object _ = none

unfoldable pub get_field : Text → Fields → Option Value
get_field k end = none
get_field k (field j v fs) = if text_eq j k then some v else get_field k fs

-- `value.get(key)`: nothing, unless the value is an object that has the key.
abbrev pub get : Value → Text → Option Value
get (object fs) k = get_field k fs
get _ k = none
