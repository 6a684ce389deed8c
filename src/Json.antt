-- ===== src/Json.antt =====
-- The methods of `serde_json::Value` that the program uses. A number is its text.
use caroba_guard.Prelude.{
  ℕ, Option, none, some, List, [], ◌∷◌, if◌then◌else◌, unwrap_or, Bytes, bytes_eq, parse_unsigned,
}
use caroba_guard.Context.{
  null_value, number_value, string_value, array_value, object_value, no_items, item, no_fields,
  field, Value, Items, Fields,
}

abbrev pub find_field : Bytes → Fields → Option Value
find_field key no_fields = none
find_field key (field name value fields) =
    if bytes_eq name key then some value else find_field key fields

-- `Value::get` of a key, and the index, which is `Null` where there is none.
abbrev pub get : Bytes → Value → Option Value
get key (object_value fields) = find_field key fields
get key _ = none

abbrev pub index : Bytes → Value → Value
index key value = unwrap_or (get key value) null_value

abbrev pub as_str : Value → Option Bytes
as_str (string_value text) = some text
as_str _ = none

abbrev pub as_u64 : Value → Option ℕ
as_u64 (number_value text) = parse_unsigned 0x10000000000000000 text
as_u64 _ = none

abbrev pub items_list : Items → List Value
items_list no_items = []
items_list (item value items) = value ∷ items_list items

abbrev pub as_array : Value → Option (List Value)
as_array (array_value items) = some (items_list items)
as_array _ = none

abbrev pub field_values : Fields → List Value
field_values no_fields = []
field_values (field name value fields) = value ∷ field_values fields

-- The values of an object.
abbrev pub object_values : Value → Option (List Value)
object_values (object_value fields) = some (field_values fields)
object_values _ = none
