-- ===== src/Extension/Xds/Struct.antt =====
-- protobuf's Struct and Value, the getters that the extension server calls on them, and the
-- filter_metadata of a virtual host or a route.
use network_services_operato.Common.{
  String, ◌≡◌, refl, ◌==◌, string_eq, str_eq_iff, if◌then◌else◌, Option, none, some, List, arith,
}

mutual
  pub data Value : Type 0 where
    string_value : String → Value
    list_value : Values → Value
    struct_value : Fields → Value
    other_value : Value

  pub data Values : Type 0 where
    nil : Values
    cons : Value → Values → Values

  pub data Fields : Type 0 where
    empty : Fields
    field : String → Value → Fields → Fields

abbrev pub Metadata : Type 0
Metadata = List (String × Fields)

-- GetFields()[k]; a missing key gives a nil value.
unfoldable pub get_field : String → Fields → Option Value
get_field k empty = none
get_field k (field j v fs) = if j == k then some v else get_field k fs

-- Fields[k] = v
unfoldable pub set_field : String → Value → Fields → Fields
set_field k v empty = field k v empty
set_field k v (field j w fs) = if j == k then field k v fs else field j w (set_field k v fs)

-- GetStringValue(), "" where the value is nil or of another kind.
unfoldable pub get_string_value : Option Value → String
get_string_value (some (string_value s)) = s
get_string_value _ = ""

-- GetListValue(), nil where the value is nil or of another kind.
unfoldable pub get_list_value : Option Value → Option Values
get_list_value (some (list_value vs)) = some vs
get_list_value _ = none

-- GetStructValue()
unfoldable pub get_struct_value : Value → Option Fields
get_struct_value (struct_value fs) = some fs
get_struct_value _ = none

pub get_field-set_field :
    (k j : String) (v : Value) (fs : Fields)
    → get_field j (set_field k v fs) ≡ (if k == j then some v else get_field j fs)
unfolding get_field set_field
get_field-set_field k j v empty = refl
get_field-set_field k j v (field i w fs) =
    ground (arith, str_eq_iff k j, str_eq_iff i k, str_eq_iff i j, get_field-set_field k j v fs)
