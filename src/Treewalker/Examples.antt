-- ===== src/Treewalker/Examples.antt =====
-- Types of maps with more and fewer fields, and a default value.
use refine_db.Prelude.{true, false, some, ◌≡◌, refl}
use refine_db.Value.{PrimitiveType}
use refine_db.Schema.{primitive_type_eq}
use refine_db.Treewalker.Types.{
  VmType, MapFields, primitive, bool, map, no_field, field, map_get, vm_type_eq, map_fields_eq,
  is_covariant_from, fields_are_covariant,
}
use refine_db.Treewalker.Values.{VmValue, default_value, type_of}
use refine_db.Treewalker.Covariance.{is_covariant_from-map_get}
use refine_db.Treewalker.Transitivity.{is_covariant_from_trans}
use refine_db.Treewalker.Defaults.{has_default, have_default, type_of-default_value}

abbrev int : VmType
int = primitive PrimitiveType.int64

abbrev no_fields : VmType
no_fields = map no_field

abbrev one_field : MapFields
one_field = field "id" int no_field

abbrev two_fields : MapFields
two_fields = field "flag" bool (field "id" int no_field)

one_from_two : is_covariant_from (map one_field) (map two_fields) ≡ true
unfolding is_covariant_from fields_are_covariant map_get vm_type_eq map_fields_eq primitive_type_eq
one_from_two = refl

none_from_one : is_covariant_from no_fields (map one_field) ≡ true
unfolding is_covariant_from fields_are_covariant map_get vm_type_eq map_fields_eq primitive_type_eq
none_from_one = refl

two_from_one_fails : is_covariant_from (map two_fields) (map one_field) ≡ false
unfolding is_covariant_from fields_are_covariant map_get vm_type_eq map_fields_eq primitive_type_eq
two_from_one_fails = refl

id_is_int : map_get "id" one_field ≡ some int
unfolding map_get
id_is_int = refl

is_covariant_from_trans_example : is_covariant_from no_fields (map two_fields) ≡ true
is_covariant_from_trans_example =
    is_covariant_from_trans no_fields (map one_field) (map two_fields) none_from_one one_from_two

is_covariant_from-map_get_example :
    (u : VmType) × (map_get "id" two_fields ≡ some u) × (is_covariant_from int u ≡ true)
is_covariant_from-map_get_example =
    is_covariant_from-map_get one_field two_fields "id" int one_from_two id_is_int

two_have_default : has_default (map two_fields) ≡ true
unfolding has_default have_default
two_have_default = refl

type_of-default_value_example :
    (v : VmValue) × (default_value (map two_fields) ≡ some v) × (type_of v ≡ map two_fields)
type_of-default_value_example = type_of-default_value (map two_fields) two_have_default
