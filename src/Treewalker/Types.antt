-- ===== src/Treewalker/Types.antt =====
-- rdb-analyzer/src/data/treewalker/vm_value.rs: VmType. The map of a map type ascends by name, so that
-- equality of types is equality of their trees. A type over `String` and one over `&str` are the same.
use refine_db.Prelude.{
  String, str_eq, str_lt, if◌then◌else◌, Bool, true, false, ◌&&◌, Option, none, some, List, [], ◌∷◌,
  Dict, lookup,
}
use refine_db.Value.{PrimitiveType}
use refine_db.Schema.{
  FieldType, FieldAnnotation, primitive_type_eq, is_primary, SpecializedType, CompiledSchema,
}
use refine_db.Schema

mutual
  pub data VmType : Type 0 where
    primitive : PrimitiveType → VmType
    table : String → VmType
    set : VmType → VmType
    bool : VmType
    list : VmType → VmType
    map : MapFields → VmType
    unknown : VmType
    schema : VmType

  pub data MapFields : Type 0 where
    no_field : MapFields
    field : String → VmType → MapFields → MapFields

unfoldable pub map_get : String → MapFields → Option VmType
map_get k no_field = none
map_get k (field j t m) = if str_eq j k then some t else map_get k m

unfoldable pub map_insert : String → VmType → MapFields → MapFields
map_insert k t no_field = field k t no_field
map_insert k t (field j u m) =
    if str_eq j k
    then field k t m
    else (if str_lt k j then field k t (field j u m) else field j u (map_insert k t m))

unfoldable pub map_remove : String → MapFields → MapFields
map_remove k no_field = no_field
map_remove k (field j u m) = if str_eq j k then map_remove k m else field j u (map_remove k m)

-- `==`
unfoldable mutual
  unfolding primitive_type_eq

  pub vm_type_eq : VmType → VmType → Bool
  vm_type_eq (primitive p) (primitive q) = primitive_type_eq p q
  vm_type_eq (table x) (table y) = str_eq x y
  vm_type_eq (set t) (set u) = vm_type_eq t u
  vm_type_eq bool bool = true
  vm_type_eq (list t) (list u) = vm_type_eq t u
  vm_type_eq (map m) (map n) = map_fields_eq m n
  vm_type_eq unknown unknown = true
  vm_type_eq schema schema = true
  vm_type_eq _ _ = false

  pub map_fields_eq : MapFields → MapFields → Bool
  map_fields_eq no_field no_field = true
  map_fields_eq (field j t m) (field k u n) = str_eq j k && vm_type_eq t u && map_fields_eq m n
  map_fields_eq _ _ = false

unfoldable mutual
  pub is_covariant_from : VmType → VmType → Bool
  is_covariant_from (map x) (map y) =
      let deep = fields_are_covariant x y in if map_fields_eq x y then true else deep
  is_covariant_from t u = vm_type_eq t u

  -- The loop over the fields of `self`.
  pub fields_are_covariant : MapFields → MapFields → Bool
  fields_are_covariant no_field y = true
  fields_are_covariant (field k t x) y =
      let rest = fields_are_covariant x y in
      elim (map_get k y) [ none ↦ false | some u ↦ if is_covariant_from t u then rest else false ]

unfoldable pub from_field_type : FieldType → VmType
from_field_type (Schema.primitive p) = primitive p
from_field_type (Schema.table x) = table x
from_field_type (Schema.set t) = set (from_field_type t)

-- The schema as a map of its exports.
unfoldable pub from_exports : Dict FieldType → MapFields → MapFields
unfolding from_field_type map_insert
from_exports [] m = m
from_exports ((name, t) ∷ exports) m = from_exports exports (map_insert name (from_field_type t) m)

unfoldable pub from_schema : CompiledSchema → VmType
unfolding from_exports
from_schema s = map (from_exports s.exports no_field)

-- The first field, by name, that is annotated as the primary key.
unfoldable pub find_primary : Dict (FieldType × List FieldAnnotation) → Option (String × FieldType)
find_primary [] = none
find_primary ((name, (t, anns)) ∷ fields) =
    let rest = find_primary fields in if is_primary anns then some (name, t) else rest

unfoldable pub set_primary_key : CompiledSchema → VmType → Option (String × FieldType)
set_primary_key s (set (table x)) = elim (lookup x s.types) [
  | none ↦ none
  | some specialized_ty ↦ find_primary specialized_ty.fields
]
set_primary_key s _ = none
