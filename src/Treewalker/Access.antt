-- ===== src/Treewalker/Access.antt =====
-- rdb-analyzer/src/data/treewalker/vm_value.rs: the maps of values by name and by key, and the
-- `unwrap_` functions, whose panic is `none`. Both kinds of map ascend by their keys.
use refine_db.Prelude.{
  String, str_eq, str_lt, Bytes, bytes_eq, bytes_lt, Bool, Option, none, some, if◌then◌else◌, ◌≡◌,
  refl, str_eq_iff, arith,
}
use refine_db.Value.{PrimitiveValue}
use refine_db.Treewalker.Types.{VmType}
use refine_db.Treewalker.Values.{
  VmValue, VmTableValueKind, VmSetValueKind, VmValues, no_value, value, VmMembers, no_member,
  member, primitive, table, set, bool, map,
}

unfoldable pub value_get : String → VmValues → Option VmValue
value_get k no_value = none
value_get k (value j v vs) = if str_eq j k then some v else value_get k vs

unfoldable pub value_insert : String → VmValue → VmValues → VmValues
value_insert k v no_value = value k v no_value
value_insert k v (value j u vs) =
    if str_eq j k
    then value k v vs
    else (if str_lt k j then value k v (value j u vs) else value j u (value_insert k v vs))

unfoldable pub value_remove : String → VmValues → VmValues
value_remove k no_value = no_value
value_remove k (value j u vs) =
    if str_eq j k then value_remove k vs else value j u (value_remove k vs)

unfoldable pub member_insert : Bytes → VmValue → VmMembers → VmMembers
member_insert k v no_member = member k v no_member
member_insert k v (member j u vs) =
    if bytes_eq j k
    then member k v vs
    else (if bytes_lt k j then member k v (member j u vs) else member j u (member_insert k v vs))

unfoldable pub unwrap_table : VmValue → Option (String × VmTableValueKind)
unwrap_table (table ty kind) = some (ty, kind)
unwrap_table _ = none

unfoldable pub unwrap_map : VmValue → Option VmValues
unwrap_map (map x) = some x
unwrap_map _ = none

unfoldable pub unwrap_set : VmValue → Option (VmType × VmSetValueKind)
unwrap_set (set member_ty kind) = some (member_ty, kind)
unwrap_set _ = none

unfoldable pub unwrap_primitive : VmValue → Option PrimitiveValue
unwrap_primitive (primitive x) = some x
unwrap_primitive _ = none

unfoldable pub unwrap_bool : VmValue → Option Bool
unwrap_bool (bool x) = some x
unwrap_bool _ = none

pub value_get-insert :
    (k j : String) (v : VmValue) (vs : VmValues)
    → value_get j (value_insert k v vs) ≡ (if str_eq k j then some v else value_get j vs)
unfolding value_get value_insert
value_get-insert k j v no_value = refl
value_get-insert k j v (value i w vs) =
    ground (arith, str_eq_iff k j, str_eq_iff i k, str_eq_iff i j, value_get-insert k j v vs)
