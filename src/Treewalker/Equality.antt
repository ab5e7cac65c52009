-- ===== src/Treewalker/Equality.antt =====
-- rdb-analyzer/src/data/treewalker/vm_value.rs and data/value.rs: the derived `PartialEq` of values.
-- Two resident values are equal if their walkers have the same keys.
use Prim.Native.Nat.Ordering.{eq}
use refine_db.Prelude.{◌==◌, str_eq, bytes_eq, Bool, true, false, ◌&&◌}
use refine_db.Prelude.Int.{ℤ, cmp_ℤ}
use refine_db.Value.{PrimitiveValue, string, bytes, int64, double}
use refine_db.PathWalker.{walker_eq}
use refine_db.Treewalker.Types.{vm_type_eq}
use refine_db.Treewalker.Values.{
  VmValue, primitive, table, set, bool, map, null, list, VmTableValueKind, resident, fresh,
  VmSetValueKind, resident_set, fresh_set, VmValues, no_value, value, VmMembers, no_member, member,
  VmItems, no_item, item,
}

abbrev pub int_eq : ℤ → ℤ → Bool
int_eq x y = elim (cmp_ℤ x y) [ eq ↦ true | _ ↦ false ]

unfoldable pub primitive_value_eq : PrimitiveValue → PrimitiveValue → Bool
primitive_value_eq (string x) (string y) = bytes_eq x y
primitive_value_eq (bytes x) (bytes y) = bytes_eq x y
primitive_value_eq (int64 x) (int64 y) = int_eq x y
primitive_value_eq (double x) (double y) = x == y
primitive_value_eq _ _ = false

abbrev pub bool_eq : Bool → Bool → Bool
bool_eq true b = b
bool_eq false true = false
bool_eq false false = true

unfoldable mutual
  unfolding primitive_value_eq vm_type_eq walker_eq

  pub vm_value_eq : VmValue → VmValue → Bool
  vm_value_eq (primitive x) (primitive y) = primitive_value_eq x y
  vm_value_eq (table s x) (table t y) = str_eq s t && table_kind_eq x y
  vm_value_eq (set s x) (set t y) = vm_type_eq s t && set_kind_eq x y
  vm_value_eq (bool x) (bool y) = bool_eq x y
  vm_value_eq (map x) (map y) = values_eq x y
  vm_value_eq (null s) (null t) = vm_type_eq s t
  vm_value_eq (list s x) (list t y) = vm_type_eq s t && items_eq x y
  vm_value_eq _ _ = false

  pub table_kind_eq : VmTableValueKind → VmTableValueKind → Bool
  table_kind_eq (resident v) (resident w) = walker_eq v w
  table_kind_eq (fresh x) (fresh y) = values_eq x y
  table_kind_eq _ _ = false

  pub set_kind_eq : VmSetValueKind → VmSetValueKind → Bool
  set_kind_eq (resident_set v) (resident_set w) = walker_eq v w
  set_kind_eq (fresh_set x) (fresh_set y) = members_eq x y
  set_kind_eq _ _ = false

  pub values_eq : VmValues → VmValues → Bool
  values_eq no_value no_value = true
  values_eq (value j u x) (value k v y) = str_eq j k && vm_value_eq u v && values_eq x y
  values_eq _ _ = false

  pub members_eq : VmMembers → VmMembers → Bool
  members_eq no_member no_member = true
  members_eq (member j u x) (member k v y) = bytes_eq j k && vm_value_eq u v && members_eq x y
  members_eq _ _ = false

  pub items_eq : VmItems → VmItems → Bool
  items_eq no_item no_item = true
  items_eq (item u x) (item v y) = vm_value_eq u v && items_eq x y
  items_eq _ _ = false
