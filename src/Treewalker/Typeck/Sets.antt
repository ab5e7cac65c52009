-- ===== src/Treewalker/Typeck/Sets.antt =====
-- rdb-analyzer/src/data/treewalker/typeck.rs: the types of the nodes on maps, tables and sets.
use refine_db.Prelude.{
  ℕ, Bool, true, false, Option, none, some, String, List, lookup, ok, ◌>>=◌, ◌>>◌, ok_or, guard,
  not,
}
use refine_db.Schema.{SpecializedType, is_primary}
use refine_db.Treewalker.Bytecode.{
  build_set, build_table, delete_from_set, delete_from_map, get_field, get_set_element,
  insert_into_map, insert_into_set, insert_into_table,
}
use refine_db.Treewalker.Types.{
  VmType, MapFields, table, set, map, no_field, field, map_get, map_insert, map_remove,
  from_field_type, set_primary_key,
}
use refine_db.Treewalker.Typeck.{
  Checked, NodeTypes, TwVm, failed, panicked, fail, found, one_edge, two_edges, ensure_covariant,
  extract_list_element_type, extract_set_element_type, ident_at, table_type,
  cannot_insert_primary_key, not_map, not_table, not_map_or_table, not_set,
  cannot_build_set_from_list, field_not_present_in_map, map_field_not_present_in_table,
  field_not_present_in_table,
}

abbrev pub is_table : VmType → Bool
is_table (table x) = true
is_table _ = false

unfoldable pub type_build_set : List ℕ → NodeTypes → Checked (Option VmType)
type_build_set in_edges types = do
  list_ty ← one_edge build_set in_edges types
  element_ty ← extract_list_element_type list_ty
  guard (is_table element_ty) (failed (cannot_build_set_from_list element_ty))
  ok (some (set element_ty))

-- Every key of the value is a field of the type, and its type is as declared.
unfoldable pub check_fields : SpecializedType → MapFields → Checked (Unit {0})
check_fields table_ty no_field = ok tt
check_fields table_ty (field name actual_ty m) = elim (lookup name table_ty.fields) [
  | none ↦ fail (map_field_not_present_in_table name table_ty.name)
  | some (field_ty, _) ↦
      ensure_covariant (from_field_type field_ty) actual_ty >> check_fields table_ty m
]

abbrev pub as_map : VmType → Checked MapFields
as_map (map x) = ok x
as_map t = fail (not_map t)

abbrev pub as_table : VmType → Checked String
as_table (table x) = ok x
as_table t = fail (not_table t)

unfoldable pub type_build_table : TwVm → ℕ → List ℕ → NodeTypes → Checked (Option VmType)
type_build_table vm ident in_edges types = do
  map_ty ← one_edge (build_table ident) in_edges types
  name ← ident_at vm ident
  table_ty ← table_type vm name
  x ← as_map map_ty
  check_fields table_ty x
  ok (some (table table_ty.name))

-- The checks on the primary key that a point access names; the `unwrap` of its field may panic.
unfoldable pub check_primary_key : TwVm → VmType → VmType → Checked VmType
check_primary_key vm primary_key_value_ty set_ty = do
  set_member_ty ← extract_set_element_type set_ty
  (key, _) ← ok_or panicked (set_primary_key vm.schema set_ty)
  x ← as_table set_member_ty
  table_ty ← table_type vm x
  (field_ty, _) ← found (field_not_present_in_table key table_ty.name) (lookup key table_ty.fields)
  ensure_covariant (from_field_type field_ty) primary_key_value_ty
  ok set_member_ty

unfoldable pub type_delete_from_set : TwVm → List ℕ → NodeTypes → Checked (Option VmType)
type_delete_from_set vm in_edges types = do
  (primary_key_value_ty, set_ty) ← two_edges delete_from_set in_edges types
  check_primary_key vm primary_key_value_ty set_ty
  ok none

unfoldable pub type_get_set_element : TwVm → List ℕ → NodeTypes → Checked (Option VmType)
type_get_set_element vm in_edges types = do
  (primary_key_value_ty, set_ty) ← two_edges get_set_element in_edges types
  set_member_ty ← check_primary_key vm primary_key_value_ty set_ty
  ok (some set_member_ty)

unfoldable pub type_delete_from_map : TwVm → ℕ → List ℕ → NodeTypes → Checked (Option VmType)
type_delete_from_map vm ident in_edges types = do
  map_ty ← one_edge (delete_from_map ident) in_edges types
  key ← ident_at vm ident
  x ← as_map map_ty
  ok (some (map (map_remove key x)))

unfoldable pub field_of : TwVm → String → VmType → Checked VmType
field_of vm key (map x) = found (field_not_present_in_map key) (map_get key x)
field_of vm key (table x) = do
  table_ty ← table_type vm x
  (field_ty, _) ← found (field_not_present_in_table key table_ty.name) (lookup key table_ty.fields)
  ok (from_field_type field_ty)
field_of vm key t = fail (not_map_or_table t)

unfoldable pub type_get_field : TwVm → ℕ → List ℕ → NodeTypes → Checked (Option VmType)
type_get_field vm ident in_edges types = do
  map_or_table_ty ← one_edge (get_field ident) in_edges types
  key ← ident_at vm ident
  t ← field_of vm key map_or_table_ty
  ok (some t)

unfoldable pub type_insert_into_map : TwVm → ℕ → List ℕ → NodeTypes → Checked (Option VmType)
type_insert_into_map vm ident in_edges types = do
  (value_ty, map_ty) ← two_edges (insert_into_map ident) in_edges types
  key ← ident_at vm ident
  x ← as_map map_ty
  ok (some (map (map_insert key value_ty x)))

abbrev pub as_set : VmType → Checked VmType
as_set (set x) = ok x
as_set t = fail (not_set t)

unfoldable pub type_insert_into_set : List ℕ → NodeTypes → Checked (Option VmType)
type_insert_into_set in_edges types = do
  (value_ty, set_ty) ← two_edges insert_into_set in_edges types
  x ← as_set set_ty
  ensure_covariant x value_ty
  ok none

unfoldable pub type_insert_into_table : TwVm → ℕ → List ℕ → NodeTypes → Checked (Option VmType)
type_insert_into_table vm ident in_edges types = do
  (value_ty, t) ← two_edges (insert_into_table ident) in_edges types
  key ← ident_at vm ident
  x ← as_table t
  table_ty ← table_type vm x
  (field_ty, field_annotations) ←
      found (field_not_present_in_table key table_ty.name) (lookup key table_ty.fields)
  guard (not (is_primary field_annotations)) (failed cannot_insert_primary_key)
  ensure_covariant (from_field_type field_ty) value_ty
  ok none
