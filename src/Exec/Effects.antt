-- ===== src/Exec/Effects.antt =====
-- rdb-analyzer/src/data/treewalker/exec.rs: the nodes that read or write the store.
use refine_db.Prelude.{
  ℕ, String, [], ◌++◌, Bool, true, false, Option, none, some, List, ok, err, ◌>>=◌,
}
use refine_db.Value.{PrimitiveValue, serialize_for_key_component}
use refine_db.PathWalker.{
  Walker, generate_key, enter_field, enter_set, enter_set_raw, set_fast_scan_prefix,
}
use refine_db.Treewalker.Types.{VmType, set_primary_key}
use refine_db.Treewalker.Types
use refine_db.Treewalker.Values.{
  VmValue, primitive, table, set, bool, map, VmTableValueKind, resident, fresh, VmSetValueKind,
  resident_set, fresh_set, type_of,
}
use refine_db.Treewalker.Access.{value_get, unwrap_table, unwrap_set, unwrap_primitive}
use refine_db.Treewalker.Typeck.{TwVm}
use refine_db.Kv.OrderedMap.{OrderedMap}
use refine_db.Kv.MockKv.{Entry, Transaction, put, read}
use refine_db.Exec.Outcome.{
  Host, Executed, panicked, throw, unwrap, unwrap_walked, fresh_table_or_set_not_supported,
}
use refine_db.Exec.Insert.{read_table_element, walk_and_insert}
use refine_db.Exec.Compute.{param, ident}
use refine_db.Exec.{delete_entry_from_set}

abbrev pub as_primitive : VmValue → Executed PrimitiveValue
as_primitive (primitive x) = ok x
as_primitive _ = err panicked

abbrev pub as_set : VmValue → Executed (VmType × VmSetValueKind)
as_set (set member_ty kind) = ok (member_ty, kind)
as_set _ = err panicked

abbrev pub as_table_name : VmType → Executed String
as_table_name (Types.table x) = ok x
as_table_name _ = err panicked

-- A table or a set that is stored: the others cannot be written.
abbrev pub stored_set : VmSetValueKind → Executed Walker
stored_set (resident_set w) = ok w
stored_set (fresh_set _) = throw fresh_table_or_set_not_supported

abbrev pub stored_table : VmTableValueKind → Executed Walker
stored_table (resident w) = ok w
stored_table (fresh _) = throw fresh_table_or_set_not_supported

unfoldable pub get_set_element_of : List VmValue → Executed VmValue
get_set_element_of params = do
  p ← param params 0
  primary_key ← as_primitive p
  q ← param params 1
  (member_ty, kind) ← as_set q
  ty ← as_table_name member_ty
  w ← stored_set kind
  element ← unwrap_walked (enter_set w primary_key)
  ok (table ty (resident element))

abbrev pub is_some {ℓ} : {A : Type ℓ} → Option A → Bool
is_some (some a) = true
is_some none = false

module _ (host : Host) (m : OrderedMap Entry) where
  -- The value of a field, of a map or of a table.
  unfoldable pub field_of : TwVm → String → VmValue → Transaction m → Executed VmValue
  unfolding value_get
  field_of vm key (map elements) t = unwrap (value_get key elements)
  field_of vm key (table ty kind) t = read_table_element host m vm.schema ty kind key t
  field_of vm key _ t = err panicked

  unfoldable pub get_field_of : TwVm → ℕ → List VmValue → Transaction m → Executed VmValue
  unfolding field_of
  get_field_of vm key_index params t = do
    key ← ident vm key_index
    p ← param params 0
    field_of vm key p t

  unfoldable pub insert_into_set_of : TwVm → List VmValue → Transaction m → Executed (Transaction m)
  unfolding unwrap_table unwrap_set unwrap_primitive
  insert_into_set_of vm params t = do
    v ← param params 0
    p ← param params 1
    (primary_key, _) ← unwrap (set_primary_key vm.schema (type_of p))
    (ty, kind) ← unwrap (unwrap_table v)
    primary_key_value ← read_table_element host m vm.schema ty kind primary_key t
    (_, set_kind) ← unwrap (unwrap_set p)
    x ← unwrap (unwrap_primitive primary_key_value)
    w ← stored_set set_kind
    prefix ← unwrap_walked (set_fast_scan_prefix w)
    element ← unwrap_walked (enter_set_raw w (serialize_for_key_component x))
    walk_and_insert host m element v (put m (prefix ++ serialize_for_key_component x) [] t)

  unfoldable pub insert_into_table_of :
      TwVm → ℕ → List VmValue → Transaction m → Executed (Transaction m)
  unfolding unwrap_table
  insert_into_table_of vm key_index params t = do
    key ← ident vm key_index
    v ← param params 0
    p ← param params 1
    (_, kind) ← unwrap (unwrap_table p)
    w ← stored_table kind
    w' ← unwrap_walked (enter_field w key)
    walk_and_insert host m w' v t

module _ (m : OrderedMap Entry) where
  unfoldable pub delete_from_set_of : List VmValue → Transaction m → Executed (Transaction m)
  delete_from_set_of params t = do
    p ← param params 0
    primary_key ← as_primitive p
    q ← param params 1
    (_, kind) ← as_set q
    w ← stored_set kind
    unwrap_walked (delete_entry_from_set m w primary_key t)

  -- Fresh values are present, and stored ones if their key is.
  unfoldable pub presence_of : VmValue → Transaction m → Executed Bool
  presence_of (set _ (fresh_set _)) t = ok true
  presence_of (set _ (resident_set w)) t = ok (is_some (read m (generate_key w) t))
  presence_of (table _ (fresh _)) t = ok true
  presence_of (table _ (resident w)) t = ok (is_some (read m (generate_key w) t))
  presence_of _ t = err panicked

  unfoldable pub is_present_of : List VmValue → Transaction m → Executed VmValue
  unfolding presence_of
  is_present_of params t = do p ← param params 0; b ← presence_of p t; ok (bool b)
