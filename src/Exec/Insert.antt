-- ===== src/Exec/Insert.antt =====
-- rdb-analyzer/src/data/treewalker/exec.rs: reading a field of a table, and writing a value below a
-- walker. The operations of the in-memory store's transaction do not fail.
pub mod Below
pub mod RoundTrip
use refine_db.Prelude.{String, [], ◌++◌, Option, none, some, Result, ok, err, ◌>>=◌, ok_or, lookup}
use refine_db.Schema.{FieldType, CompiledSchema}
use refine_db.Schema
use refine_db.PathWalker.{Walker, generate_key, enter_field, enter_set_raw, set_fast_scan_prefix}
use refine_db.Treewalker.Types.{from_field_type}
use refine_db.Treewalker.Values.{
  VmValue, primitive, table, set, bool, map, null, list, VmTableValueKind, resident, fresh,
  VmSetValueKind, resident_set, fresh_set, VmValues, no_value, value, VmMembers, no_member, member,
}
use refine_db.Treewalker.Access.{value_get}
use refine_db.Kv.OrderedMap.{OrderedMap}
use refine_db.Kv.MockKv.{Entry, Transaction, put, delete, read}
use refine_db.Exec.Outcome.{
  Host, Executed, throw, undecodable, panicked, unwrap, unwrap_walked, not_implemented, text,
}
use refine_db.Exec.{delete_set}

module _ (host : Host) (m : OrderedMap Entry) where
  -- A stored primitive is loaded; tables and sets are entered later.
  unfoldable pub load_primitive : FieldType → Walker → Transaction m → Executed VmValue
  unfolding from_field_type
  load_primitive field w t = elim (read m (generate_key w) t) [
    | none ↦ ok (null (from_field_type field))
    | some raw ↦ ok_or (undecodable raw) (host.from_slice raw) >>= λ x. ok (primitive x)
  ]

  unfoldable pub read_resident : FieldType → Walker → Transaction m → Executed VmValue
  unfolding load_primitive
  read_resident (Schema.primitive p) w t = load_primitive (Schema.primitive p) w t
  read_resident (Schema.set member_ty) w t = ok (set (from_field_type member_ty) (resident_set w))
  read_resident (Schema.table x) w t = ok (table x (resident w))

  unfoldable pub read_table_element :
      CompiledSchema → String → VmTableValueKind → String → Transaction m → Executed VmValue
  unfolding read_resident
  read_table_element schema ty (fresh fields) key t = unwrap (value_get key fields)
  read_table_element schema ty (resident w) key t = do
    specialized_ty ← unwrap (lookup ty schema.types)
    (field, _) ← unwrap (lookup key specialized_ty.fields)
    w' ← unwrap_walked (enter_field w key)
    read_resident field w' t

  unfoldable mutual
    pub walk_and_insert : Walker → VmValue → Transaction m → Executed (Transaction m)
    walk_and_insert w (null _) t = ok (delete m (generate_key w) t)
    walk_and_insert w (primitive x) t = ok (put m (generate_key w) (host.to_vec x) t)
    walk_and_insert w (set _ (fresh_set members)) t = do
      t' ← unwrap_walked (delete_set m w (put m (generate_key w) [] t))
      insert_members w members t'
    walk_and_insert w (set _ (resident_set _)) t =
        throw (not_implemented (text "set copy is not implemented"))
    walk_and_insert w (table _ (fresh fields)) t =
        insert_fields w fields (put m (generate_key w) [] t)
    walk_and_insert w (table _ (resident _)) t =
        throw (not_implemented (text "table copy is not implemented"))
    walk_and_insert w (bool _) t = err panicked
    walk_and_insert w (map _) t = err panicked
    walk_and_insert w (list _ _) t = err panicked

    pub insert_members : Walker → VmMembers → Transaction m → Executed (Transaction m)
    insert_members w no_member t = ok t
    insert_members w (member primary_key v members) t = do
      prefix ← unwrap_walked (set_fast_scan_prefix w)
      element ← unwrap_walked (enter_set_raw w primary_key)
      t' ← walk_and_insert element v (put m (prefix ++ primary_key) [] t)
      insert_members w members t'

    pub insert_fields : Walker → VmValues → Transaction m → Executed (Transaction m)
    insert_fields w no_value t = ok t
    insert_fields w (value k v fields) t = do
      w' ← unwrap_walked (enter_field w k)
      t' ← walk_and_insert w' v t
      insert_fields w fields t'
