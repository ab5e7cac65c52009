-- ===== src/Exec/Ends/Effects.antt =====
-- rdb-analyzer/src/data/treewalker/exec.rs: reads and writes of the store do not reach the end of a fuel.
use refine_db.Prelude.{ℕ, String, Bytes, List, [], ◌++◌, Option-cases, inl, inr}
use refine_db.Schema.{FieldType, CompiledSchema}
use refine_db.Schema
use refine_db.PathWalker.{Walker, generate_key, enter_field, enter_set_raw, set_fast_scan_prefix}
use refine_db.Treewalker.Types.{VmType, from_field_type}
use refine_db.Treewalker.Types
use refine_db.Treewalker.Values.{
  VmValue, primitive, table, set, bool, map, null, list, VmTableValueKind, resident, fresh,
  VmSetValueKind, resident_set, fresh_set, VmValues, no_value, value, VmMembers, no_member, member,
}
use refine_db.Treewalker.Typeck.{TwVm}
use refine_db.Kv.OrderedMap.{OrderedMap}
use refine_db.Kv.MockKv.{Entry, Transaction, read, put}
use refine_db.Exec.Outcome.{Host}
use refine_db.Exec.Insert.{
  load_primitive, read_resident, read_table_element, walk_and_insert, insert_members, insert_fields,
}
use refine_db.Exec.Effects.{
  as_primitive, as_set, as_table_name, stored_set, stored_table, get_set_element_of, field_of,
  get_field_of, insert_into_set_of, insert_into_table_of, delete_from_set_of, presence_of,
  is_present_of,
}
use refine_db.Exec.{delete_set}
use refine_db.Exec.Ends.{
  Ends, returned, Ends-bind, Ends-panic, Ends-throw, Ends-decoded, ends, Ends-unwrap,
  Ends-unwrap_walked,
}

as_primitive-Ends : (v : VmValue) → Ends (as_primitive v)
as_primitive-Ends (primitive x) = returned x
as_primitive-Ends _ = Ends-panic

as_set-Ends : (v : VmValue) → Ends (as_set v)
as_set-Ends (set t x) = returned (t, x)
as_set-Ends _ = Ends-panic

pub as_table_name-Ends : (t : VmType) → Ends (as_table_name t)
as_table_name-Ends (Types.table x) = returned x
as_table_name-Ends _ = Ends-panic

pub stored_set-Ends : (k : VmSetValueKind) → Ends (stored_set k)
stored_set-Ends (resident_set w) = returned w
stored_set-Ends (fresh_set x) = Ends-throw _

stored_table-Ends : (k : VmTableValueKind) → Ends (stored_table k)
stored_table-Ends (resident w) = returned w
stored_table-Ends (fresh x) = Ends-throw _

pub get_set_element_of-Ends : (params : List VmValue) → Ends (get_set_element_of params)
unfolding get_set_element_of
get_set_element_of-Ends params =
    search (ends, as_primitive-Ends, as_set-Ends, as_table_name-Ends, stored_set-Ends) depth 10

module _ (host : Host) (m : OrderedMap Entry) where
  load_primitive-Ends :
      (f : FieldType) (w : Walker) (t : Transaction m) → Ends (load_primitive host m f w t)
  unfolding load_primitive
  load_primitive-Ends f w t = elim (Option-cases (read m (generate_key w) t)) [
    | inl gap ↦ rw (gap, load_primitive) (returned _)
    | inr (raw, e) ↦ rw (e, load_primitive) (search (ends, Ends-decoded))
  ]

  read_resident-Ends :
      (f : FieldType) (w : Walker) (t : Transaction m) → Ends (read_resident host m f w t)
  unfolding read_resident
  read_resident-Ends (Schema.primitive p) w t = load_primitive-Ends (Schema.primitive p) w t
  read_resident-Ends (Schema.set f) w t = returned _
  read_resident-Ends (Schema.table x) w t = returned _

  read_table_element-Ends :
      (schema : CompiledSchema) (ty : String) (kind : VmTableValueKind) (key : String)
      (t : Transaction m)
      → Ends (read_table_element host m schema ty kind key t)
  unfolding read_table_element
  read_table_element-Ends schema ty (fresh fields) key t = search ends
  read_table_element-Ends schema ty (resident w) key t = search (ends, read_resident-Ends)

  mutual
    unfolding walk_and_insert insert_members insert_fields

    walk_and_insert-Ends :
        (w : Walker) (v : VmValue) (t : Transaction m) → Ends (walk_and_insert host m w v t)
    walk_and_insert-Ends w (null _) t = returned _
    walk_and_insert-Ends w (primitive x) t = returned _
    walk_and_insert-Ends w (set _ (fresh_set members)) t =
        Ends-bind {A = Transaction m}
          (Ends-unwrap_walked (delete_set m w (put m (generate_key w) [] t)))
          (insert_members-Ends w members)
    walk_and_insert-Ends w (set _ (resident_set _)) t = Ends-throw _
    walk_and_insert-Ends w (table _ (fresh fields)) t = insert_fields-Ends w fields _
    walk_and_insert-Ends w (table _ (resident _)) t = Ends-throw _
    walk_and_insert-Ends w (bool _) t = Ends-panic
    walk_and_insert-Ends w (map _) t = Ends-panic
    walk_and_insert-Ends w (list _ _) t = Ends-panic

    insert_members-Ends :
        (w : Walker) (members : VmMembers) (t : Transaction m)
        → Ends (insert_members host m w members t)
    insert_members-Ends w no_member t = returned t
    insert_members-Ends w (member k v members) t =
        Ends-bind {A = Bytes} (Ends-unwrap_walked (set_fast_scan_prefix w)) λ prefix.
          Ends-bind {A = Walker} (Ends-unwrap_walked (enter_set_raw w k)) λ element.
            Ends-bind {A = Transaction m}
              (walk_and_insert-Ends element v (put m (prefix ++ k) [] t))
              (insert_members-Ends w members)

    insert_fields-Ends :
        (w : Walker) (fields : VmValues) (t : Transaction m)
        → Ends (insert_fields host m w fields t)
    insert_fields-Ends w no_value t = returned t
    insert_fields-Ends w (value k v fields) t =
        Ends-bind {A = Walker} (Ends-unwrap_walked (enter_field w k)) λ w'.
          Ends-bind {A = Transaction m} (walk_and_insert-Ends w' v t) (insert_fields-Ends w fields)

  field_of-Ends :
      (vm : TwVm) (key : String) (v : VmValue) (t : Transaction m)
      → Ends (field_of host m vm key v t)
  unfolding field_of
  field_of-Ends vm key (map x) t = Ends-unwrap _
  field_of-Ends vm key (table ty kind) t = read_table_element-Ends vm.schema ty kind key t
  field_of-Ends vm key _ t = Ends-panic

  pub get_field_of-Ends :
      (vm : TwVm) (i : ℕ) (params : List VmValue) (t : Transaction m)
      → Ends (get_field_of host m vm i params t)
  unfolding get_field_of
  get_field_of-Ends vm i params t = search (ends, field_of-Ends)

  pub insert_into_set_of-Ends :
      (vm : TwVm) (params : List VmValue) (t : Transaction m)
      → Ends (insert_into_set_of host m vm params t)
  unfolding insert_into_set_of
  insert_into_set_of-Ends vm params t =
      search (ends, read_table_element-Ends, stored_set-Ends, walk_and_insert-Ends) depth 14

  pub insert_into_table_of-Ends :
      (vm : TwVm) (i : ℕ) (params : List VmValue) (t : Transaction m)
      → Ends (insert_into_table_of host m vm i params t)
  unfolding insert_into_table_of
  insert_into_table_of-Ends vm i params t =
      search (ends, stored_table-Ends, walk_and_insert-Ends) depth 10

module _ (m : OrderedMap Entry) where
  pub delete_from_set_of-Ends :
      (params : List VmValue) (t : Transaction m) → Ends (delete_from_set_of m params t)
  unfolding delete_from_set_of
  delete_from_set_of-Ends params t =
      search (ends, as_primitive-Ends, as_set-Ends, stored_set-Ends) depth 10

  presence_of-Ends : (v : VmValue) (t : Transaction m) → Ends (presence_of m v t)
  unfolding presence_of
  presence_of-Ends (set _ (fresh_set _)) t = returned _
  presence_of-Ends (set _ (resident_set w)) t = returned _
  presence_of-Ends (table _ (fresh _)) t = returned _
  presence_of-Ends (table _ (resident w)) t = returned _
  presence_of-Ends _ t = Ends-panic

  pub is_present_of-Ends :
      (params : List VmValue) (t : Transaction m) → Ends (is_present_of m params t)
  unfolding is_present_of
  is_present_of-Ends params t = search (ends, presence_of-Ends)
