-- ===== src/Exec/Compute.antt =====
-- rdb-analyzer/src/data/treewalker/exec.rs: the nodes that compute a value from the values of their
-- parameters alone. A parameter that is missing, or that is not of the kind that the node needs, is
-- the panic of an index, an `unreachable!` or an `unwrap`.
use refine_db.Prelude.{
  ℕ, ◌+◌, ◌-◌, ◌%◌, ◌^◌, ltb, if◌then◌else◌, String, ◌++◌, Bool, Option, none, some, List, [], ◌∷◌,
  get_elem?, Dict, ok, err, ◌>>=◌, lookup,
}
use mathlib.Core.Bool
use refine_db.Prelude.Int.{ℤ, pos, negsuc}
use refine_db.Value.{string, int64, double, as_u64, serialize_for_key_component}
use refine_db.Schema.{FieldType, FieldAnnotation}
use refine_db.Treewalker.Types.{VmType, set_primary_key, from_field_type}
use refine_db.Treewalker.Types
use refine_db.Treewalker.Values.{
  VmValue, primitive, table, set, bool, map, null, list, VmTableValueKind, resident, fresh,
  fresh_set, VmValues, no_value, VmMembers, no_member, VmItems, no_item, item, type_of,
}
use refine_db.Treewalker.Access.{
  value_get, value_insert, value_remove, member_insert, unwrap_table, unwrap_primitive, unwrap_bool,
}
use refine_db.Treewalker.Typeck.{TwVm}
use refine_db.Exec.Outcome.{Host, Executed, panicked, throw, unwrap, not_implemented, text}

-- `params[i]`
abbrev pub param : List VmValue → ℕ → Executed VmValue
param params i = unwrap (get_elem? params i)

abbrev pub ident : TwVm → ℕ → Executed String
ident vm i = unwrap (get_elem? vm.idents i)

abbrev pub as_list : VmValue → Executed (VmType × VmItems)
as_list (list member_ty items) = ok (member_ty, items)
as_list _ = err panicked

abbrev pub as_map : VmValue → Executed VmValues
as_map (map x) = ok x
as_map _ = err panicked

abbrev pub fresh_fields : VmTableValueKind → Executed VmValues
fresh_fields (fresh fields) = ok fields
fresh_fields (resident _) = throw (not_implemented (text "table copy is not implemented"))

-- The loop of `BuildSet` over the list.
unfoldable pub collect_members : String → VmItems → VmMembers → Executed VmMembers
unfolding unwrap_table unwrap_primitive value_get
collect_members primary_key no_item members = ok members
collect_members primary_key (item n items) members = do
  (_, kind) ← unwrap (unwrap_table n)
  fields ← fresh_fields kind
  v ← unwrap (value_get primary_key fields)
  x ← unwrap (unwrap_primitive v)
  collect_members primary_key items (member_insert (serialize_for_key_component x) n members)

unfoldable pub build_set_of : TwVm → List VmValue → Executed VmValue
unfolding collect_members
build_set_of vm params = do
  p ← param params 0
  (member_ty, items) ← as_list p
  (primary_key, _) ← unwrap (set_primary_key vm.schema (Types.set member_ty))
  members ← collect_members primary_key items no_member
  ok (set member_ty (fresh_set members))

-- The loop of `BuildTable` over the fields of the type: a field that the map has not is null.
abbrev pub field_or_null : FieldType → Option VmValue → VmValue
field_or_null ty (some v) = v
field_or_null ty none = null (from_field_type ty)

unfoldable pub fill_fields :
    VmValues → Dict (FieldType × List FieldAnnotation) → VmValues → VmValues
unfolding value_get value_insert from_field_type
fill_fields elements [] acc = acc
fill_fields elements ((name, (ty, _)) ∷ fields) acc =
    fill_fields elements fields (value_insert name (field_or_null ty (value_get name elements)) acc)

unfoldable pub build_table_of : TwVm → ℕ → List VmValue → Executed VmValue
unfolding fill_fields
build_table_of vm table_ty params = do
  p ← param params 0
  elements ← as_map p
  ty ← ident vm table_ty
  specialized_ty ← unwrap (lookup ty vm.schema.types)
  ok (table ty (fresh (fill_fields elements specialized_ty.fields no_value)))

-- A map that is null is passed on.
abbrev pub on_map : (VmValues → Executed VmValue) → VmValue → Executed VmValue
on_map f (map x) = f x
on_map f (null ty) = ok (null ty)
on_map f _ = err panicked

unfoldable pub delete_from_map_of : TwVm → ℕ → List VmValue → Executed VmValue
unfolding value_remove
delete_from_map_of vm key_index params = do
  p ← param params 0
  on_map (λ elements. do key ← ident vm key_index; ok (map (value_remove key elements))) p

unfoldable pub insert_into_map_of : TwVm → ℕ → List VmValue → Executed VmValue
unfolding value_insert
insert_into_map_of vm key_index params = do
  v ← param params 0
  p ← param params 1
  on_map (λ elements. do key ← ident vm key_index; ok (map (value_insert key v elements))) p

-- The two parameters of an operator on booleans.
abbrev pub both_bools : (Bool → Bool → Bool) → List VmValue → Executed VmValue
both_bools op params = do
  p ← param params 0
  l ← unwrap (unwrap_bool p)
  q ← param params 1
  r ← unwrap (unwrap_bool q)
  ok (bool (op l r))

unfoldable pub not_of : List VmValue → Executed VmValue
not_of params = do p ← param params 0; b ← unwrap (unwrap_bool p); ok (bool (Bool.not b))

-- The `i64` of a word, and the operators that wrap around.
abbrev pub as_i64 : ℕ → ℤ
as_i64 n = if ltb n (2 ^ 63) then pos n else negsuc (2 ^ 64 - 1 - n)

unfoldable pub wrapping_add : ℤ → ℤ → ℤ
wrapping_add x y = as_i64 ((as_u64 x + as_u64 y) % 2 ^ 64)

unfoldable pub wrapping_sub : ℤ → ℤ → ℤ
wrapping_sub x y = as_i64 ((as_u64 x + (2 ^ 64 - as_u64 y)) % 2 ^ 64)

module _ (host : Host) where
  unfoldable pub add_values : VmValue → VmValue → Executed VmValue
  unfolding wrapping_add
  add_values (primitive (int64 l)) (primitive (int64 r)) = ok (primitive (int64 (wrapping_add l r)))
  add_values (primitive (double l)) (primitive (double r)) =
      ok (primitive (double (host.add_double l r)))
  add_values (primitive (string l)) (primitive (string r)) = ok (primitive (string (l ++ r)))
  add_values _ _ = err panicked

  unfoldable pub sub_values : VmValue → VmValue → Executed VmValue
  unfolding wrapping_sub
  sub_values (primitive (int64 l)) (primitive (int64 r)) = ok (primitive (int64 (wrapping_sub l r)))
  sub_values (primitive (double l)) (primitive (double r)) =
      ok (primitive (double (host.sub_double l r)))
  sub_values _ _ = err panicked

abbrev pub on_two : (VmValue → VmValue → Executed VmValue) → List VmValue → Executed VmValue
on_two op params = do p ← param params 0; q ← param params 1; op p q

unfoldable pub prepend_of : List VmValue → Executed VmValue
prepend_of params = do
  v ← param params 0
  p ← param params 1
  (member_ty, items) ← as_list p
  ok (list member_ty (item v items))

-- `drop_first`, with the null of the type that the program gives a list value.
abbrev pub popped : VmType → VmItems → VmValue
popped member_ty no_item = null (type_of (list member_ty no_item))
popped member_ty (item v items) = list member_ty items

unfoldable pub pop_of : List VmValue → Executed VmValue
unfolding type_of
pop_of params = do p ← param params 0; (member_ty, items) ← as_list p; ok (popped member_ty items)

abbrev pub head_or_null : VmType → VmItems → VmValue
head_or_null member_ty no_item = null member_ty
head_or_null member_ty (item v items) = v

unfoldable pub list_head_of : List VmValue → Executed VmValue
list_head_of params = do
  p ← param params 0
  (member_ty, items) ← as_list p
  ok (head_or_null member_ty items)
