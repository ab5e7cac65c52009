-- ===== src/Exec/Ends/Nodes.antt =====
-- rdb-analyzer/src/data/treewalker/exec.rs: no node reaches the end of a fuel by itself.
use refine_db.Prelude.{ℕ, String, Bool, List}
use refine_db.Value.{int64, double, string}
use refine_db.Treewalker.Values.{
  VmValue, primitive, table, set, bool, map, null, list, VmTableValueKind, resident, fresh,
  VmValues, VmMembers, VmItems, no_item, item,
}
use refine_db.Treewalker.Typeck.{TwVm}
use refine_db.Exec.Outcome.{Host, Executed}
use refine_db.Exec.Compute.{
  as_list, as_map, fresh_fields, collect_members, build_set_of, build_table_of, on_map,
  delete_from_map_of, insert_into_map_of, both_bools, not_of, add_values, sub_values, prepend_of,
  pop_of, list_head_of,
}
use refine_db.Exec.Ends.{Ends, returned, Ends-panic, Ends-throw, ends}

pub as_list-Ends : (v : VmValue) → Ends (as_list v)
as_list-Ends (list t x) = returned (t, x)
as_list-Ends _ = Ends-panic

pub fresh_fields-Ends : (k : VmTableValueKind) → Ends (fresh_fields k)
fresh_fields-Ends (fresh x) = returned x
fresh_fields-Ends (resident w) = Ends-throw _

pub collect_members-Ends :
    (k : String) (items : VmItems) (acc : VmMembers) → Ends (collect_members k items acc)
unfolding collect_members
collect_members-Ends k no_item acc = returned acc
collect_members-Ends k (item n items) acc =
    search (ends, fresh_fields-Ends, collect_members-Ends k items)

pub build_set_of-Ends : (vm : TwVm) (params : List VmValue) → Ends (build_set_of vm params)
unfolding build_set_of
build_set_of-Ends vm params = search (ends, as_list-Ends, collect_members-Ends)

pub as_map-Ends : (v : VmValue) → Ends (as_map v)
as_map-Ends (map x) = returned x
as_map-Ends _ = Ends-panic

pub build_table_of-Ends :
    (vm : TwVm) (i : ℕ) (params : List VmValue) → Ends (build_table_of vm i params)
unfolding build_table_of
build_table_of-Ends vm i params = search (ends, as_map-Ends)

pub on_map-Ends :
    (f : VmValues → Executed VmValue) (v : VmValue)
    → ((x : VmValues) → Ends (f x))
    → Ends (on_map f v)
on_map-Ends f (map x) h = h x
on_map-Ends f (null t) h = returned (null t)
on_map-Ends f (primitive x) h = Ends-panic
on_map-Ends f (table t x) h = Ends-panic
on_map-Ends f (set t x) h = Ends-panic
on_map-Ends f (bool x) h = Ends-panic
on_map-Ends f (list t x) h = Ends-panic

pub delete_from_map_of-Ends :
    (vm : TwVm) (i : ℕ) (params : List VmValue) → Ends (delete_from_map_of vm i params)
unfolding delete_from_map_of
delete_from_map_of-Ends vm i params = search (ends, on_map-Ends)

pub insert_into_map_of-Ends :
    (vm : TwVm) (i : ℕ) (params : List VmValue) → Ends (insert_into_map_of vm i params)
unfolding insert_into_map_of
insert_into_map_of-Ends vm i params = search (ends, on_map-Ends)

pub both_bools-Ends :
    (op : Bool → Bool → Bool) (params : List VmValue) → Ends (both_bools op params)
both_bools-Ends op params = search ends

pub not_of-Ends : (params : List VmValue) → Ends (not_of params)
unfolding not_of
not_of-Ends params = search ends

pub add_values-Ends : (host : Host) (v w : VmValue) → Ends (add_values host v w)
unfolding add_values
add_values-Ends host (primitive (int64 l)) (primitive (int64 r)) = returned _
add_values-Ends host (primitive (double l)) (primitive (double r)) = returned _
add_values-Ends host (primitive (string l)) (primitive (string r)) = returned _
add_values-Ends host _ _ = Ends-panic

pub sub_values-Ends : (host : Host) (v w : VmValue) → Ends (sub_values host v w)
unfolding sub_values
sub_values-Ends host (primitive (int64 l)) (primitive (int64 r)) = returned _
sub_values-Ends host (primitive (double l)) (primitive (double r)) = returned _
sub_values-Ends host _ _ = Ends-panic

pub prepend_of-Ends : (params : List VmValue) → Ends (prepend_of params)
unfolding prepend_of
prepend_of-Ends params = search (ends, as_list-Ends)

pub pop_of-Ends : (params : List VmValue) → Ends (pop_of params)
unfolding pop_of
pop_of-Ends params = search (ends, as_list-Ends)

pub list_head_of-Ends : (params : List VmValue) → Ends (list_head_of params)
unfolding list_head_of
list_head_of-Ends params = search (ends, as_list-Ends)

pub ruleset computed = (
  build_set_of-Ends, build_table_of-Ends, delete_from_map_of-Ends, insert_into_map_of-Ends,
  both_bools-Ends, not_of-Ends, add_values-Ends, sub_values-Ends, prepend_of-Ends, pop_of-Ends,
  list_head_of-Ends,
)
