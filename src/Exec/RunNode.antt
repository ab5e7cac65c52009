-- ===== src/Exec/RunNode.antt =====
-- rdb-analyzer/src/data/treewalker/exec.rs: `run_node`.
use mathlib.Core.Option
use mathlib.Core.Bool
use refine_db.Prelude.{
  Bool, true, false, ◌&&◌, Option, none, some, List, [], ◌∷◌, get_elem?, ok, err, ◌>>=◌,
  if◌then◌else◌,
}
use refine_db.Value.{unwrap_string}
use refine_db.Treewalker.Bytecode.{
  TwGraphNode, load_param, load_const, build_table, build_set, create_map, create_list,
  prepend_to_list, pop_from_list, list_head, reduce, get_field, get_set_element, filter_set,
  insert_into_map, insert_into_table, insert_into_set, delete_from_set, delete_from_map, and, or,
  not, select, is_present, nop, call, add, sub, eq, ne, is_optional_chained,
}
use refine_db.Treewalker.Bytecode
use refine_db.Treewalker.Types.{VmType}
use refine_db.Treewalker.Values.{VmValue, bool, map, null, list, no_value, no_item, is_null}
use refine_db.Treewalker.Access.{unwrap_primitive}
use refine_db.Treewalker.Equality.{vm_value_eq}
use refine_db.Treewalker.Typeck.{TwVm}
use refine_db.Kv.OrderedMap.{OrderedMap}
use refine_db.Kv.MockKv.{Entry, Transaction}
use refine_db.Exec.Outcome.{
  Host, Executed, panicked, throw, unwrap, not_implemented, shown, script_thrown_null,
  script_thrown_error,
}
use refine_db.Exec.Compute.{
  param, both_bools, on_two, build_set_of, build_table_of, delete_from_map_of, insert_into_map_of,
  not_of, add_values, sub_values, prepend_of, pop_of, list_head_of,
}
use refine_db.Exec.Effects.{
  get_set_element_of, get_field_of, insert_into_set_of, insert_into_table_of, delete_from_set_of,
  is_present_of,
}
use refine_db.Exec.Reduce.{Machine, Subgraph, reduce_of}

unfoldable pub any_null : List VmValue → Bool
unfolding is_null
any_null [] = false
any_null (v ∷ vs) = if is_null v then true else any_null vs

module _ {m : OrderedMap Entry} where
  -- A node that gives a value, and one that only writes.
  abbrev pub gives : Executed VmValue → Machine m → Executed (Option VmValue × Machine m)
  gives r s = r >>= λ v. ok (some v, s)

  abbrev pub writes : Executed (Transaction m) → Machine m → Executed (Option VmValue × Machine m)
  writes r s = r >>= λ t. ok (none, record s { txn = t })

unfoldable pub throw_of : {A : Type 0} → List VmValue → Executed A
unfolding is_null unwrap_primitive unwrap_string
throw_of params = param params 0 >>= λ msg.
    if is_null msg
    then throw script_thrown_null
    else (unwrap (unwrap_primitive msg) >>= λ x.
        unwrap (unwrap_string x) >>= λ message. throw (script_thrown_error message))

-- What surrounds the evaluation of a node: the graph's parameters, the type of the node, and the run
-- of a subgraph one level deeper.
pub record Context (m : OrderedMap Entry) : Type 0 where
  pub vm : TwVm
  pub graph_params : List VmValue
  pub go : Subgraph m

module _ (host : Host) {m : OrderedMap Entry} (cx : Context m) where
  -- The node itself, behind the optional chaining.
  unfoldable pub evaluate :
      TwGraphNode → List VmValue → Option VmType → Machine m → Executed (Option VmValue × Machine m)
  unfolding build_set_of build_table_of delete_from_map_of insert_into_map_of not_of add_values
      sub_values prepend_of pop_of list_head_of get_set_element_of get_field_of insert_into_set_of
      insert_into_table_of delete_from_set_of is_present_of reduce_of throw_of is_null vm_value_eq
  evaluate build_set params type_info s = gives (build_set_of cx.vm params) s
  evaluate (build_table i) params type_info s = gives (build_table_of cx.vm i params) s
  evaluate create_map params type_info s = ok (some (map no_value), s)
  evaluate (delete_from_map i) params type_info s = gives (delete_from_map_of cx.vm i params) s
  evaluate (get_field i) params type_info s = gives (get_field_of host m cx.vm i params s.txn) s
  evaluate get_set_element params type_info s = gives (get_set_element_of params) s
  evaluate (insert_into_map i) params type_info s = gives (insert_into_map_of cx.vm i params) s
  evaluate insert_into_set params type_info s =
      writes (insert_into_set_of host m cx.vm params s.txn) s
  evaluate (insert_into_table i) params type_info s =
      writes (insert_into_table_of host m cx.vm i params s.txn) s
  evaluate (load_const i) params type_info s = gives (unwrap (get_elem? cx.vm.consts i)) s
  evaluate (load_param i) params type_info s = gives (unwrap (get_elem? cx.graph_params i)) s
  evaluate delete_from_set params type_info s = writes (delete_from_set_of m params s.txn) s
  evaluate eq params type_info s = gives (on_two (λ p q. ok (bool (vm_value_eq p q))) params) s
  evaluate ne params type_info s =
      gives (on_two (λ p q. ok (bool (Bool.not (vm_value_eq p q)))) params) s
  evaluate and params type_info s = gives (both_bools (λ a b. Bool.◌&&◌ a b) params) s
  evaluate or params type_info s = gives (both_bools (λ a b. Bool.◌||◌ a b) params) s
  evaluate not params type_info s = gives (not_of params) s
  evaluate is_present params type_info s = gives (is_present_of m params s.txn) s
  evaluate Bytecode.is_null params type_info s =
      gives (param params 0 >>= λ p. ok (bool (is_null p))) s
  evaluate nop params type_info s = gives (param params 0) s
  evaluate (call g) params type_info s = cx.go g params s
  evaluate add params type_info s = gives (on_two (add_values host) params) s
  evaluate sub params type_info s = gives (on_two (sub_values host) params) s
  evaluate (create_list i) params type_info s =
      gives (unwrap (get_elem? cx.vm.types i) >>= λ member_ty. ok (list member_ty no_item)) s
  evaluate prepend_to_list params type_info s = gives (prepend_of params) s
  evaluate pop_from_list params type_info s = gives (pop_of params) s
  evaluate list_head params type_info s = gives (list_head_of params) s
  evaluate select params type_info s = err panicked
  evaluate (filter_set g) params type_info s = throw (not_implemented (shown (filter_set g)))
  evaluate (reduce g has_range) params type_info s =
      reduce_of cx.go cx.vm g has_range params type_info s
  evaluate Bytecode.throw params type_info s = throw_of params

  unfoldable pub run_node :
      TwGraphNode → List VmValue → Option VmType → Machine m → Executed (Option VmValue × Machine m)
  unfolding is_optional_chained any_null evaluate
  run_node n params type_info s =
      if is_optional_chained n && any_null params
      then ok (Option.map null type_info, s)
      else evaluate n params type_info s
