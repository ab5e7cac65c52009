-- ===== src/Treewalker/Typeck/Nodes.antt =====
-- rdb-analyzer/src/data/treewalker/typeck.rs: the type of each node, from the types of those before it.
use refine_db.Prelude.{
  ℕ, Bool, true, false, Option, none, some, List, get_elem?, ok, ◌>>=◌, ◌>>◌, guard,
}
use refine_db.Value.{PrimitiveType}
use refine_db.Treewalker.Bytecode.{
  TwGraphNode, load_param, load_const, build_table, build_set, create_map, create_list,
  prepend_to_list, pop_from_list, list_head, reduce, get_field, get_set_element, filter_set,
  insert_into_map, insert_into_table, insert_into_set, delete_from_set, delete_from_map, and, or,
  not, select, is_present, is_null, nop, call, add, sub, throw, eq, ne,
}
use refine_db.Treewalker.Types.{
  VmType, primitive, table, set, bool, list, map, no_field, vm_type_eq, is_covariant_from,
}
use refine_db.Treewalker.Values.{type_of}
use refine_db.Treewalker.Typeck.Sets.{
  type_build_set, type_build_table, type_delete_from_set, type_delete_from_map, type_get_field,
  type_get_set_element, type_insert_into_map, type_insert_into_set, type_insert_into_table,
}
use refine_db.Treewalker.Typeck.Calls.{Sink, Typed, type_filter_set, type_call, type_reduce}
use refine_db.Treewalker.Typeck.{
  Checked, NodeTypes, TwVm, failed, fail, found, one_edge, two_edges, validate_in_edges,
  ensure_covariant, ensure_type_eq, const_index_oob, param_index_oob, type_index_oob,
  presence_check_on_unsupported_type, not_list, select_type_mismatch, bad_binop_operands,
  invalid_list_prepend,
}

unfoldable pub type_comparison : TwGraphNode → List ℕ → NodeTypes → Checked (Option VmType)
type_comparison node in_edges types = do
  (left, right) ← two_edges node in_edges types
  ensure_covariant left right
  ok (some bool)

unfoldable pub type_connective : TwGraphNode → List ℕ → NodeTypes → Checked (Option VmType)
type_connective node in_edges types = do
  (left, right) ← two_edges node in_edges types
  ensure_type_eq left bool
  ensure_type_eq right bool
  ok (some bool)

unfoldable pub type_not : List ℕ → NodeTypes → Checked (Option VmType)
type_not in_edges types = do x ← one_edge not in_edges types; ensure_type_eq x bool; ok (some bool)

unfoldable pub type_select : List ℕ → NodeTypes → Checked (Option VmType)
type_select in_edges types = do
  (left, right) ← two_edges select in_edges types
  guard (vm_type_eq left right) (failed (select_type_mismatch left right))
  ok (some left)

abbrev pub is_set_or_table : VmType → Bool
is_set_or_table (set t) = true
is_set_or_table (table x) = true
is_set_or_table _ = false

unfoldable pub type_is_present : List ℕ → NodeTypes → Checked (Option VmType)
type_is_present in_edges types = do
  x ← one_edge is_present in_edges types
  guard (is_set_or_table x) (failed (presence_check_on_unsupported_type x))
  ok (some bool)

unfoldable pub add_type : VmType → VmType → Checked VmType
add_type (primitive PrimitiveType.int64) (primitive PrimitiveType.int64) =
    ok (primitive PrimitiveType.int64)
add_type (primitive PrimitiveType.double) (primitive PrimitiveType.double) =
    ok (primitive PrimitiveType.double)
add_type (primitive PrimitiveType.string) (primitive PrimitiveType.string) =
    ok (primitive PrimitiveType.string)
add_type l r = fail (bad_binop_operands l r)

unfoldable pub sub_type : VmType → VmType → Checked VmType
sub_type (primitive PrimitiveType.int64) (primitive PrimitiveType.int64) =
    ok (primitive PrimitiveType.int64)
sub_type (primitive PrimitiveType.double) (primitive PrimitiveType.double) =
    ok (primitive PrimitiveType.double)
sub_type l r = fail (bad_binop_operands l r)

unfoldable pub type_binop :
    TwGraphNode → (VmType → VmType → Checked VmType) → List ℕ → NodeTypes → Checked (Option VmType)
type_binop node op in_edges types = do
  (l, r) ← two_edges node in_edges types
  t ← op l r
  ok (some t)

abbrev pub accepts : VmType → VmType → Bool
accepts (list t) value = is_covariant_from t value
accepts _ value = false

unfoldable pub type_prepend_to_list : List ℕ → NodeTypes → Checked (Option VmType)
type_prepend_to_list in_edges types = do
  (value, l) ← two_edges prepend_to_list in_edges types
  guard (accepts l value) (failed (invalid_list_prepend l value))
  ok (some l)

abbrev pub item_of : VmType → Checked VmType
item_of (list t) = ok t
item_of t = fail (not_list t)

unfoldable pub type_pop_from_list : List ℕ → NodeTypes → Checked (Option VmType)
type_pop_from_list in_edges types = do
  l ← one_edge pop_from_list in_edges types
  item_of l
  ok (some l)

unfoldable pub type_list_head : List ℕ → NodeTypes → Checked (Option VmType)
type_list_head in_edges types = do l ← one_edge list_head in_edges types; t ← item_of l; ok (some t)

unfoldable pub type_throw : List ℕ → NodeTypes → Checked (Option VmType)
type_throw in_edges types = do
  msg ← one_edge throw in_edges types
  ensure_type_eq (primitive PrimitiveType.string) msg
  ok none

-- A node that calls no subgraph leaves the sink alone.
abbrev pub keep : Sink → Checked (Option VmType) → Typed
keep sink r = r >>= λ t. ok (t, sink)

unfoldable pub type_node : TwVm → List VmType → TwGraphNode → List ℕ → NodeTypes → Sink → Typed
type_node vm params build_set es ts sink = keep sink (type_build_set es ts)
type_node vm params (build_table i) es ts sink = keep sink (type_build_table vm i es ts)
type_node vm params (create_list i) es ts sink =
    keep sink (found type_index_oob (get_elem? vm.types i) >>= λ t. ok (some (list t)))
type_node vm params create_map es ts sink = ok (some (map no_field), sink)
type_node vm params delete_from_set es ts sink = keep sink (type_delete_from_set vm es ts)
type_node vm params (delete_from_map i) es ts sink = keep sink (type_delete_from_map vm i es ts)
type_node vm params (get_field i) es ts sink = keep sink (type_get_field vm i es ts)
type_node vm params get_set_element es ts sink = keep sink (type_get_set_element vm es ts)
type_node vm params (filter_set g) es ts sink = type_filter_set vm g es ts sink
type_node vm params (insert_into_map i) es ts sink = keep sink (type_insert_into_map vm i es ts)
type_node vm params insert_into_set es ts sink = keep sink (type_insert_into_set es ts)
type_node vm params (insert_into_table i) es ts sink = keep sink (type_insert_into_table vm i es ts)
type_node vm params (load_const i) es ts sink = keep sink (
    validate_in_edges 0 (load_const i) es ts >>= λ _.
    found const_index_oob (get_elem? vm.consts i) >>= λ v. ok (some (type_of v)))
type_node vm params (load_param i) es ts sink =
    keep sink (found param_index_oob (get_elem? params i) >>= λ t. ok (some t))
type_node vm params eq es ts sink = keep sink (type_comparison eq es ts)
type_node vm params ne es ts sink = keep sink (type_comparison ne es ts)
type_node vm params and es ts sink = keep sink (type_connective and es ts)
type_node vm params or es ts sink = keep sink (type_connective or es ts)
type_node vm params not es ts sink = keep sink (type_not es ts)
type_node vm params select es ts sink = keep sink (type_select es ts)
type_node vm params is_present es ts sink = keep sink (type_is_present es ts)
type_node vm params is_null es ts sink = keep sink (one_edge is_null es ts >>= λ _. ok (some bool))
type_node vm params nop es ts sink = keep sink (one_edge nop es ts >>= λ t. ok (some t))
type_node vm params (call g) es ts sink = type_call vm g es ts sink
type_node vm params add es ts sink = keep sink (type_binop add add_type es ts)
type_node vm params sub es ts sink = keep sink (type_binop sub sub_type es ts)
type_node vm params prepend_to_list es ts sink = keep sink (type_prepend_to_list es ts)
type_node vm params pop_from_list es ts sink = keep sink (type_pop_from_list es ts)
type_node vm params list_head es ts sink = keep sink (type_list_head es ts)
type_node vm params (reduce g has_range) es ts sink = type_reduce vm g has_range es ts sink
type_node vm params throw es ts sink = keep sink (type_throw es ts)
