-- ===== src/Treewalker/Typeck.antt =====
-- rdb-analyzer/src/data/treewalker/typeck.rs: the errors and the helpers of the type checker. Where an
-- error of the program carries the text of a type, a node or a name, it carries the thing itself here.
pub mod Sets
pub mod Calls
pub mod Nodes
pub mod Graphs
pub mod Topology
pub mod Script
mod Examples
use refine_db.Prelude.{
  ℕ, ◌==◌, Bool, true, false, Option, none, some, String, List, [], ◌∷◌, length, get_elem?, Result,
  ok, err, ◌>>=◌, ok_or, guard, if◌then◌else◌, lookup,
}
use refine_db.Schema.{CompiledSchema, SpecializedType}
use refine_db.Treewalker.Bytecode.{TwGraph, TwGraphNode}
use refine_db.Treewalker.Types.{VmType, list, set, vm_type_eq, is_covariant_from}
use refine_db.Treewalker.Values.{VmValue}

pub data TypeckError : Type 0 where
  invalid_in_edge invalid_precondition const_index_oob ident_index_oob param_index_oob : TypeckError
  type_index_oob subgraph_index_oob expecting_typed_node graph_output_index_oob : TypeckError
  param_type_index_oob output_type_index_oob output_node_index_oob : TypeckError
  missing_output_from_reduce cannot_insert_primary_key range_reduce_on_non_set : TypeckError
  in_edge_count_mismatch : ℕ → TwGraphNode → ℕ → TypeckError
  expecting_list expecting_set not_map not_table not_map_or_table not_set : VmType → TypeckError
  presence_check_on_unsupported_type cannot_build_set_from_list not_list : VmType → TypeckError
  not_list_or_set : VmType → TypeckError
  non_covariant_types non_equal_types select_type_mismatch : VmType → VmType → TypeckError
  bad_binop_operands invalid_list_prepend : VmType → VmType → TypeckError
  table_type_not_found field_not_present_in_map : String → TypeckError
  map_field_not_present_in_table field_not_present_in_table : String → String → TypeckError
  output_type_mismatch : Option VmType → Option VmType → TypeckError
  expecting_bool_output_for_filter_subgraphs : Option VmType → TypeckError
  unknown_param_type_not_resolved : ℕ → ℕ → TypeckError
  multiple_param_type_candidates : ℕ → ℕ → List VmType → TypeckError
  param_count_mismatch : String → ℕ → ℕ → TypeckError

-- An error of the program, or the panic of an index, an `unwrap` or an `assert`.
pub data Stop : Type 0 where
  failed : TypeckError → Stop
  panicked : Stop

abbrev pub Checked : Type 0 → Type 0
Checked = Result Stop

-- What the type checker reads of `TwVm` and of its script.
pub record TwVm : Type 0 where
  pub schema : CompiledSchema
  pub graphs : List TwGraph
  pub idents : List String
  pub consts : List VmValue
  pub types : List VmType

abbrev pub NodeTypes : Type 0
NodeTypes = List (Option VmType)

abbrev pub fail : {A : Type 0} → TypeckError → Checked A
fail e = err (failed e)

abbrev pub found : {A : Type 0} → TypeckError → Option A → Checked A
found e o = ok_or (failed e) o

unfoldable pub ensure_type : Option VmType → Checked VmType
ensure_type (some t) = ok t
ensure_type none = fail expecting_typed_node

-- `types[edge]`, where an index out of range is a panic.
unfoldable pub edge_type : NodeTypes → ℕ → Checked VmType
unfolding ensure_type
edge_type types edge = elim (get_elem? types edge) [ none ↦ err panicked | some t ↦ ensure_type t ]

unfoldable pub edge_types : NodeTypes → List ℕ → Checked (List VmType)
unfolding edge_type
edge_types types [] = ok []
edge_types types (e ∷ es) = do t ← edge_type types e; ts ← edge_types types es; ok (t ∷ ts)

unfoldable pub validate_in_edges : ℕ → TwGraphNode → List ℕ → NodeTypes → Checked (List VmType)
unfolding edge_types
validate_in_edges n node in_edges types =
    if n == length in_edges
    then edge_types types in_edges
    else fail (in_edge_count_mismatch n node (length in_edges))

-- The arrays of one and two types; the other lengths cannot be.
unfoldable pub one_edge : TwGraphNode → List ℕ → NodeTypes → Checked VmType
unfolding validate_in_edges
one_edge node in_edges types = validate_in_edges 1 node in_edges types >>= first
  where
    first : List VmType → Checked VmType
    first (t ∷ []) = ok t
    first _ = err panicked

unfoldable pub two_edges : TwGraphNode → List ℕ → NodeTypes → Checked (VmType × VmType)
unfolding validate_in_edges
two_edges node in_edges types = validate_in_edges 2 node in_edges types >>= pair
  where
    pair : List VmType → Checked (VmType × VmType)
    pair (t ∷ u ∷ []) = ok (t, u)
    pair _ = err panicked

unfoldable pub ensure_covariant : VmType → VmType → Checked (Unit {0})
ensure_covariant dst src = guard (is_covariant_from dst src) (failed (non_covariant_types dst src))

unfoldable pub ensure_type_eq : VmType → VmType → Checked (Unit {0})
ensure_type_eq dst src = guard (vm_type_eq dst src) (failed (non_equal_types dst src))

unfoldable pub extract_list_element_type : VmType → Checked VmType
extract_list_element_type (list t) = ok t
extract_list_element_type t = fail (expecting_list t)

unfoldable pub extract_set_element_type : VmType → Checked VmType
extract_set_element_type (set t) = ok t
extract_set_element_type t = fail (expecting_set t)

unfoldable pub ident_at : TwVm → ℕ → Checked String
ident_at vm i = found ident_index_oob (get_elem? vm.idents i)

unfoldable pub table_type : TwVm → String → Checked SpecializedType
table_type vm name = found (table_type_not_found name) (lookup name vm.schema.types)
