-- ===== src/Treewalker/Typeck/Examples.antt =====
-- A graph that reads a field of its parameter, type checked; and a set whose members have no primary
-- key, on which the type checker panics.
use refine_db.Prelude.{true, none, some, [], ◌∷◌, ◌≡◌, refl, ok, err, Ensures, lookup}
use refine_db.Value.{PrimitiveType}
use refine_db.Schema.{FieldType, SpecializedType, CompiledSchema, any}
use refine_db.Schema
use refine_db.Treewalker.Bytecode.{TwGraph, load_param, get_field}
use refine_db.Treewalker.Types.{
  primitive, table, set, vm_type_eq, is_covariant_from, from_field_type, set_primary_key,
  find_primary,
}
use refine_db.Treewalker.Typeck.{
  TwVm, panicked, ensure_type, edge_type, edge_types, validate_in_edges, one_edge, two_edges,
  ensure_covariant, extract_set_element_type, ident_at, table_type,
}
use refine_db.Treewalker.Typeck.Sets.{
  field_of, type_get_field, type_get_set_element, check_primary_key,
}
use refine_db.Treewalker.Typeck.Nodes.{type_node}
use refine_db.Treewalker.Typeck.Graphs.{
  check_in_edges, check_precondition, type_nodes, ensure_all, infer_param, resolve_params, types_at,
  output_node_type, check_output, typeck_graph,
}
use refine_db.Treewalker.Typeck.Topology.{IsChecked, typeck_graph-IsChecked}

abbrev int : FieldType
int = Schema.primitive PrimitiveType.int64

abbrev point_type : SpecializedType
point_type = record { name = "Point<>"; fields = ("x", (int, [])) ∷ [] }

abbrev graph : TwGraph
graph = record {
  name = "x_of";
  exported = true;
  nodes = (load_param 0, [], none) ∷ (get_field 0, 0 ∷ [], none) ∷ [];
  output = some 1;
  param_types = 0 ∷ [];
  output_type = some 1;
}

abbrev vm : TwVm
vm = record {
  schema = record { types = ("Point<>", point_type) ∷ []; exports = [] };
  graphs = graph ∷ [];
  idents = "x" ∷ [];
  consts = [];
  types = table "Point<>" ∷ primitive PrimitiveType.int64 ∷ [];
}

x_of_type_checks :
    typeck_graph vm (([] ∷ []) ∷ []) 0 []
    ≡ ok (
      record {
        params = table "Point<>" ∷ [];
        node_types = some (table "Point<>") ∷ some (primitive PrimitiveType.int64) ∷ [];
      },
      [],
    )
unfolding typeck_graph type_nodes check_in_edges check_precondition type_node type_get_field
    field_of one_edge validate_in_edges edge_types edge_type ensure_type ident_at table_type lookup
    from_field_type types_at resolve_params infer_param ensure_all output_node_type check_output
    ensure_covariant is_covariant_from vm_type_eq Schema.primitive_type_eq
x_of_type_checks = refl

typeck_graph-IsChecked_example :
    Ensures (λ (info, _). IsChecked graph info) (typeck_graph vm (([] ∷ []) ∷ []) 0 [])
typeck_graph-IsChecked_example = typeck_graph-IsChecked vm (([] ∷ []) ∷ []) 0 [] graph refl

point_get_panics :
    type_get_set_element vm
      (0 ∷ 1 ∷ [])
      (some (primitive PrimitiveType.int64) ∷ some (set (table "Point<>")) ∷ [])
    ≡ err panicked
unfolding type_get_set_element two_edges validate_in_edges edge_types edge_type ensure_type
    check_primary_key extract_set_element_type set_primary_key find_primary lookup any
point_get_panics = refl
