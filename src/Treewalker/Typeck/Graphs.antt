-- ===== src/Treewalker/Typeck/Graphs.antt =====
-- rdb-analyzer/src/data/treewalker/typeck.rs: the loop over the nodes of a graph, and the type checker of
-- a script, over the strongly connected components of its call graph.
use refine_db.Prelude.{
  ℕ, ◌+◌, ltb, Bool, true, Option, none, some, List, [], ◌∷◌, ◌++◌, length, get_elem?, ok, err,
  ◌>>=◌, ◌>>◌, ok_or, guard,
}
use refine_db.Treewalker.Bytecode.{TwGraph, TwGraphNode}
use refine_db.Treewalker.Types.{VmType, unknown, schema, bool, vm_type_eq, from_schema}
use refine_db.Treewalker.Typeck.Calls.{Sink}
use refine_db.Treewalker.Typeck.Nodes.{type_node}
use refine_db.Treewalker.Typeck.{
  Checked, NodeTypes, TwVm, failed, panicked, fail, found, ensure_type, ensure_covariant,
  TypeckError, invalid_in_edge, invalid_precondition, graph_output_index_oob, param_type_index_oob,
  output_type_index_oob, output_node_index_oob, output_type_mismatch,
  unknown_param_type_not_resolved, multiple_param_type_candidates,
}

abbrev pub Node : Type 0
Node = TwGraphNode × List ℕ × Option ℕ

unfoldable pub check_in_edges : ℕ → List ℕ → Checked (Unit {0})
check_in_edges i [] = ok tt
check_in_edges i (j ∷ js) = guard (ltb j i) (failed invalid_in_edge) >> check_in_edges i js

-- An effect node or a boolean node.
abbrev pub is_effect_or_bool : Option VmType → Bool
is_effect_or_bool none = true
is_effect_or_bool (some t) = vm_type_eq t bool

unfoldable pub check_precondition : NodeTypes → Option ℕ → Checked (Unit {0})
check_precondition types none = ok tt
check_precondition types (some j) =
    guard (ltb j (length types)) (failed invalid_precondition)
    >> (ok_or panicked (get_elem? types j) >>= λ t.
        guard (is_effect_or_bool t) (failed invalid_precondition))

-- The loop over the nodes: as many types are known as nodes were checked.
unfoldable pub type_nodes :
    TwVm → List VmType → List Node → NodeTypes → Sink → Checked (NodeTypes × Sink)
type_nodes vm params [] types sink = ok (types, sink)
type_nodes vm params ((node, in_edges, precondition) ∷ nodes) types sink = do
  check_in_edges (length types) in_edges
  check_precondition types precondition
  (ty, sink') ← type_node vm params node in_edges types sink
  type_nodes vm params nodes (types ++ ty ∷ []) sink'

pub record GraphTypeInfo : Type 0 where
  pub params : List VmType
  pub node_types : NodeTypes

-- A parameter of unknown type has the one type that its callers give it; another type must be
-- covariant from those.
unfoldable pub ensure_all : VmType → List VmType → Checked (Unit {0})
ensure_all p [] = ok tt
ensure_all p (x ∷ xs) = ensure_covariant p x >> ensure_all p xs

abbrev pub only_candidate : ℕ → ℕ → List VmType → Checked VmType
only_candidate graph_index i [] = fail (unknown_param_type_not_resolved i graph_index)
only_candidate graph_index i (t ∷ []) = ok t
only_candidate graph_index i ts = fail (multiple_param_type_candidates i graph_index ts)

unfoldable pub infer_param : ℕ → ℕ → VmType → List VmType → Checked VmType
infer_param graph_index i unknown expected = only_candidate graph_index i expected
infer_param graph_index i p expected = ensure_all p expected >>= λ _. ok p

abbrev pub replace_schema : TwVm → VmType → VmType
replace_schema vm schema = from_schema vm.schema
replace_schema vm t = t

unfoldable pub resolve_params :
    TwVm → ℕ → ℕ → List VmType → List (List VmType) → Checked (List VmType)
resolve_params vm graph_index i [] expected = ok []
resolve_params vm graph_index i (p ∷ ps) [] = err panicked
resolve_params vm graph_index i (p ∷ ps) (expected ∷ rest) = do
  t ← infer_param graph_index i p expected
  ts ← resolve_params vm graph_index (i + 1) ps rest
  ok (replace_schema vm t ∷ ts)

unfoldable pub types_at : TypeckError → TwVm → List ℕ → Checked (List VmType)
types_at e vm [] = ok []
types_at e vm (x ∷ xs) = do t ← found e (get_elem? vm.types x); ts ← types_at e vm xs; ok (t ∷ ts)

-- `map(...).transpose()`
abbrev pub transposed : {A B : Type 0} → (A → Checked B) → Option A → Checked (Option B)
transposed f none = ok none
transposed f (some a) = f a >>= λ b. ok (some b)

unfoldable pub output_node_type : NodeTypes → ℕ → Checked VmType
output_node_type types x = found output_node_index_oob (get_elem? types x) >>= ensure_type

unfoldable pub check_output : Option VmType → Option VmType → Checked (Unit {0})
check_output (some a) (some b) = ensure_covariant a b
check_output none none = ok tt
check_output a b = fail (output_type_mismatch a b)

abbrev pub output_in_bounds : TwGraph → Bool
output_in_bounds g = elim g.output [ none ↦ true | some x ↦ ltb x (length g.nodes) ]

unfoldable pub typeck_graph :
    TwVm → List (List (List VmType)) → ℕ → Sink → Checked (GraphTypeInfo × Sink)
typeck_graph vm expected graph_index sink = do
  g ← ok_or panicked (get_elem? vm.graphs graph_index)
  guard (output_in_bounds g) (failed graph_output_index_oob)
  output_type ← transposed (λ x. found output_type_index_oob (get_elem? vm.types x)) g.output_type
  params ← types_at param_type_index_oob vm g.param_types
  e ← ok_or panicked (get_elem? expected graph_index)
  params' ← resolve_params vm graph_index 0 params e
  (types, sink') ← type_nodes vm params' g.nodes [] sink
  actual ← transposed (output_node_type types) g.output
  check_output output_type actual
  ok (record { params = params'; node_types = types }, sink')
