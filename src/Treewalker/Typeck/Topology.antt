-- ===== src/Treewalker/Typeck/Topology.antt =====
-- rdb-analyzer/src/data/treewalker/typeck.rs: a graph that type checks is sorted: its nodes use those
-- before them only, and so does its output.
use refine_db.Prelude.{
  ℕ, suc, ◌+◌, ◌<◌, ltb, ltb→lt, Bool, true, false, Option, none, some, List, [], ◌∷◌, ◌++◌, length,
  length-append, get_elem?, All, ◌≡◌, refl, subst, ok_or, guard, Ensures, returns, fails, ◌⟫◌,
  Ensures-any, arith,
}
use refine_db.Prelude.{weaken}
use refine_db.Treewalker.Bytecode.{TwGraph}
use refine_db.Treewalker.Types.{VmType}
use refine_db.Treewalker.Typeck.{
  TwVm, NodeTypes, Stop, failed, panicked, invalid_in_edge, invalid_precondition, found,
  graph_output_index_oob, output_type_index_oob, param_type_index_oob,
}
use refine_db.Treewalker.Typeck.Calls.{Sink}
use refine_db.Treewalker.Typeck.Nodes.{type_node}
use refine_db.Treewalker.Typeck.Graphs.{
  Node, check_in_edges, check_precondition, is_effect_or_bool, type_nodes, GraphTypeInfo,
  typeck_graph, output_in_bounds, types_at, transposed, resolve_params, output_node_type,
  check_output,
}

abbrev pub IsBefore : ℕ → Option ℕ → Type 0
IsBefore i none = Unit
IsBefore i (some j) = j < i

-- The nodes from the one numbered `i`: their edges and preconditions go back.
abbrev pub IsSorted : ℕ → List Node → Type 0
IsSorted i [] = Unit
IsSorted i ((_, in_edges, precondition) ∷ nodes) =
    All (λ j. j < i) in_edges × IsBefore i precondition × IsSorted (suc i) nodes

guard-Ensures : (b : Bool) (e : Stop) → Ensures (λ _. b ≡ true) (guard b e)
guard-Ensures true e = returns refl
guard-Ensures false e = fails

check_in_edges-Ensures :
    (i : ℕ) (js : List ℕ) → Ensures (λ _. All (λ j. j < i) js) (check_in_edges i js)
unfolding check_in_edges
check_in_edges-Ensures i [] = returns tt
check_in_edges-Ensures i (j ∷ js) = guard-Ensures (ltb j i) (failed invalid_in_edge) ⟫ λ _ h.
    weaken (λ _ hs. (ltb→lt j i h, hs)) (check_in_edges-Ensures i js)

check_precondition-Ensures :
    (types : NodeTypes) (p : Option ℕ)
    → Ensures (λ _. IsBefore (length types) p) (check_precondition types p)
unfolding check_precondition
check_precondition-Ensures types none = returns tt
check_precondition-Ensures types (some j) =
    guard-Ensures (ltb j (length types)) (failed invalid_precondition) ⟫ λ _ h.
    Ensures-any (ok_or panicked (get_elem? types j)) ⟫ λ t _.
    weaken (λ _ _. ltb→lt j (length types) h)
      (Ensures-any (guard (is_effect_or_bool t) (failed invalid_precondition)))

one_more : (types : NodeTypes) (ty : Option VmType) → length (types ++ ty ∷ []) ≡ suc (length types)
one_more types ty = omega (arith, length-append types (ty ∷ []))

type_nodes-IsSorted :
    (vm : TwVm) (params : List VmType) (nodes : List Node) (types : NodeTypes) (sink : Sink)
    → Ensures
        (λ (types', _).
          (length types' ≡ length types + length nodes) × IsSorted (length types) nodes)
        (type_nodes vm params nodes types sink)
unfolding type_nodes
type_nodes-IsSorted vm params [] types sink = returns {a = (types, sink)} (omega arith, tt)
type_nodes-IsSorted vm params ((node, es, p) ∷ nodes) types sink =
    check_in_edges-Ensures (length types) es ⟫ λ _ h. check_precondition-Ensures types p ⟫ λ _ k.
    Ensures-any (type_node vm params node es types sink) ⟫ λ (ty, sink') _.
    weaken
      (λ (types', _) (e, s). (
        omega (arith, e, one_more types ty),
        (h, k, subst (λ n. IsSorted n nodes) (one_more types ty) s),
      ))
      (type_nodes-IsSorted vm params nodes (types ++ ty ∷ []) sink')

in_bounds : (g : TwGraph) → output_in_bounds g ≡ true → IsBefore (length g.nodes) g.output
in_bounds g h = before g.output h
  where
    before :
        (o : Option ℕ)
        → elim o [ none ↦ true | some x ↦ ltb x (length g.nodes) ] ≡ true
        → IsBefore (length g.nodes) o
    before none h = tt
    before (some x) h = ltb→lt x (length g.nodes) h

-- What is known of a graph that type checks.
pub record IsChecked (g : TwGraph) (info : GraphTypeInfo) : Type 0 where
  pub types_every_node : length info.node_types ≡ length g.nodes
  pub goes_back : IsSorted 0 g.nodes
  pub has_output : IsBefore (length g.nodes) g.output

-- When a graph type checks, every node has an entry among the types, its edges and its precondition
-- name nodes before it, and the output of the graph is one of its nodes.
pub typeck_graph-IsChecked :
    (vm : TwVm) (expected : List (List (List VmType))) (graph_index : ℕ) (sink : Sink) (g : TwGraph)
    → get_elem? vm.graphs graph_index ≡ some g
    → Ensures (λ (info, _). IsChecked g info) (typeck_graph vm expected graph_index sink)
unfolding typeck_graph
typeck_graph-IsChecked vm expected graph_index sink g e =
    rw (e, typeck_graph)
      (guard-Ensures (output_in_bounds g) (failed graph_output_index_oob) ⟫ λ _ b.
        Ensures-any
          (transposed (λ x. found output_type_index_oob (get_elem? vm.types x)) g.output_type)
        ⟫ λ output_type _.
            Ensures-any (types_at param_type_index_oob vm g.param_types) ⟫ λ params _.
            Ensures-any (ok_or panicked (get_elem? expected graph_index)) ⟫ λ x _.
            Ensures-any (resolve_params vm graph_index 0 params x) ⟫ λ params' _.
            type_nodes-IsSorted vm params' g.nodes [] sink ⟫ λ (types, sink') (l, s).
            Ensures-any (transposed (output_node_type types) g.output) ⟫ λ actual _.
            Ensures-any (check_output output_type actual) ⟫ λ _ _.
            returns {a = (record { params = params'; node_types = types }, sink')} (record {
              types_every_node = omega (arith, l);
              goes_back = s;
              has_output = in_bounds g b;
            }))
