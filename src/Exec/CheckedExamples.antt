-- ===== src/Exec/CheckedExamples.antt =====
-- The sample scripts type check, and run to their ends.
use refine_db.Prelude.{
  ℕ, zero, suc, ◌<◌, List, [], ◌∷◌, ok, err, inl, inr, ◌⊎◌, ◌≡◌, ◌≢◌, refl, arith,
}
use refine_db.Prelude.Updates.{store_at}
use refine_db.Value.{get_type}
use refine_db.Schema.{primitive_type_eq}
use refine_db.Treewalker.Types.{is_covariant_from, vm_type_eq}
use refine_db.Treewalker.Values.{type_of}
use refine_db.Treewalker.Typeck.{
  one_edge, two_edges, validate_in_edges, ensure_covariant, edge_types, edge_type, ensure_type,
}
use refine_db.Treewalker.Typeck.Nodes.{type_node, type_binop, add_type}
use refine_db.Treewalker.Typeck.Graphs.{
  types_at, resolve_params, infer_param, ensure_all, type_nodes, check_in_edges, check_precondition,
  output_node_type, check_output,
}
use refine_db.Treewalker.Typeck.Script.{IsInSome, CallGraphs, GlobalTyckContext, typeck}
use refine_db.Treewalker.Typeck.Script
use refine_db.Treewalker.Typeck.Script.EveryGraph.{HasChecked, typeck-HasChecked}
use refine_db.Kv.OrderedMap.{OrderedMap}
use refine_db.Kv.SortedMap.{sorted_map}
use refine_db.Kv.MockKv.{Entry}
use refine_db.Kv.MockKv
use refine_db.Exec.Outcome.{out_of_fuel}
use refine_db.Exec.Loop
use refine_db.Exec.Attempts.{run_graph}
use refine_db.Exec.Attempts.Checked.{run_graph-typeck_ends}
use refine_db.Exec.Samples.{host, executor, three}

-- No graph of the samples calls another: each is a component.
abbrev singles : ℕ → List (List ℕ)
singles zero = []
singles (suc n) = (n ∷ []) ∷ singles n

equal_or_less : (i n : ℕ) → i < suc n → (i ≡ n) ⊎ (i < n)
equal_or_less i n h = ground arith

IsInSome-singles : (n i : ℕ) → i < n → IsInSome i (singles n)
IsInSome-singles zero i h = absurd (omega arith)
IsInSome-singles (suc n) i h = elim (equal_or_less i n h) [
  | inl same ↦ inl (inl same)
  | inr less ↦ inr (IsInSome-singles n i less)
]

abbrev call_graphs : CallGraphs
call_graphs = record {
  kosaraju_scc = λ n edges. singles n;
  has_every_node = λ n i edges h. IsInSome-singles n i h;
}

abbrev context : GlobalTyckContext
context = record {
  vm = executor.vm;
  scc_post_order = (1 ∷ []) ∷ (0 ∷ []) ∷ [];
  subgraph_expected_param_types = ([] ∷ []) ∷ ([] ∷ []) ∷ [];
}

context_made : Script.new call_graphs executor.vm ≡ ok context
unfolding Script.new
context_made = refl

samples_type_check : typeck context ≡ ok executor.type_info
unfolding typeck types_at resolve_params infer_param ensure_all type_nodes check_in_edges
    check_precondition type_node one_edge two_edges validate_in_edges type_binop add_type type_of
    output_node_type check_output ensure_covariant is_covariant_from vm_type_eq edge_types edge_type
    ensure_type primitive_type_eq get_type store_at
samples_type_check = refl

executor_made : Loop.new executor.vm executor.type_info ≡ ok executor
unfolding Loop.new
executor_made = refl

typeck-HasChecked_example : HasChecked executor.vm executor.type_info 1
typeck-HasChecked_example =
    typeck-HasChecked call_graphs executor.vm context executor.type_info 1 context_made
      samples_type_check

abbrev m : OrderedMap Entry
m = sorted_map

run_graph-typeck_ends_example :
    (run_graph host executor 0 (three ∷ []) (1 ∷ []) [] (MockKv.new m)).0 ≢ err out_of_fuel
run_graph-typeck_ends_example =
    run_graph-typeck_ends call_graphs executor.vm context executor.type_info executor host 0
      (three ∷ []) (1 ∷ []) [] (MockKv.new m) context_made samples_type_check executor_made
      (omega arith)
