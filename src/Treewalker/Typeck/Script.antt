-- ===== src/Treewalker/Typeck/Script.antt =====
-- rdb-analyzer/src/data/treewalker/typeck.rs: GlobalTyckContext, and the type checker of a script over
-- the strongly connected components of its call graph, which the `petgraph` package finds.
pub mod EveryGraph
use refine_db.Prelude.{
  ℕ, ◌+◌, ◌<◌, Option, none, some, List, [], ◌∷◌, ◌++◌, length, get_elem?, ok, err, ◌>>=◌, ◌>>◌,
  ok_or, ◌≡◌, ◌⊎◌,
}
use refine_db.Prelude.Updates.{store_at}
use refine_db.Treewalker.Bytecode.{TwGraph, subgraph_references}
use refine_db.Treewalker.Types.{VmType}
use refine_db.Treewalker.Typeck.{Checked, TwVm, failed, panicked, found, subgraph_index_oob}
use refine_db.Treewalker.Typeck.Calls.{Sink, insert_type}
use refine_db.Treewalker.Typeck.Graphs.{Node, GraphTypeInfo, typeck_graph}

abbrev pub IsMember : ℕ → List ℕ → Type 0
IsMember i [] = ⊥
IsMember i (j ∷ js) = (i ≡ j) ⊎ IsMember i js

abbrev pub IsInSome : ℕ → List (List ℕ) → Type 0
IsInSome i [] = ⊥
IsInSome i (scc ∷ sccs) = IsMember i scc ⊎ IsInSome i sccs

-- `kosaraju_scc` on a graph with so many nodes and these edges: each node is in a component.
pub record CallGraphs : Type 0 where
  pub kosaraju_scc : ℕ → List (ℕ × ℕ) → List (List ℕ)
  pub has_every_node : (n i : ℕ) (edges : List (ℕ × ℕ)) → i < n → IsInSome i (kosaraju_scc n edges)

-- The types that each parameter of each graph is called with.
abbrev pub Expected : Type 0
Expected = List (List (List VmType))

pub record GlobalTyckContext : Type 0 where
  pub vm : TwVm
  pub scc_post_order : List (List ℕ)
  pub subgraph_expected_param_types : Expected

abbrev pub no_candidates : List ℕ → List (List VmType)
no_candidates [] = []
no_candidates (_ ∷ param_types) = [] ∷ no_candidates param_types

abbrev pub nothing_expected : List TwGraph → Expected
nothing_expected [] = []
nothing_expected (g ∷ graphs) = no_candidates g.param_types ∷ nothing_expected graphs

unfoldable pub reference_edges : TwVm → ℕ → List ℕ → Checked (List (ℕ × ℕ))
reference_edges vm i [] = ok []
reference_edges vm i (r ∷ rs) = found subgraph_index_oob (get_elem? vm.graphs r) >>= λ _.
    reference_edges vm i rs >>= λ edges. ok ((i, r) ∷ edges)

unfoldable pub node_edges : TwVm → ℕ → List Node → Checked (List (ℕ × ℕ))
unfolding reference_edges subgraph_references
node_edges vm i [] = ok []
node_edges vm i ((n, _, _) ∷ nodes) = reference_edges vm i (subgraph_references n) >>= λ edges.
    node_edges vm i nodes >>= λ more. ok (edges ++ more)

-- The edges of the call graph, from the graph numbered `i` on.
unfoldable pub call_edges : TwVm → ℕ → List TwGraph → Checked (List (ℕ × ℕ))
unfolding node_edges
call_edges vm i [] = ok []
call_edges vm i (g ∷ graphs) =
    node_edges vm i g.nodes >>= λ edges. call_edges vm (i + 1) graphs >>= λ more. ok (edges ++ more)

unfoldable pub new : CallGraphs → TwVm → Checked GlobalTyckContext
unfolding call_edges
new call_graphs vm = call_edges vm 0 vm.graphs >>= λ edges. ok (record {
  vm = vm;
  scc_post_order = call_graphs.kosaraju_scc (length vm.graphs) edges;
  subgraph_expected_param_types = nothing_expected vm.graphs;
})

abbrev pub insert_all : List VmType → List VmType → List VmType
insert_all [] y = y
insert_all (elem ∷ x) y = insert_all x (insert_type elem y)

-- `x.into_iter().zip(y.iter_mut())`, after the assertion that both are as long.
unfoldable pub merge_params : List (List VmType) → List (List VmType) → Checked (List (List VmType))
merge_params [] [] = ok []
merge_params (x ∷ xs) (y ∷ ys) = merge_params xs ys >>= λ zs. ok (insert_all x y ∷ zs)
merge_params _ _ = err panicked

-- The types that the graphs of a component pass on.
unfoldable pub merge_sink : Sink → Expected → Checked Expected
unfolding merge_params
merge_sink [] expected = ok expected
merge_sink ((i, x) ∷ sink) expected = ok_or panicked (get_elem? expected i) >>= λ y.
    merge_params x y >>= λ z.
    ok_or panicked (store_at i z expected) >>= λ expected'. merge_sink sink expected'

unfoldable pub typeck_scc :
    TwVm → Expected → List ℕ → List GraphTypeInfo → Sink → Checked (List GraphTypeInfo × Sink)
unfolding typeck_graph store_at
typeck_scc vm expected [] graphs sink = ok (graphs, sink)
typeck_scc vm expected (i ∷ scc) graphs sink = typeck_graph vm expected i sink >>= λ (info, sink').
    ok_or panicked (store_at i info graphs) >>= λ graphs'. typeck_scc vm expected scc graphs' sink'

-- The loop over the components, the last of which comes first.
unfoldable pub typeck_sccs :
    TwVm → List (List ℕ) → Expected → List GraphTypeInfo → Checked (List GraphTypeInfo × Expected)
unfolding typeck_scc merge_sink
typeck_sccs vm [] expected graphs = ok (graphs, expected)
typeck_sccs vm (scc ∷ sccs) expected graphs =
    typeck_sccs vm sccs expected graphs >>= λ (graphs', expected').
    typeck_scc vm expected' scc graphs' [] >>= λ (graphs'', sink).
    merge_sink sink expected' >>= λ expected''. ok (graphs'', expected'')

-- `GraphTypeInfo::default()` for each graph.
abbrev pub no_infos : List TwGraph → List GraphTypeInfo
no_infos [] = []
no_infos (_ ∷ graphs) = record { params = []; node_types = [] } ∷ no_infos graphs

unfoldable pub typeck : GlobalTyckContext → Checked (List GraphTypeInfo)
unfolding typeck_sccs
typeck context =
    typeck_sccs context.vm context.scc_post_order context.subgraph_expected_param_types
      (no_infos context.vm.graphs)
    >>= λ (graphs, _). ok graphs
