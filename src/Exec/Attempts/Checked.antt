-- ===== src/Exec/Attempts/Checked.antt =====
-- rdb-analyzer/src/data/treewalker/exec.rs: `run_graph` on a script that type checks.
use refine_db.Prelude.{
  ℕ, List, All, ok, err, ◌≡◌, ◌≢◌, refl, Ensures, returns, fails, ◌⟫◌, Ensures-elim,
}
use refine_db.Treewalker.Bytecode.{TwGraph}
use refine_db.Treewalker.Values.{VmValue}
use refine_db.Treewalker.Typeck.{TwVm}
use refine_db.Treewalker.Typeck.Graphs.{GraphTypeInfo}
use refine_db.Treewalker.Typeck.Topology.{IsSorted}
use refine_db.Treewalker.Typeck.Script.{CallGraphs, GlobalTyckContext, typeck}
use refine_db.Treewalker.Typeck.Script
use refine_db.Treewalker.Typeck.Script.EveryGraph.{HasChecked, typeck-HasChecked, get_elem?-every}
use refine_db.Kv.OrderedMap.{OrderedMap}
use refine_db.Kv.MockKv.{Entry, Store}
use refine_db.Exec.Outcome.{Host, Executed, out_of_fuel}
use refine_db.Exec.FireRules.{FireRuleTable}
use refine_db.Exec.Loop.{Executor, tables_of}
use refine_db.Exec.Loop
use refine_db.Exec.Once.Sources.{HasDistinctSources}
use refine_db.Exec.Ends.Loop.{IsRunnable}
use refine_db.Exec.Attempts.{Others, run_graph}
use refine_db.Exec.Attempts.Returns.{run_graph_ends}

All-IsSorted :
    (vm : TwVm) (type_info : List GraphTypeInfo)
    → ((i : ℕ) → HasChecked vm type_info i)
    → All (λ (g : TwGraph). IsSorted 0 g.nodes) vm.graphs
All-IsSorted vm type_info checked =
    get_elem?-every (λ g. IsSorted 0 g.nodes) vm.graphs
      λ i g there. let (info, _, fine) = checked i g there in fine.goes_back

new-IsRunnable :
    (vm : TwVm) (type_info : List GraphTypeInfo)
    → All (λ (g : TwGraph). IsSorted 0 g.nodes) vm.graphs
    → All (λ (g : TwGraph). HasDistinctSources g.nodes) vm.graphs
    → Ensures IsRunnable (Loop.new vm type_info)
unfolding Loop.new
new-IsRunnable vm type_info sorted distinct = made (tables_of vm.graphs) ⟫ λ tables h.
    returns (record { sorted = sorted; distinct = distinct; has_tables = h })
  where
    made : (r : Executed (List FireRuleTable)) → Ensures (λ tables. r ≡ ok tables) r
    made (ok tables) = returns refl
    made (err e) = fails

-- `run_graph` ends on a script that type checks and whose nodes name no source twice: whatever the
-- choices of the scheduler and whatever the others do to the store, no loop over the futures and no
-- scan of a set goes on beyond its fuel.
pub run_graph-typeck_ends :
    (call_graphs : CallGraphs) (vm : TwVm) (context : GlobalTyckContext)
    (type_info : List GraphTypeInfo) (ex : Executor) (host : Host) {m : OrderedMap Entry}
    (graph_index : ℕ) (params : List VmValue) (choices : List ℕ) (others : Others m)
    (store : Store m)
    → Script.new call_graphs vm ≡ ok context
    → typeck context ≡ ok type_info
    → Loop.new vm type_info ≡ ok ex
    → All (λ (g : TwGraph). HasDistinctSources g.nodes) vm.graphs
    → (run_graph host ex graph_index params choices others store).0 ≢ err out_of_fuel
run_graph-typeck_ends call_graphs vm context type_info ex host graph_index params choices others
      store made typed built distinct =
    run_graph_ends host ex graph_index params choices others store (
      Ensures-elim
        (new-IsRunnable vm type_info
          (All-IsSorted vm type_info
            λ i. typeck-HasChecked call_graphs vm context type_info i made typed)
          distinct)
        built)
