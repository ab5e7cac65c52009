-- ===== src/Exec/Loop.antt =====
-- rdb-analyzer/src/data/treewalker/exec.rs: `Executor`, and the run of a graph. A future runs as a
-- whole when it completes, as on the in-memory store, whose operations do not wait; which of the
-- futures completes next is read from the choices of the run. The recursion depth counts down.
use refine_db.Prelude.{
  ℕ, zero, suc, ◌+◌, ◌*◌, ◌==◌, if◌then◌else◌, Bool, false, Option, none, some, List, [], ◌∷◌,
  length, get_elem?, ok, err, ◌>>=◌,
}
use refine_db.Treewalker.Bytecode.{TwGraph}
use refine_db.Treewalker.Values.{VmValue}
use refine_db.Treewalker.Typeck.{TwVm, NodeTypes}
use refine_db.Treewalker.Typeck.Graphs.{Node, GraphTypeInfo}
use refine_db.Kv.OrderedMap.{OrderedMap}
use refine_db.Kv.MockKv.{Entry}
use refine_db.Exec.Outcome.{
  Host, Executed, out_of_fuel, throw, unwrap, max_recursion_depth_exceeded,
}
use refine_db.Exec.Reduce.{Machine, Subgraph}
use refine_db.Exec.RunNode.{Context, run_node}
use refine_db.Exec.FireRules.{FireRuleTable, generate_fire_rules}
use refine_db.Exec.Progress.{
  Pending, Work, selected, run_with, Progress, initial_progress, satisfy, fire_targets,
}

abbrev pub max_recursion_depth : ℕ
max_recursion_depth = 128

pub record Executor : Type 0 where
  pub vm : TwVm
  pub type_info : List GraphTypeInfo
  pub fire_rule_tables : List FireRuleTable

unfoldable pub tables_of : List TwGraph → Executed (List FireRuleTable)
unfolding generate_fire_rules
tables_of [] = ok []
tables_of (g ∷ graphs) = do t ← generate_fire_rules g; ts ← tables_of graphs; ok (t ∷ ts)

unfoldable pub new : TwVm → List GraphTypeInfo → Executed Executor
unfolding tables_of
new vm type_info = do
  tables ← tables_of vm.graphs
  ok (record { vm = vm; type_info = type_info; fire_rule_tables = tables })

-- `select_all`: the future at the chosen place completes, and the others remain.
unfoldable pub take_at : ℕ → Pending → List Pending → Pending × List Pending
take_at i f [] = (f, [])
take_at zero f (g ∷ fs) = (f, g ∷ fs)
take_at (suc i) f (g ∷ fs) = let (h, rest) = take_at i g fs in (h, f ∷ rest)

module _ {m : OrderedMap Entry} where
  abbrev pub next_choice : Machine m → ℕ
  next_choice s = elim s.choices [ [] ↦ 0 | c ∷ cs ↦ c ]

  abbrev pub without_choice : Machine m → Machine m
  without_choice s = record s { choices = elim s.choices [ [] ↦ [] | c ∷ cs ↦ cs ] }

abbrev pub is_output : TwGraph → ℕ → Bool
is_output g i = elim g.output [ none ↦ false | some o ↦ o == i ]

module _ (host : Host) {m : OrderedMap Entry} (cx : Context m) (g : TwGraph) (types : NodeTypes)
    (rules : FireRuleTable) where
  unfoldable pub run_future : ℕ → Work → Machine m → Executed (Option VmValue × Machine m)
  unfolding run_node
  run_future i (selected v) s = ok (some v, s)
  run_future i (run_with params) s = do
    (n, _, _) ← unwrap (get_elem? g.nodes i)
    type_info ← unwrap (get_elem? types i)
    run_node host cx n params type_info s

  -- The body of the loop, for the future that completed.
  unfoldable pub complete : Pending → Progress → Machine m → Executed (Progress × Machine m)
  unfolding run_future satisfy fire_targets
  complete f p s = do
    (result, s') ← run_future f.node f.work s
    to_fire ← unwrap (get_elem? rules f.node)
    p' ← satisfy result to_fire (record p { ret = if is_output g f.node then result else p.ret })
    p'' ← fire_targets g.nodes to_fire p'
    ok (p'', s')

  unfoldable pub run_loop : ℕ → Progress → Machine m → Executed (Option VmValue × Machine m)
  unfolding take_at complete
  run_loop zero p s = err out_of_fuel
  run_loop (suc fuel) p s = elim p.futures [
    | [] ↦ ok (p.ret, s)
    | f ∷ fs ↦
        let (h, rest) = take_at (next_choice s) f fs in
        complete h (record p { futures = rest }) (without_choice s) >>= λ (p', s').
        run_loop fuel p' s'
  ]

abbrev pub edge_count : List Node → ℕ
edge_count [] = 0
edge_count ((_, in_edges, _) ∷ nodes) = length in_edges + 1 + edge_count nodes

abbrev pub loop_fuel : TwGraph → ℕ
loop_fuel g = suc (length g.nodes * suc (edge_count g.nodes))

module _ (host : Host) {m : OrderedMap Entry} (ex : Executor) where
  unfoldable pub recursively_run_graph :
      ℕ → ℕ → List VmValue → Machine m → Executed (Option VmValue × Machine m)
  unfolding initial_progress run_loop
  recursively_run_graph zero graph_index params s =
      throw (max_recursion_depth_exceeded max_recursion_depth)
  recursively_run_graph (suc depth_left) graph_index params s =
      let go : Subgraph m = recursively_run_graph depth_left in
      unwrap (get_elem? ex.vm.graphs graph_index) >>= λ g.
      unwrap (get_elem? ex.type_info graph_index) >>= λ info.
      unwrap (get_elem? ex.fire_rule_tables graph_index) >>= λ rules.
      run_loop host (record { vm = ex.vm; graph_params = params; go = go }) g info.node_types rules
        (loop_fuel g) (initial_progress g.nodes) s
