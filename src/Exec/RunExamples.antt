-- ===== src/Exec/RunExamples.antt =====
-- Runs of the sample scripts, and the root map of a sample schema.
use refine_db.Prelude.{
  ℕ, false, some, Option, List, [], ◌∷◌, length, get_elem?, ok, err, ◌≡◌, refl, ◌<◌, arith,
}
use refine_db.Treewalker.Values.{type_of, VmValue, bool}
use refine_db.Treewalker.Types.{from_schema}
use refine_db.Schema.Examples.{schema}
use refine_db.Storage.Planner.Examples.{plan, samples, no_plan, no_schema, planned}
use refine_db.Exec.RootMap.{generate_root_map}
use refine_db.Exec.RootMap.Planned.{generate_root_map-from_schema}
use refine_db.Kv.OrderedMap.{OrderedMap}
use refine_db.Kv.SortedMap.{sorted_map}
use refine_db.Kv.MockKv.{Entry, new, begin_transaction}
use refine_db.Exec.Outcome.{panicked}
use refine_db.Exec.Reduce.{Machine}
use refine_db.Exec.FireRules.{FireRuleTable, generate_fire_rules, rules_of}
use refine_db.Exec.FireRules.Table.{generate_fire_rules-rules_of}
use refine_db.Exec.Loop.{recursively_run_graph}
use refine_db.Exec.Attempts.{Others, run_graph, begin_and_run}
use refine_db.Exec.Attempts.Commits.{IsAtomic, AlwaysReturns, LeavesContents, run_graph-IsAtomic}
use refine_db.Exec.Attempts.Returns.{run_graph_returns}
use refine_db.Exec.Samples.{host, executor, doubling, sum_graph, three, eight}

abbrev m : OrderedMap Entry
m = sorted_map

abbrev begun : List ℕ → Machine m
begun choices = record { txn = (begin_transaction m (new m)).0; choices = choices }

-- Whichever future completes first, the sum is the sum.
sum_runs :
    recursively_run_graph host executor 128 0 (three ∷ []) (begun []) ≡ ok (some eight, begun [])
unfolding recursively_run_graph
sum_runs = refl

sum_runs_reversed :
    recursively_run_graph host executor 128 0 (three ∷ []) (begun (1 ∷ []))
    ≡ ok (some eight, begun [])
unfolding recursively_run_graph
sum_runs_reversed = refl

-- The node fires twice, and the second time finds no parameter.
double_panics : recursively_run_graph host doubling 128 0 (three ∷ []) (begun []) ≡ err panicked
unfolding recursively_run_graph
double_panics = refl

generate_fire_rules-rules_of_example :
    (table : FireRuleTable) × (generate_fire_rules sum_graph ≡ ok table)
    × (length table ≡ 3)
    × ((s : ℕ) → s < 3 → get_elem? table s ≡ some (rules_of s 0 sum_graph.nodes))
generate_fire_rules-rules_of_example = generate_fire_rules-rules_of sum_graph (omega arith)

-- Another transaction begins in every attempt.
abbrev others : Others m
others = (λ s. (begin_transaction m s).1) ∷ []

run_graph-IsAtomic_example :
    IsAtomic host executor 0
      (three ∷ [])
      10
      []
      others
      (new m)
      (run_graph host executor 0 (three ∷ []) [] others (new m))
run_graph-IsAtomic_example = run_graph-IsAtomic host executor 0 (three ∷ []) [] others (new m)

test_returns : AlwaysReturns host m executor 1 (three ∷ [])
unfolding begin_and_run
test_returns choices store = (some (bool false), _, refl)

run_graph_returns_example :
    (ret : Option VmValue) × ((run_graph host executor 1 (three ∷ []) [] others (new m)).0 ≡ ok ret)
unfolding begin_transaction
run_graph_returns_example =
    run_graph_returns host executor 1 (three ∷ []) 0 [] others (new m) (omega arith) quiet
      test_returns
  where
    quiet : LeavesContents others
    quiet = λ store. refl

generate_root_map-from_schema_example :
    (root : VmValue) × (generate_root_map schema plan ≡ ok root)
    × (type_of root ≡ from_schema schema)
generate_root_map-from_schema_example =
    generate_root_map-from_schema 5 samples no_plan plan no_schema schema (tt, tt) planned
