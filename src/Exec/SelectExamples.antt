-- ===== src/Exec/SelectExamples.antt =====
-- A select both of whose candidates complete.
use refine_db.Prelude.{true, none, some, [], ◌∷◌, ok, err, inl, ◌≡◌, refl}
use refine_db.Value.{PrimitiveType}
use refine_db.Treewalker.Bytecode.{TwGraph, load_param, select}
use refine_db.Treewalker.Types.{VmType}
use refine_db.Treewalker.Types
use refine_db.Treewalker.Typeck.{NodeTypes}
use refine_db.Kv.OrderedMap.{OrderedMap}
use refine_db.Kv.SortedMap.{sorted_map}
use refine_db.Kv.MockKv.{Entry, begin_transaction}
use refine_db.Kv.MockKv
use refine_db.Exec.Outcome.{throw, conflict_after_retries, panicked}
use refine_db.Exec.Reduce.{Machine}
use refine_db.Exec.RunNode.{Context}
use refine_db.Exec.FireRules.{FireRuleTable}
use refine_db.Exec.Progress.{fire_targets, Progress, Pending, selected, run_with, fire}
use refine_db.Exec.Loop.{run_future, complete}
use refine_db.Exec.Once.Emptied.{no_round, round, second_candidate_panics}
use refine_db.Exec.Samples.{host, three, param_rule, vm_of}

abbrev m : OrderedMap Entry
m = sorted_map

abbrev int : VmType
int = Types.primitive PrimitiveType.int64

abbrev choice : TwGraph
choice = record {
  name = "choice";
  exported = true;
  nodes = (load_param 0, [], none) ∷ (load_param 1, [], none) ∷ (select, 0 ∷ 1 ∷ [], none) ∷ [];
  output = some 2;
  param_types = 0 ∷ 0 ∷ [];
  output_type = some 0;
}

abbrev rules : FireRuleTable
rules = (param_rule 2 0 ∷ []) ∷ (param_rule 2 1 ∷ []) ∷ [] ∷ []

abbrev types : NodeTypes
types = some int ∷ some int ∷ some int ∷ []

-- No subgraph is run.
abbrev cx : Context m
cx = record {
  vm = vm_of (choice ∷ []);
  graph_params = three ∷ three ∷ [];
  go = λ g params s. throw conflict_after_retries;
}

abbrev begun : Machine m
begun = record { txn = (begin_transaction m (MockKv.new m)).0; choices = [] }

abbrev second : Pending
second = record { node = 1; work = run_with [] }

abbrev fired : Pending
fired = record { node = 2; work = selected three }

-- The first candidate is there.
abbrev one_there : Progress
one_there = record {
  deps_satisfied = [] ∷ [] ∷ (some three ∷ none ∷ []) ∷ [];
  precondition_satisfied = true ∷ true ∷ true ∷ [];
  futures = second ∷ [];
  ret = none;
}

abbrev select_fired : Progress
select_fired = record one_there {
  deps_satisfied = [] ∷ [] ∷ [] ∷ [];
  futures = second ∷ fired ∷ [];
}

select_fires : fire 2 (selected three) one_there ≡ ok select_fired
unfolding fire
select_fires = refl

abbrev select_completed : Progress
select_completed = record select_fired { futures = second ∷ []; ret = some three }

select_completes :
    complete host cx choice types rules fired (record select_fired { futures = second ∷ [] }) begun
    ≡ ok (select_completed, begun)
unfolding complete
select_completes = refl

second_gives_three :
    run_future host cx choice types rules 1 (run_with []) begun ≡ ok (some three, begun)
unfolding run_future
second_gives_three = refl

no_target_left : fire_targets choice.nodes [] select_fired ≡ ok select_fired
unfolding fire_targets
no_target_left = refl

second_candidate_panics_example :
    complete host cx choice types rules second select_completed begun ≡ err panicked
second_candidate_panics_example =
    second_candidate_panics host cx choice types rules 2 1 three three one_there select_fired
      select_fired select_completed [] (param_rule 2 1 ∷ []) second begun begun select_fires
      no_target_left (round fired (second ∷ []) begun begun no_round select_completes)
      second_gives_three refl (inl refl)
