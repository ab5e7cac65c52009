-- ===== src/Exec/Ends/Loop.antt =====
-- rdb-analyzer/src/data/treewalker/exec.rs: the loop of recursively_run_graph ends, with as many rounds
-- as there are nodes and one to see that no future is left.
use refine_db.Prelude.{
  ℕ, zero, suc, ◌-◌, ◌*◌, ◌<◌, true, false, Option, none, some, List, [], ◌∷◌, length, get_elem?,
  All, is_empty, ok, ◌>>=◌, ◌≡◌, refl, sym, ◌∙◌, ap, subst, arith, >>=-eq-ok, ok_or-Ensures,
}
use refine_db.Treewalker.Bytecode.{TwGraph}
use refine_db.Treewalker.Values.{VmValue, bool, null, primitive, table, set, map, list}
use refine_db.Treewalker.Typeck.{NodeTypes}
use refine_db.Treewalker.Typeck.Graphs.{Node}
use refine_db.Treewalker.Typeck.Topology.{IsSorted}
use refine_db.Exec.FireRules.Table.{generate_fire_rules-rules_of}
use refine_db.Kv.OrderedMap.{OrderedMap}
use refine_db.Kv.MockKv.{Entry}
use refine_db.Exec.Outcome.{Host, Executed, panicked}
use refine_db.Exec.Reduce.{Machine, Subgraph}
use refine_db.Exec.RunNode.{Context}
use refine_db.Exec.FireRules.{
  FireRuleTable, FireRuleItem, FireRuleKind, param_dep, precondition, generate_fire_rules,
}
use refine_db.Exec.Progress.{
  Pending, Work, selected, run_with, Progress, initial_progress, Params, condition_of, satisfy_kind,
  satisfy, first_candidate, all_params, fire, fire_select, fire_node, fire_target, fire_targets,
}
use refine_db.Exec.Loop.{
  Executor, tables_of, recursively_run_graph, loop_fuel, edge_count, run_future, complete, run_loop,
  take_at, next_choice, without_choice,
}
use refine_db.Exec.Ends.Runs.{run_node-Ends}
use refine_db.Exec.Ends.{
  Ends, returned, Ends-bind, Ends-bind_of, Ends-panic, Ends-throw, Ends-unwrap, Ends-if,
  Ends-Option, ends,
}
use refine_db.Exec.Once.{Stage, IsStaged}
use refine_db.Exec.Once.Start.{initial_stages, initial_progress-IsStaged, initial_progress-todo}
use refine_db.Exec.Once.Sources.{HasDistinctSources}
use refine_db.Exec.Once.Stays.{todo}
use refine_db.Exec.Once.Complete.{IsTaken, take_at-IsTaken}
use refine_db.Exec.Once.Step.{HasRules, complete-StagedAgain}

condition_of-Ends : (v : Option VmValue) → Ends (condition_of v)
condition_of-Ends none = returned true
condition_of-Ends (some (bool x)) = returned x
condition_of-Ends (some (null t)) = returned false
condition_of-Ends (some (primitive x)) = Ends-panic
condition_of-Ends (some (table t x)) = Ends-panic
condition_of-Ends (some (set t x)) = Ends-panic
condition_of-Ends (some (map x)) = Ends-panic
condition_of-Ends (some (list t x)) = Ends-panic

satisfy_kind-Ends :
    (result : Option VmValue) (target : ℕ) (kind : FireRuleKind) (p : Progress)
    → Ends (satisfy_kind result target kind p)
unfolding satisfy_kind
satisfy_kind-Ends result target (param_dep i) p = search ends depth 8
satisfy_kind-Ends result target precondition p = search (ends, condition_of-Ends) depth 8

satisfy-Ends :
    (result : Option VmValue) (items : List FireRuleItem) (p : Progress)
    → Ends (satisfy result items p)
unfolding satisfy
satisfy-Ends result [] p = returned p
satisfy-Ends result (x ∷ items) p =
    Ends-bind (satisfy_kind-Ends result x.target_node x.kind p) (satisfy-Ends result items)

fire-Ends : (t : ℕ) (work : Work) (p : Progress) → Ends (fire t work p)
unfolding fire
fire-Ends t work p = search ends

fire_select-Ends : (t : ℕ) (d : Params) (p : Progress) → Ends (fire_select t d p)
unfolding fire_select
fire_select-Ends t d p =
    Ends-if (is_empty d) (Ends-throw _)
      (Ends-Option (first_candidate d) (returned p) (λ v. fire-Ends t (selected v) p))

fire_node-Ends : (t : ℕ) (d : Params) (p : Progress) → Ends (fire_node t d p)
unfolding fire_node
fire_node-Ends t d p = Ends-Option (all_params d) (returned p) (λ vs. fire-Ends t (run_with vs) p)

fire_target-Ends : (nodes : List Node) (t : ℕ) (p : Progress) → Ends (fire_target nodes t p)
unfolding fire_target
fire_target-Ends nodes t p = search (ends, fire_select-Ends, fire_node-Ends) depth 9

fire_targets-Ends :
    (nodes : List Node) (items : List FireRuleItem) (p : Progress)
    → Ends (fire_targets nodes items p)
unfolding fire_targets
fire_targets-Ends nodes [] p = returned p
fire_targets-Ends nodes (x ∷ items) p =
    Ends-bind (fire_target-Ends nodes x.target_node p) (fire_targets-Ends nodes items)

module _ (host : Host) {m : OrderedMap Entry} (cx : Context m)
    (go_ends : (g : ℕ) (params : List VmValue) (s : Machine m) → Ends (cx.go g params s))
    (g : TwGraph) (types : NodeTypes) (rules : FireRuleTable) where
  run_future-Ends :
      (i : ℕ) (work : Work) (s : Machine m) → Ends (run_future host cx g types rules i work s)
  unfolding run_future
  run_future-Ends i (selected v) s = returned _
  run_future-Ends i (run_with params) s = search (ends, run_node-Ends host cx go_ends)

  complete-Ends :
      (f : Pending) (p : Progress) (s : Machine m) → Ends (complete host cx g types rules f p s)
  unfolding complete
  complete-Ends f p s = Ends-bind (run_future-Ends f.node f.work s) λ (result, s').
      Ends-bind (Ends-unwrap (get_elem? rules f.node)) λ to_fire.
        Ends-bind (satisfy-Ends result to_fire _)
          λ p'. Ends-bind (fire_targets-Ends g.nodes to_fire p') λ p''. returned (p'', s')

  module _ (has : HasRules g.nodes rules) (distinct : HasDistinctSources g.nodes) where
    run_loop-Ends :
        (fuel : ℕ) (stages : List Stage) (p : Progress) (s : Machine m)
        → IsStaged g.nodes stages p
        → todo stages p < fuel
        → Ends (run_loop host cx g types rules fuel p s)
    unfolding run_loop
    run_loop-Ends zero stages p s staged h = absurd (omega arith)
    run_loop-Ends (suc fuel) stages p s staged h =
        round p.futures refl
          λ stages' p' s' staged' l. run_loop-Ends fuel stages' p' s' staged' (omega (arith, l, h))
      where
        round :
            (fs : List Pending)
            → p.futures ≡ fs
            → ((stages' : List Stage) (p' : Progress) (s' : Machine m)
                → IsStaged g.nodes stages' p'
                → todo stages' p' < todo stages p
                → Ends (run_loop host cx g types rules fuel p' s'))
            → Ends {A = Option VmValue × Machine m} (elim fs [
              | [] ↦ ok (p.ret, s)
              | f ∷ fs' ↦
                  let (next, rest) = take_at (next_choice s) f fs' in
                  complete host cx g types rules next
                    (record p { futures = rest })
                    (without_choice s)
                  >>= λ (p', s'). run_loop host cx g types rules fuel p' s'
            ])
        round [] e again = returned _
        round (f ∷ fs) e again =
            let (next, rest) = take_at (next_choice s) f fs in
            let taken : IsTaken p.futures next rest =
              subst (λ l. IsTaken l next rest) (sym e) (take_at-IsTaken (next_choice s) f fs) in
            let left = todo stages p - 1 in
            Ends-bind_of (complete-Ends next (record p { futures = rest }) (without_choice s))
              (complete-StagedAgain host cx g types rules has distinct stages p next rest left
                (without_choice s) staged taken (omega (arith, taken.one_less)))
              λ (p', s') (stages', staged', same).
                again stages' p' s' staged' (omega (arith, same, taken.one_less))

-- The graphs that a type checked script has, each with its rules; what no check of the program asks is
-- that no node names a source twice.
pub record IsRunnable (ex : Executor) : Type 0 where
  pub sorted : All (λ (g : TwGraph). IsSorted 0 g.nodes) ex.vm.graphs
  pub distinct : All (λ (g : TwGraph). HasDistinctSources g.nodes) ex.vm.graphs
  pub has_tables : tables_of ex.vm.graphs ≡ ok ex.fire_rule_tables

some_same : {A : Type 0} {x y : A} → some x ≡ some y → x ≡ y
some_same h = cc

ok_same : {A : Type 0} {x y : A} → ◌≡◌ {A = Executed A} (ok x) (ok y) → x ≡ y
ok_same h = cc

tables_of-cons :
    (g : TwGraph) (graphs : List TwGraph) {tables : List FireRuleTable}
    → tables_of (g ∷ graphs) ≡ ok tables
    → (t : FireRuleTable) × (ts : List FireRuleTable) × (generate_fire_rules g ≡ ok t)
      × (tables_of graphs ≡ ok ts)
      × (t ∷ ts ≡ tables)
unfolding tables_of
tables_of-cons g graphs h =
    let (t, ht, h') =
      >>=-eq-ok (generate_fire_rules g) (λ t. tables_of graphs >>= λ ts. ok (t ∷ ts)) h in
    let (ts, hts, h'') = >>=-eq-ok (tables_of graphs) (λ ts. ok (t ∷ ts)) h' in
    (t, ts, ht, hts, ok_same h'')

enough : (n e : ℕ) {k : ℕ} → k ≡ n → k < suc (n * suc e)
enough n e h = grind arith

tables_of-HasRules :
    (graphs : List TwGraph) (tables : List FireRuleTable) (i : ℕ) (g : TwGraph)
    (rules : FireRuleTable)
    → All (λ (g : TwGraph). IsSorted 0 g.nodes) graphs
    → All (λ (g : TwGraph). HasDistinctSources g.nodes) graphs
    → tables_of graphs ≡ ok tables
    → get_elem? graphs i ≡ some g
    → get_elem? tables i ≡ some rules
    → HasRules g.nodes rules × HasDistinctSources g.nodes
unfolding tables_of
tables_of-HasRules [] tables i g rules sorted distinct h hg hr = cc
tables_of-HasRules (g' ∷ graphs) tables zero g rules sorted distinct h hg hr =
    let (t, ts, ht, _, same) = tables_of-cons g' graphs h in
    let (built, made, _, rows) = generate_fire_rules-rules_of g' sorted.0 in
    let is_graph : g' ≡ g = some_same hg in
    let is_table : built ≡ rules =
      ok_same (sym made ∙ ht) ∙ some_same (ap (λ l. get_elem? l 0) same ∙ hr) in
    rw (← is_graph, ← is_table) (rows, distinct.0)
tables_of-HasRules (g' ∷ graphs) tables (suc i) g rules sorted distinct h hg hr =
    let (t, ts, _, hts, same) = tables_of-cons g' graphs h in
    tables_of-HasRules graphs ts i g rules sorted.1 distinct.1 hts hg
      (ap (λ l. get_elem? l (suc i)) same ∙ hr)

module _ (host : Host) {m : OrderedMap Entry} (ex : Executor) (runnable : IsRunnable ex) where
  -- A graph runs to its end, at any depth and in any order of its futures: it returns, or fails with an
  -- error or a panic of the program.
  pub recursively_run_graph-Ends :
      (depth_left graph_index : ℕ) (params : List VmValue) (s : Machine m)
      → Ends (recursively_run_graph host ex depth_left graph_index params s)
  unfolding recursively_run_graph
  recursively_run_graph-Ends zero graph_index params s = Ends-throw _
  recursively_run_graph-Ends (suc depth_left) graph_index params s =
      let go : Subgraph m = recursively_run_graph host ex depth_left in
      Ends-bind_of (Ends-unwrap (get_elem? ex.vm.graphs graph_index))
        (ok_or-Ensures panicked (get_elem? ex.vm.graphs graph_index))
        λ g hg. Ends-bind (Ends-unwrap (get_elem? ex.type_info graph_index)) λ info.
          Ends-bind_of (Ends-unwrap (get_elem? ex.fire_rule_tables graph_index))
            (ok_or-Ensures panicked (get_elem? ex.fire_rule_tables graph_index))
            λ rules hr.
              let (has, distinct) =
                tables_of-HasRules ex.vm.graphs ex.fire_rule_tables graph_index g rules
                  runnable.sorted runnable.distinct runnable.has_tables hg hr in
              run_loop-Ends host (record { vm = ex.vm; graph_params = params; go = go })
                (recursively_run_graph-Ends depth_left) g info.node_types rules has distinct
                (loop_fuel g) (initial_stages g.nodes) (initial_progress g.nodes) s
                (initial_progress-IsStaged g.nodes)
                (enough (length g.nodes) (edge_count g.nodes) (initial_progress-todo g.nodes))
