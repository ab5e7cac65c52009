-- ===== src/Exec/Once/Step.antt =====
-- rdb-analyzer/src/data/treewalker/exec.rs: one round of the loop of recursively_run_graph leaves one
-- node less to complete.
use refine_db.Prelude.{
  ℕ, suc, ◌<◌, Option, some, List, length, get_elem?, All, ◌≡◌, ap, subst, arith, Ensures, returns,
  ◌⟫◌, Ensures-any, ok_or-Ensures, if◌then◌else◌,
}
use refine_db.Treewalker.Bytecode.{TwGraph}
use refine_db.Treewalker.Typeck.{NodeTypes}
use refine_db.Treewalker.Typeck.Graphs.{Node}
use refine_db.Kv.OrderedMap.{OrderedMap}
use refine_db.Kv.MockKv.{Entry}
use refine_db.Exec.Outcome.{Host, panicked}
use refine_db.Exec.Reduce.{Machine}
use refine_db.Exec.RunNode.{Context}
use refine_db.Exec.FireRules.{FireRuleTable, FireRuleItem, rules_of}
use refine_db.Exec.Progress.{Pending, Progress}
use refine_db.Exec.Loop.{run_future, complete, is_output}
use refine_db.Exec.Once.{Stage, completed, IsStaged}
use refine_db.Prelude.Updates.{set}
use refine_db.Exec.Once.Sources.{
  IsRule, HasDistinctSources, AreAscending, rules_of-IsRule, rules_of-AreAscending,
}
use refine_db.Exec.Once.Satisfy.{satisfy-IsStaged}
use refine_db.Exec.Once.Stays.{todo}
use refine_db.Exec.Once.Fire.{IsOpen, StagedAgain, fire_targets-StagedAgain}
use refine_db.Exec.Once.Complete.{IsTaken, taken_out, taken-IsDone, taken_todo, rules-IsOpen}

-- The row of each node is what its edges give.
abbrev pub HasRules : List Node → FireRuleTable → Type 0
HasRules nodes rules = (s : ℕ) → s < length nodes → get_elem? rules s ≡ some (rules_of s 0 nodes)

same_row : {A : Type 0} {o : Option A} {x y : A} → o ≡ some x → o ≡ some y → x ≡ y
same_row h k = cc

module _ (host : Host) {m : OrderedMap Entry} (cx : Context m) (g : TwGraph) (types : NodeTypes)
    (rules : FireRuleTable) (has : HasRules g.nodes rules)
    (distinct : HasDistinctSources g.nodes) where
  pub complete-StagedAgain :
      (stages : List Stage) (p : Progress) (f : Pending) (rest : List Pending) (left : ℕ)
      (s : Machine m)
      → IsStaged g.nodes stages p
      → IsTaken p.futures f rest
      → todo stages p ≡ suc left
      → Ensures
          (λ (p', s'). StagedAgain g.nodes left p')
          (complete host cx g types rules f (record p { futures = rest }) s)
  unfolding complete
  complete-StagedAgain stages p f rest left s staged taken size =
      Ensures-any (run_future host cx g types rules f.node f.work s) ⟫ λ (result, s') _.
      ok_or-Ensures panicked (get_elem? rules f.node) ⟫ λ to_fire h.
      let stages' = set stages f.node completed in
      let ret = if is_output g f.node then result else p.ret in
      let row = same_row (has f.node (taken.bounded (length g.nodes) staged.in_graph).0) h in
      let open_ = rules-IsOpen g.nodes stages p staged f rest taken in
      satisfy-IsStaged g.nodes stages' f.node result to_fire
        (record p { futures = rest; ret = ret }) (taken-IsDone g.nodes stages p staged f rest taken)
        (subst (All (IsRule g.nodes f.node)) row (rules_of-IsRule g.nodes f.node))
        (taken_out g.nodes stages p staged f rest taken ret)
      ⟫ λ p' (staged', same).
          fire_targets-StagedAgain g.nodes stages' to_fire p'
            (subst (All (λ (y : FireRuleItem). IsOpen g.nodes stages' y.target_node)) row open_)
            (subst AreAscending row (rules_of-AreAscending f.node g.nodes distinct)) staged'
          ⟫ λ p'' (stages'', staged'', same').
              let left_ = taken_todo g.nodes stages p staged f rest taken ret in
              returns {a = (p'', s')}
                (stages'', staged'', omega (arith, same', ap length same, left_, size))
