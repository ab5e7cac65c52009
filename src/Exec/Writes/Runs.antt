-- ===== src/Exec/Writes/Runs.antt =====
-- rdb-analyzer/src/data/treewalker/exec.rs: a run of a graph writes to its transaction only.
use mathlib.Core.Option
use refine_db.Prelude.{
  ℕ, zero, suc, String, Bytes, Bool, ◌&&◌, Option, none, some, List, [], ◌∷◌, get_elem?, ok, ◌>>=◌,
  if◌then◌else◌, fails, Ensures-if, lookup,
}
use refine_db.PathWalker.{Walker, set_fast_scan_prefix}
use refine_db.Treewalker.Bytecode
use refine_db.Treewalker.Bytecode.{TwGraph, TwGraphNode, is_optional_chained}
use refine_db.Treewalker.Types.{VmType}
use refine_db.Treewalker.Values.{
  VmValue, primitive, table, set, bool, map, null, list, VmSetValueKind, VmItems, no_item, item,
  is_null, no_value,
}
use refine_db.Value.{unwrap_string}
use refine_db.Treewalker.Access.{unwrap_primitive}
use refine_db.Treewalker.Typeck.{TwVm, NodeTypes}
use refine_db.Kv.OrderedMap.{OrderedMap}
use refine_db.Kv.MockKv.{Entry, Iterator, next, scan_keys}
use refine_db.Exec.Outcome.{Host, Executed, unwrap, unwrap_walked}
use refine_db.Exec.Compute.{param}
use refine_db.Exec.Effects.{stored_set, as_table_name}
use refine_db.Exec.Reduce.{
  Machine, Subgraph, reduce_step, reduce_items, scanned, reduce_keys, scan_bounds, scan_fuel,
  reduce_set, reduce_over, reduce_of,
}
use refine_db.Exec.RunNode.{Context, any_null, evaluate, run_node}
use refine_db.Exec.FireRules.{FireRuleTable}
use refine_db.Exec.Progress.{
  Pending, Work, selected, run_with, Progress, initial_progress, satisfy, fire_targets,
}
use refine_db.Exec.Loop.{
  Executor, run_future, complete, run_loop, take_at, next_choice, without_choice, is_output,
  recursively_run_graph, loop_fuel,
}
use refine_db.Exec.Writes.Nodes.{
  insert_into_set_of-IsWritten, insert_into_table_of-IsWritten, delete_from_set_of-IsWritten,
}
use refine_db.Exec.Writes.{Leaves, Leaves-ok, Leaves-any, Leaves-bind, gives-Leaves, writes-Leaves}

Leaves-Option :
    {m : OrderedMap Entry} {A B : Type 0} (s : Machine m) (o : Option A)
    {r : Executed (B × Machine m)} {f : A → Executed (B × Machine m)}
    → Leaves s r
    → ((a : A) → Leaves s (f a))
    → Leaves {A = B} s (elim o [ none ↦ r | some a ↦ f a ])
Leaves-Option s none h k = h
Leaves-Option s (some a) h k = k a

module _ {m : OrderedMap Entry} (go : Subgraph m)
    (go_leaves : (g : ℕ) (params : List VmValue) (s : Machine m) → Leaves s (go g params s))
    (g : ℕ) where
  reduce_step-Leaves : (u acc n : VmValue) (s : Machine m) → Leaves s (reduce_step go g u acc n s)
  reduce_step-Leaves u acc n s = Leaves-bind s _ (go_leaves g (u ∷ acc ∷ n ∷ []) s) λ output s'.
      Leaves-any s' (unwrap output) λ v. Leaves-ok (if is_null v then none else some v) s'

  reduce_items-Leaves :
      (u : VmValue) (items : VmItems) (acc : VmValue) (s : Machine m)
      → Leaves s (reduce_items go g u items acc s)
  unfolding reduce_items
  reduce_items-Leaves u no_item acc s = Leaves-ok acc s
  reduce_items-Leaves u (item n items) acc s =
      Leaves-bind s _ (reduce_step-Leaves u acc n s) λ output s'.
        Leaves-Option s' output (Leaves-ok acc s') (λ acc'. reduce_items-Leaves u items acc' s')

  reduce_keys-Leaves :
      (fuel : ℕ) (w : Walker) (prefix : Bytes) (ty : String) (u : VmValue) (it : Iterator m)
      (acc : VmValue) (s : Machine m)
      → Leaves s (reduce_keys go g fuel w prefix ty u it acc s)
  unfolding reduce_keys
  reduce_keys-Leaves zero w prefix ty u it acc s = fails
  reduce_keys-Leaves (suc fuel) w prefix ty u it acc s =
      Leaves-Option s (next m it).0 (Leaves-ok acc s) λ k. Leaves-any s (scanned w prefix ty k) λ n.
        Leaves-bind s _ (reduce_step-Leaves u acc n s) λ output s'.
          Leaves-Option s' output (Leaves-ok acc s')
            λ acc'. reduce_keys-Leaves fuel w prefix ty u (next m it).1 acc' s'

module _ {m : OrderedMap Entry} (go : Subgraph m)
    (go_leaves : (g : ℕ) (params : List VmValue) (s : Machine m) → Leaves s (go g params s))
    (vm : TwVm) (g : ℕ) (has_range : Bool) where
  reduce_set-Leaves :
      (params : List VmValue) (member_ty : VmType) (kind : VmSetValueKind) (u init : VmValue)
      (s : Machine m)
      → Leaves s (reduce_set go vm g has_range params member_ty kind u init s)
  unfolding reduce_set
  reduce_set-Leaves params member_ty kind u init s = Leaves-any s (stored_set kind) λ w.
      Leaves-any s (as_table_name member_ty) λ ty.
        Leaves-any s (unwrap (lookup ty vm.schema.types)) λ specialized_ty.
          Leaves-any s (unwrap_walked (set_fast_scan_prefix w)) λ prefix.
            Leaves-any s (scan_bounds prefix has_range params) λ (start, end).
              reduce_keys-Leaves go go_leaves g (scan_fuel go vm g has_range start end s) w prefix
                specialized_ty.name u (scan_keys m start end s.txn) init s

  reduce_over-Leaves :
      (params : List VmValue) (u init v : VmValue) (s : Machine m)
      → Leaves s (reduce_over go vm g has_range params u init v s)
  unfolding reduce_over
  reduce_over-Leaves params u init (list t items) s =
      reduce_items-Leaves go go_leaves g u items init s
  reduce_over-Leaves params u init (set t kind) s = reduce_set-Leaves params t kind u init s
  reduce_over-Leaves params u init (primitive x) s = fails
  reduce_over-Leaves params u init (table t x) s = fails
  reduce_over-Leaves params u init (bool x) s = fails
  reduce_over-Leaves params u init (map x) s = fails
  reduce_over-Leaves params u init (null t) s = fails

  reduce_of-Leaves :
      (params : List VmValue) (type_info : Option VmType) (s : Machine m)
      → Leaves s (reduce_of go vm g has_range params type_info s)
  unfolding reduce_of
  reduce_of-Leaves params type_info s = Leaves-any s (param params 0) λ u.
      Leaves-any s (param params 1) λ init. Leaves-any s (param params 2) λ collection.
        Ensures-if (is_null collection) (λ _. Leaves-ok (Option.map null type_info) s)
          (λ _.
            Leaves-bind s _ (reduce_over-Leaves params u init collection s)
              λ v s'. Leaves-ok (some v) s')

module _ (host : Host) {m : OrderedMap Entry} (cx : Context m)
    (go_leaves : (g : ℕ) (params : List VmValue) (s : Machine m)
      → Leaves s (cx.go g params s)) where
  evaluate-Leaves :
      (n : TwGraphNode) (params : List VmValue) (type_info : Option VmType) (s : Machine m)
      → Leaves s (evaluate host cx n params type_info s)
  unfolding evaluate
  evaluate-Leaves Bytecode.select params type_info s = fails
  evaluate-Leaves (Bytecode.filter_set g) params type_info s = fails
  evaluate-Leaves Bytecode.create_map params type_info s = Leaves-ok (some (map no_value)) s
  evaluate-Leaves (Bytecode.call g) params type_info s = go_leaves g params s
  evaluate-Leaves (Bytecode.reduce g has_range) params type_info s =
      reduce_of-Leaves cx.go go_leaves cx.vm g has_range params type_info s
  evaluate-Leaves Bytecode.throw params type_info s = Leaves-any s (param params 0) λ msg.
      Ensures-if (is_null msg) (λ _. fails)
        (λ _.
          Leaves-any s (unwrap (unwrap_primitive msg))
            λ x. Leaves-any s (unwrap (unwrap_string x)) λ message. fails)
  evaluate-Leaves Bytecode.insert_into_set params type_info s =
      writes-Leaves _ s (insert_into_set_of-IsWritten host cx.vm params s.txn)
  evaluate-Leaves (Bytecode.insert_into_table i) params type_info s =
      writes-Leaves _ s (insert_into_table_of-IsWritten host cx.vm i params s.txn)
  evaluate-Leaves Bytecode.delete_from_set params type_info s =
      writes-Leaves _ s (delete_from_set_of-IsWritten params s.txn)
  evaluate-Leaves _ params type_info s = gives-Leaves _ s

  run_node-Leaves :
      (n : TwGraphNode) (params : List VmValue) (type_info : Option VmType) (s : Machine m)
      → Leaves s (run_node host cx n params type_info s)
  unfolding run_node
  run_node-Leaves n params type_info s =
      Ensures-if (is_optional_chained n && any_null params)
        (λ _. Leaves-ok (Option.map null type_info) s) (λ _. evaluate-Leaves n params type_info s)

module _ (host : Host) {m : OrderedMap Entry} (cx : Context m)
    (go_leaves : (g : ℕ) (params : List VmValue) (s : Machine m) → Leaves s (cx.go g params s))
    (g : TwGraph) (types : NodeTypes) (rules : FireRuleTable) where
  run_future-Leaves :
      (i : ℕ) (work : Work) (s : Machine m) → Leaves s (run_future host cx g types rules i work s)
  unfolding run_future
  run_future-Leaves i (selected v) s = Leaves-ok (some v) s
  run_future-Leaves i (run_with params) s = Leaves-any s (unwrap (get_elem? g.nodes i)) λ (n, _, _).
      Leaves-any s (unwrap (get_elem? types i))
        λ type_info. run_node-Leaves host cx go_leaves n params type_info s

  complete-Leaves :
      (f : Pending) (p : Progress) (s : Machine m) → Leaves s (complete host cx g types rules f p s)
  unfolding complete
  complete-Leaves f p s = Leaves-bind s _ (run_future-Leaves f.node f.work s) λ result s'.
      Leaves-any s' (unwrap (get_elem? rules f.node)) λ to_fire.
        Leaves-any s'
          (satisfy result to_fire (record p { ret = if is_output g f.node then result else p.ret }))
          λ p'. Leaves-any s' (fire_targets g.nodes to_fire p') λ p''. Leaves-ok p'' s'

  run_loop-Leaves :
      (fuel : ℕ) (p : Progress) (s : Machine m) → Leaves s (run_loop host cx g types rules fuel p s)
  unfolding run_loop
  run_loop-Leaves zero p s = fails
  run_loop-Leaves (suc fuel) p s = round p.futures (run_loop-Leaves fuel)
    where
      round :
          (fs : List Pending)
          → ((p' : Progress) (s' : Machine m)
              → Leaves s' (run_loop host cx g types rules fuel p' s'))
          → Leaves {A = Option VmValue} s (elim fs [
            | [] ↦ ok (p.ret, s)
            | f ∷ fs' ↦
                let (next, rest) = take_at (next_choice s) f fs' in
                complete host cx g types rules next (record p { futures = rest }) (without_choice s)
                >>= λ (p', s'). run_loop host cx g types rules fuel p' s'
          ])
      round [] again = Leaves-ok p.ret s
      round (f ∷ fs) again =
          let (next, rest) = take_at (next_choice s) f fs in
          Leaves-bind (without_choice s) _
            (complete-Leaves next (record p { futures = rest }) (without_choice s)) again

-- What a run of a graph leaves of its transaction is reached by writes.
pub recursively_run_graph-Leaves :
    (host : Host) {m : OrderedMap Entry} (ex : Executor) (depth_left graph_index : ℕ)
    (params : List VmValue) (s : Machine m)
    → Leaves s (recursively_run_graph host ex depth_left graph_index params s)
unfolding recursively_run_graph
recursively_run_graph-Leaves host ex zero graph_index params s = fails
recursively_run_graph-Leaves host {m} ex (suc depth_left) graph_index params s =
    let go : Subgraph m = recursively_run_graph host ex depth_left in
    Leaves-any s (unwrap (get_elem? ex.vm.graphs graph_index)) λ g.
      Leaves-any s (unwrap (get_elem? ex.type_info graph_index)) λ info.
        Leaves-any s (unwrap (get_elem? ex.fire_rule_tables graph_index)) λ rules.
          run_loop-Leaves host (record { vm = ex.vm; graph_params = params; go = go })
            (recursively_run_graph-Leaves host ex depth_left) g info.node_types rules (loop_fuel g)
            (initial_progress g.nodes) s
