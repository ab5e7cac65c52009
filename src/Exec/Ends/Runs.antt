-- ===== src/Exec/Ends/Runs.antt =====
-- rdb-analyzer/src/data/treewalker/exec.rs: the fuel of a scan is enough, and a node ends if the
-- subgraphs that it calls do.
use refine_db.Prelude.{
  ℕ, zero, suc, ◌<◌, String, Bytes, Bool, true, false, ◌&&◌, Option, none, some, List, length, ok,
  ◌>>=◌, ap, subst, arith, lookup,
}
use refine_db.PathWalker.{Walker, set_fast_scan_prefix}
use refine_db.Treewalker.Bytecode
use refine_db.Treewalker.Bytecode.{TwGraphNode, is_optional_chained}
use refine_db.Treewalker.Types.{VmType}
use refine_db.Treewalker.Values.{VmValue, set, list, VmSetValueKind, VmItems, no_item, item}
use refine_db.Treewalker.Typeck.{TwVm}
use refine_db.Kv.OrderedMap.{OrderedMap}
use refine_db.Kv.MockKv.{Entry, Iterator, next, scan_keys}
use refine_db.Kv.MockKv.Scan.{left_of, Advanced, next-Advanced}
use refine_db.Exec.Outcome.{Host}
use refine_db.Exec.Reduce.{
  Machine, Subgraph, reduce_step, reduce_items, scanned, reduce_keys, scan_start, scan_end,
  scan_bounds, scan_fuel, reduce_set, reduce_over, reduce_of,
}
use refine_db.Exec.RunNode.{Context, any_null, evaluate, run_node, throw_of}
use refine_db.Exec.Ends.Nodes.{computed}
use refine_db.Exec.Ends.Effects.{
  as_table_name-Ends, stored_set-Ends, get_set_element_of-Ends, get_field_of-Ends,
  insert_into_set_of-Ends, insert_into_table_of-Ends, delete_from_set_of-Ends, is_present_of-Ends,
}
use refine_db.Exec.Ends.{
  Ends, returned, Ends-bind, Ends-panic, Ends-throw, Ends-unwrap, Ends-unwrap_walked, Ends-if,
  Ends-Option, ends,
}

scan_bounds-Ends :
    (prefix : Bytes) (has_range : Bool) (params : List VmValue)
    → Ends (scan_bounds prefix has_range params)
unfolding scan_bounds scan_start scan_end
scan_bounds-Ends prefix false params = returned _
scan_bounds-Ends prefix true params = search ends depth 12

scanned-Ends :
    (w : Walker) (prefix : Bytes) (ty : String) (k : Bytes) → Ends (scanned w prefix ty k)
scanned-Ends w prefix ty k = search ends

module _ {m : OrderedMap Entry} (go : Subgraph m)
    (go_ends : (g : ℕ) (params : List VmValue) (s : Machine m) → Ends (go g params s)) (g : ℕ) where
  reduce_step-Ends : (u acc n : VmValue) (s : Machine m) → Ends (reduce_step go g u acc n s)
  reduce_step-Ends u acc n s = search (ends, go_ends)

  reduce_items-Ends :
      (u : VmValue) (items : VmItems) (acc : VmValue) (s : Machine m)
      → Ends (reduce_items go g u items acc s)
  unfolding reduce_items
  reduce_items-Ends u no_item acc s = returned _
  reduce_items-Ends u (item n items) acc s =
      Ends-bind (reduce_step-Ends u acc n s)
        λ (output, s'). Ends-Option output (returned _) (λ acc'. reduce_items-Ends u items acc' s')

  reduce_keys-Ends :
      (fuel : ℕ) (w : Walker) (prefix : Bytes) (ty : String) (u : VmValue) (it : Iterator m)
      (acc : VmValue) (s : Machine m)
      → length (left_of m it) < fuel
      → Ends (reduce_keys go g fuel w prefix ty u it acc s)
  unfolding reduce_keys
  reduce_keys-Ends zero w prefix ty u it acc s h = absurd (omega arith)
  reduce_keys-Ends (suc fuel) w prefix ty u it acc s h =
      step (next m it).0 (next m it).1 (next-Advanced m it)
        λ it' acc' s' l. reduce_keys-Ends fuel w prefix ty u it' acc' s' (omega (arith, l, h))
    where
      step :
          (key : Option Bytes) (it' : Iterator m)
          → Advanced m (left_of m it) (key, it')
          → ((i : Iterator m) (acc : VmValue) (s : Machine m)
              → length (left_of m i) < length (left_of m it)
              → Ends (reduce_keys go g fuel w prefix ty u i acc s))
          → Ends {A = VmValue × Machine m} (elim key [
            | none ↦ ok (acc, s)
            | some k ↦ scanned w prefix ty k >>= λ n. reduce_step go g u acc n s >>= λ (output, s').
                elim output [
                  | none ↦ ok (acc, s')
                  | some acc' ↦ reduce_keys go g fuel w prefix ty u it' acc' s'
                ]
          ])
      step none it' a again = returned _
      step (some k) it' a again = Ends-bind (scanned-Ends w prefix ty k) λ n.
          Ends-bind (reduce_step-Ends u acc n s)
            λ (output, s'). Ends-Option output (returned _) (λ acc'. again it' acc' s' a.1)

module _ {m : OrderedMap Entry} (go : Subgraph m)
    (go_ends : (g : ℕ) (params : List VmValue) (s : Machine m) → Ends (go g params s))
    (vm : TwVm) where
  reduce_set-Ends :
      (g : ℕ) (has_range : Bool) (params : List VmValue) (member_ty : VmType)
      (kind : VmSetValueKind) (u init : VmValue) (s : Machine m)
      → Ends (reduce_set go vm g has_range params member_ty kind u init s)
  unfolding reduce_set scan_keys
  reduce_set-Ends g has_range params member_ty kind u init s = Ends-bind (stored_set-Ends kind) λ w.
      Ends-bind (as_table_name-Ends member_ty) λ ty.
        Ends-bind (Ends-unwrap (lookup ty vm.schema.types)) λ specialized_ty.
          Ends-bind (Ends-unwrap_walked (set_fast_scan_prefix w)) λ prefix.
            Ends-bind (scan_bounds-Ends prefix has_range params) λ (start, end).
              reduce_keys-Ends go go_ends g (scan_fuel go vm g has_range start end s) w prefix
                specialized_ty.name u (scan_keys m start end s.txn) init s
                (subst (λ k. k < scan_fuel go vm g has_range start end s)
                  (ap length (m.range_lem start end s.txn.buffer)) (omega arith))

  reduce_over-Ends :
      (g : ℕ) (has_range : Bool) (params : List VmValue) (u init v : VmValue) (s : Machine m)
      → Ends (reduce_over go vm g has_range params u init v s)
  unfolding reduce_over
  reduce_over-Ends g has_range params u init (list t items) s =
      reduce_items-Ends go go_ends g u items init s
  reduce_over-Ends g has_range params u init (set t kind) s =
      reduce_set-Ends g has_range params t kind u init s
  reduce_over-Ends g has_range params u init _ s = Ends-panic

  reduce_of-Ends :
      (g : ℕ) (has_range : Bool) (params : List VmValue) (type_info : Option VmType) (s : Machine m)
      → Ends (reduce_of go vm g has_range params type_info s)
  unfolding reduce_of
  reduce_of-Ends g has_range params type_info s = search (ends, reduce_over-Ends) depth 10

throw_of-Ends : {A : Type 0} (params : List VmValue) → Ends (throw_of {A = A} params)
unfolding throw_of
throw_of-Ends params = search ends depth 10

module _ (host : Host) {m : OrderedMap Entry} (cx : Context m)
    (go_ends : (g : ℕ) (params : List VmValue) (s : Machine m) → Ends (cx.go g params s)) where
  evaluate-Ends :
      (n : TwGraphNode) (params : List VmValue) (type_info : Option VmType) (s : Machine m)
      → Ends (evaluate host cx n params type_info s)
  unfolding evaluate
  evaluate-Ends Bytecode.select params type_info s = Ends-panic
  evaluate-Ends Bytecode.create_map params type_info s = returned _
  evaluate-Ends (Bytecode.filter_set g) params type_info s = Ends-throw _
  evaluate-Ends (Bytecode.call g) params type_info s = go_ends g params s
  evaluate-Ends (Bytecode.reduce g has_range) params type_info s =
      reduce_of-Ends cx.go go_ends cx.vm g has_range params type_info s
  evaluate-Ends Bytecode.throw params type_info s = throw_of-Ends params
  evaluate-Ends (Bytecode.get_field i) params type_info s =
      search (ends, get_field_of-Ends host m cx.vm i params s.txn)
  evaluate-Ends Bytecode.insert_into_set params type_info s =
      search (ends, insert_into_set_of-Ends host m cx.vm params s.txn)
  evaluate-Ends (Bytecode.insert_into_table i) params type_info s =
      search (ends, insert_into_table_of-Ends host m cx.vm i params s.txn)
  evaluate-Ends Bytecode.delete_from_set params type_info s =
      search (ends, delete_from_set_of-Ends m params s.txn)
  evaluate-Ends Bytecode.is_present params type_info s =
      search (ends, is_present_of-Ends m params s.txn)
  evaluate-Ends Bytecode.get_set_element params type_info s = search (ends, get_set_element_of-Ends)
  evaluate-Ends _ params type_info s = search (ends, computed) depth 8

  pub run_node-Ends :
      (n : TwGraphNode) (params : List VmValue) (type_info : Option VmType) (s : Machine m)
      → Ends (run_node host cx n params type_info s)
  unfolding run_node
  run_node-Ends n params type_info s =
      Ends-if (is_optional_chained n && any_null params) (returned _)
        (evaluate-Ends n params type_info s)
