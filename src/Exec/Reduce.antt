-- ===== src/Exec/Reduce.antt =====
-- rdb-analyzer/src/data/treewalker/exec.rs: the state of a run, and the node `Reduce`. A run is the
-- transaction and the numbers by which the scheduler of the futures chooses; `go` runs a subgraph.
use mathlib.Core.Option
use refine_db.Prelude.{
  ℕ, zero, suc, ◌-◌, ◌==◌, if◌then◌else◌, Bytes, String, [], ◌∷◌, ◌++◌, Bool, true, false, Option,
  none, some, List, length, ok, err, ◌>>=◌, lookup,
}
use refine_db.Value.{serialize_for_key_component}
use refine_db.PathWalker.{Walker, enter_set_raw, set_fast_scan_prefix}
use refine_db.Treewalker.Types.{VmType}
use refine_db.Treewalker.Values.{
  VmValue, table, set, null, list, resident, VmSetValueKind, VmItems, no_item, item, is_null,
}
use refine_db.Treewalker.Access.{unwrap_primitive}
use refine_db.Treewalker.Typeck.{TwVm}
use refine_db.Kv.OrderedMap.{OrderedMap}
use refine_db.Kv.MockKv.{Entry, Transaction, Iterator, scan_keys, next}
use refine_db.Exec.Outcome.{Executed, panicked, out_of_fuel, unwrap, unwrap_walked}
use refine_db.Exec.Compute.{param}
use refine_db.Exec.Effects.{stored_set, as_table_name}
use refine_db.Exec.{move_up}

pub record Machine (m : OrderedMap Entry) : Type 0 where
  pub txn : Transaction m
  pub choices : List ℕ

abbrev pub Subgraph : OrderedMap Entry → Type 0
Subgraph m = ℕ → List VmValue → Machine m → Executed (Option VmValue × Machine m)

-- `*key.last_mut().unwrap() -= 1`
abbrev pub move_down : Bytes → Bytes
move_down [] = []
move_down (b ∷ []) = (b - 1) ∷ []
move_down (b ∷ (c ∷ k)) = b ∷ move_down (c ∷ k)

unfoldable pub strip_prefix : Bytes → Bytes → Option Bytes
strip_prefix [] k = some k
strip_prefix (b ∷ p) [] = none
strip_prefix (b ∷ p) (c ∷ k) = if b == c then strip_prefix p k else none

abbrev pub key_of_bound : VmValue → Executed Bytes
key_of_bound v = unwrap (unwrap_primitive v) >>= λ x. ok (serialize_for_key_component x)

unfoldable pub scan_start : Bytes → VmValue → Executed Bytes
scan_start prefix v = if is_null v then ok prefix else (key_of_bound v >>= λ k. ok (prefix ++ k))

unfoldable pub scan_end : Bytes → VmValue → Executed Bytes
scan_end prefix v =
    if is_null v
    then ok (move_up prefix)
    else (key_of_bound v >>= λ k. ok (move_down (move_up prefix) ++ k))

-- The two ends of the scan: all entries, or those from a start to below an end.
unfoldable pub scan_bounds : Bytes → Bool → List VmValue → Executed (Bytes × Bytes)
unfolding scan_start scan_end
scan_bounds prefix false params = ok (prefix, move_up prefix)
scan_bounds prefix true params = do
  maybe_start ← param params 3
  maybe_end ← param params 4
  start ← scan_start prefix maybe_start
  end ← scan_end prefix maybe_end
  ok (start, end)

-- The element of the set that a key of the scan stands for.
abbrev pub scanned : Walker → Bytes → String → Bytes → Executed VmValue
scanned w prefix ty k = do
  primary_key ← unwrap (strip_prefix prefix k)
  element ← unwrap_walked (enter_set_raw w primary_key)
  ok (table ty (resident element))

module _ {m : OrderedMap Entry} (go : Subgraph m) (g : ℕ) where
  -- One call of the subgraph: a null ends the loop.
  abbrev pub reduce_step :
      VmValue → VmValue → VmValue → Machine m → Executed (Option VmValue × Machine m)
  reduce_step u acc n s = do
    (output, s') ← go g (u ∷ acc ∷ n ∷ []) s
    v ← unwrap output
    ok (if is_null v then none else some v, s')

  unfoldable pub reduce_items :
      VmValue → VmItems → VmValue → Machine m → Executed (VmValue × Machine m)
  reduce_items u no_item acc s = ok (acc, s)
  reduce_items u (item n items) acc s = do
    (output, s') ← reduce_step u acc n s
    elim output [ none ↦ ok (acc, s') | some acc' ↦ reduce_items u items acc' s' ]

  unfoldable pub reduce_keys :
      ℕ
      → Walker
      → Bytes
      → String
      → VmValue
      → Iterator m
      → VmValue
      → Machine m
      → Executed (VmValue × Machine m)
  reduce_keys zero w prefix ty u it acc s = err out_of_fuel
  reduce_keys (suc fuel) w prefix ty u it acc s =
      let (key, it') = next m it in
      elim key [
        | none ↦ ok (acc, s)
        | some k ↦ scanned w prefix ty k >>= λ n. reduce_step u acc n s >>= λ (output, s').
            elim output [
              | none ↦ ok (acc, s')
              | some acc' ↦ reduce_keys fuel w prefix ty u it' acc' s'
            ]
      ]

module _ {m : OrderedMap Entry} (go : Subgraph m) (vm : TwVm) (g : ℕ) (has_range : Bool) where
  -- The keys of the scan are at most the entries of the range.
  abbrev pub scan_fuel : Bytes → Bytes → Machine m → ℕ
  scan_fuel start end s = suc (length (m.range start end s.txn.buffer))

  unfoldable pub reduce_set :
      List VmValue
      → VmType
      → VmSetValueKind
      → VmValue
      → VmValue
      → Machine m
      → Executed (VmValue × Machine m)
  unfolding scan_bounds reduce_keys
  reduce_set params member_ty kind u init s = do
    w ← stored_set kind
    ty ← as_table_name member_ty
    specialized_ty ← unwrap (lookup ty vm.schema.types)
    prefix ← unwrap_walked (set_fast_scan_prefix w)
    (start, end) ← scan_bounds prefix has_range params
    reduce_keys go g (scan_fuel start end s) w prefix specialized_ty.name u
        (scan_keys m start end s.txn) init s

  unfoldable pub reduce_over :
      List VmValue → VmValue → VmValue → VmValue → Machine m → Executed (VmValue × Machine m)
  unfolding reduce_items reduce_set
  reduce_over params u init (list _ items) s = reduce_items go g u items init s
  reduce_over params u init (set member_ty kind) s = reduce_set params member_ty kind u init s
  reduce_over params u init _ s = err panicked

  -- The node chains its collection only: a null one gives the null of the node's type.
  unfoldable pub reduce_of :
      List VmValue → Option VmType → Machine m → Executed (Option VmValue × Machine m)
  unfolding reduce_over
  reduce_of params type_info s = do
    u ← param params 0
    init ← param params 1
    collection ← param params 2
    if is_null collection
        then ok (Option.map null type_info, s)
        else (reduce_over params u init collection s >>= λ (v, s'). ok (some v, s'))
