-- ===== src/Exec/Progress.antt =====
-- rdb-analyzer/src/data/treewalker/exec.rs: the state of a graph that runs (`deps_satisfied`,
-- `precondition_satisfied`, `futures`, `ret`), and what the result of a node does to it.
use refine_db.Prelude.{
  ℕ, suc, if◌then◌else◌, Bool, true, false, Option, none, some, List, [], ◌∷◌, ◌++◌, get_elem?, ok,
  err, ◌>>=◌, is_empty,
}
use refine_db.Prelude.Updates.{some_cons, store_at}
use refine_db.Treewalker.Bytecode.{is_select}
use refine_db.Treewalker.Values.{VmValue, bool, null}
use refine_db.Treewalker.Typeck.Graphs.{Node}
use refine_db.Exec.Outcome.{Executed, panicked, throw, unwrap, both_select_candidates_fired}
use refine_db.Exec.FireRules.{FireRuleItem, FireRuleKind, param_dep, precondition}

-- A future: a select that has its candidate, or a node with its parameters.
pub data Work : Type 0 where
  selected : VmValue → Work
  run_with : List VmValue → Work

pub record Pending : Type 0 where
  pub node : ℕ
  pub work : Work

abbrev pub Params : Type 0
Params = List (Option VmValue)

pub record Progress : Type 0 where
  pub deps_satisfied : List Params
  pub precondition_satisfied : List Bool
  pub futures : List Pending
  pub ret : Option VmValue

abbrev pub nothing_for : List ℕ → Params
nothing_for [] = []
nothing_for (e ∷ es) = none ∷ nothing_for es

abbrev pub is_unconditional : Option ℕ → Bool
is_unconditional none = true
is_unconditional (some p) = false

abbrev pub no_deps : List Node → List Params
no_deps [] = []
no_deps ((_, in_edges, _) ∷ nodes) = nothing_for in_edges ∷ no_deps nodes

abbrev pub unconditional : List Node → List Bool
unconditional [] = []
unconditional ((_, _, p) ∷ nodes) = is_unconditional p ∷ unconditional nodes

abbrev pub starts : List ℕ → Option ℕ → Bool
starts in_edges p = if is_empty in_edges then is_unconditional p else false

-- The initial batch, from the node numbered `i` on.
unfoldable pub initial_batch : ℕ → List Node → List Pending
initial_batch i [] = []
initial_batch i ((_, in_edges, p) ∷ nodes) =
    let rest = initial_batch (suc i) nodes in
    if starts in_edges p then record { node = i; work = run_with [] } ∷ rest else rest

unfoldable pub initial_progress : List Node → Progress
unfolding initial_batch
initial_progress nodes = record {
  deps_satisfied = no_deps nodes;
  precondition_satisfied = unconditional nodes;
  futures = initial_batch 0 nodes;
  ret = none;
}

-- The value of a precondition; an effect node that has run satisfies it.
abbrev pub condition_of : Option VmValue → Executed Bool
condition_of (some (bool x)) = ok x
condition_of (some (null _)) = ok false
condition_of none = ok true
condition_of (some _) = err panicked

-- The first loop over the fire rules of a node that gave `result`.
unfoldable pub satisfy_kind : Option VmValue → ℕ → FireRuleKind → Progress → Executed Progress
unfolding store_at
satisfy_kind result target (param_dep position) p = do
  v ← unwrap result
  params ← unwrap (get_elem? p.deps_satisfied target)
  params' ← unwrap (store_at position (some v) params)
  deps ← unwrap (store_at target params' p.deps_satisfied)
  ok (record p { deps_satisfied = deps })
satisfy_kind result target precondition p = do
  b ← condition_of result
  conditions ← unwrap (store_at target b p.precondition_satisfied)
  ok (record p { precondition_satisfied = conditions })

unfoldable pub satisfy : Option VmValue → List FireRuleItem → Progress → Executed Progress
unfolding satisfy_kind
satisfy result [] p = ok p
satisfy result (x ∷ items) p = satisfy_kind result x.target_node x.kind p >>= satisfy result items

-- `find_map(|x| x.as_ref())`, and the parameters if none is missing.
unfoldable pub first_candidate : Params → Option VmValue
first_candidate [] = none
first_candidate (some v ∷ vs) = some v
first_candidate (none ∷ vs) = first_candidate vs

unfoldable pub all_params : Params → Option (List VmValue)
all_params [] = some []
all_params (some v ∷ vs) = some_cons v (all_params vs)
all_params (none ∷ vs) = none

-- The target fires: its parameters are taken, and its future is pushed.
unfoldable pub fire : ℕ → Work → Progress → Executed Progress
unfolding store_at
fire target work p = do
  deps ← unwrap (store_at target [] p.deps_satisfied)
  ok (record p {
    deps_satisfied = deps;
    futures = p.futures ++ record { node = target; work = work } ∷ [];
  })

unfoldable pub fire_select : ℕ → Params → Progress → Executed Progress
unfolding fire first_candidate
fire_select target params p =
    if is_empty params
    then throw both_select_candidates_fired
    else elim (first_candidate params) [ none ↦ ok p | some v ↦ fire target (selected v) p ]

unfoldable pub fire_node : ℕ → Params → Progress → Executed Progress
unfolding fire all_params
fire_node target params p = elim (all_params params) [
  | none ↦ ok p
  | some vs ↦ fire target (run_with vs) p
]

-- The second loop over the fire rules.
unfoldable pub fire_target : List Node → ℕ → Progress → Executed Progress
unfolding fire_select fire_node is_select
fire_target nodes target p = do
  (n, _, _) ← unwrap (get_elem? nodes target)
  satisfied ← unwrap (get_elem? p.precondition_satisfied target)
  params ← unwrap (get_elem? p.deps_satisfied target)
  if satisfied
      then (if is_select n then fire_select target params p else fire_node target params p)
      else ok p

unfoldable pub fire_targets : List Node → List FireRuleItem → Progress → Executed Progress
unfolding fire_target
fire_targets nodes [] p = ok p
fire_targets nodes (x ∷ items) p = fire_target nodes x.target_node p >>= fire_targets nodes items
