-- ===== src/Exec/Once.antt =====
-- rdb-analyzer/src/data/treewalker/exec.rs: the loop of recursively_run_graph. The stage of a node,
-- which the program does not store, and what the state of the loop is at each stage.
pub mod Sources
pub mod Satisfy
pub mod Stays
pub mod Moved
pub mod Fire
pub mod Complete
pub mod Start
pub mod Step
pub mod Twice
pub mod Taken
pub mod Emptied
use refine_db.Prelude.{
  ℕ, zero, suc, ◌+◌, ◌<◌, ◌==◌, if◌then◌else◌, Bool, true, false, Option, none, some, List, [], ◌∷◌,
  length, get_elem?, All, ◌≡◌,
}
use refine_db.Treewalker.Bytecode.{TwGraphNode, is_select}
use refine_db.Treewalker.Typeck.Graphs.{Node}
use refine_db.Exec.Progress.{Pending, Progress, Params}

pub data Stage : Type 0 where
  waiting pending completed : Stage

abbrev pub IsDone : List Stage → ℕ → Type 0
IsDone stages e = get_elem? stages e ≡ some completed

abbrev pub PreconditionIsDone : List Stage → Option ℕ → Type 0
PreconditionIsDone stages none = Unit
PreconditionIsDone stages (some e) = IsDone stages e

-- A parameter is there only if its source has completed.
abbrev pub IsSupplied : List Stage → List ℕ → Params → Type 0
IsSupplied stages [] [] = Unit
IsSupplied stages (e ∷ es) (none ∷ d) = IsSupplied stages es d
IsSupplied stages (e ∷ es) (some v ∷ d) = IsDone stages e × IsSupplied stages es d
IsSupplied stages _ _ = ⊥

abbrev pub SourcesAreDone : List Stage → List ℕ → Option ℕ → Type 0
SourcesAreDone stages es p = All (IsDone stages) es × PreconditionIsDone stages p

-- A node that has fired has lost its parameters if it is a select, and has all its sources completed
-- if it is not.
abbrev pub HasFired : List Stage → Bool → List ℕ → Option ℕ → Params → Type 0
HasFired stages true es p d = d ≡ []
HasFired stages false es p d = SourcesAreDone stages es p

abbrev pub IsAt : List Stage → Stage → TwGraphNode → List ℕ → Option ℕ → Params → Bool → Type 0
IsAt stages waiting n es p d r = IsSupplied stages es d × (r ≡ true → PreconditionIsDone stages p)
IsAt stages _ n es p d r = HasFired stages (is_select n) es p d

abbrev pub occurrences : ℕ → List Pending → ℕ
occurrences j [] = 0
occurrences j (f ∷ fs) = (if f.node == j then 1 else 0) + occurrences j fs

abbrev pub is_pending : Stage → ℕ
is_pending pending = 1
is_pending _ = 0

abbrev pub waiting_count : List Stage → ℕ
waiting_count [] = 0
waiting_count (waiting ∷ stages) = suc (waiting_count stages)
waiting_count (_ ∷ stages) = waiting_count stages

-- The state of the loop, for the nodes of a graph at their stages.
pub record IsStaged (nodes : List Node) (stages : List Stage) (p : Progress) : Type 0 where
  pub every_node : length stages ≡ length nodes
  pub every_params : length p.deps_satisfied ≡ length nodes
  pub every_condition : length p.precondition_satisfied ≡ length nodes
  pub at_stage :
      (j : ℕ) (n : TwGraphNode) (es : List ℕ) (q : Option ℕ) (st : Stage) (d : Params) (r : Bool)
      → get_elem? nodes j ≡ some (n, es, q)
      → get_elem? stages j ≡ some st
      → get_elem? p.deps_satisfied j ≡ some d
      → get_elem? p.precondition_satisfied j ≡ some r
      → IsAt stages st n es q d r
  pub queued :
      (j : ℕ) (st : Stage) → get_elem? stages j ≡ some st → occurrences j p.futures ≡ is_pending st
  pub in_graph : All (λ (f : Pending). f.node < length nodes) p.futures
