-- ===== src/Exec/Once/Stays.antt =====
-- rdb-analyzer/src/data/treewalker/exec.rs: the stages of the nodes, as more of them are done.
use refine_db.Prelude.{
  ℕ, zero, suc, ◌+◌, Bool, true, false, Option, none, some, List, [], ◌∷◌, ◌++◌, length, get_elem?,
  All, ◌≡◌, arith,
}
use refine_db.Treewalker.Bytecode.{TwGraphNode, is_select}
use refine_db.Treewalker.Values.{VmValue}
use refine_db.Exec.Progress.{Pending, Progress, Params, all_params}
use refine_db.Exec.Once.{
  Stage, waiting, pending, completed, IsDone, PreconditionIsDone, IsSupplied, HasFired, IsAt,
  occurrences, waiting_count,
}
use refine_db.Prelude.Updates.{set, some_cons-some}

-- What is done in the one list is done in the other.
abbrev pub StaysDone : List Stage → List Stage → Type 0
StaysDone stages stages' = (e : ℕ) → IsDone stages e → IsDone stages' e

module _ (stages stages' : List Stage) (stays : StaysDone stages stages') where
  PreconditionIsDone-stays :
      (q : Option ℕ) → PreconditionIsDone stages q → PreconditionIsDone stages' q
  PreconditionIsDone-stays none h = tt
  PreconditionIsDone-stays (some e) h = stays e h

  IsSupplied-stays : (es : List ℕ) (d : Params) → IsSupplied stages es d → IsSupplied stages' es d
  IsSupplied-stays [] [] h = tt
  IsSupplied-stays [] (o ∷ d) h = absurd h
  IsSupplied-stays (e ∷ es) [] h = absurd h
  IsSupplied-stays (e ∷ es) (none ∷ d) h = IsSupplied-stays es d h
  IsSupplied-stays (e ∷ es) (some v ∷ d) h = (stays e h.0, IsSupplied-stays es d h.1)

  All-stays : (es : List ℕ) → All (IsDone stages) es → All (IsDone stages') es
  All-stays [] h = tt
  All-stays (e ∷ es) h = (stays e h.0, All-stays es h.1)

  pub HasFired-stays :
      (b : Bool) (es : List ℕ) (q : Option ℕ) (d : Params)
      → HasFired stages b es q d
      → HasFired stages' b es q d
  HasFired-stays true es q d h = h
  HasFired-stays false es q d h = (All-stays es h.0, PreconditionIsDone-stays q h.1)

  pub IsAt-stays :
      (st : Stage) (n : TwGraphNode) (es : List ℕ) (q : Option ℕ) (d : Params) (r : Bool)
      → IsAt stages st n es q d r
      → IsAt stages' st n es q d r
  IsAt-stays waiting n es q d r h =
      (IsSupplied-stays es d h.0, λ e. PreconditionIsDone-stays q (h.1 e))
  IsAt-stays pending n es q d r h = HasFired-stays (is_select n) es q d h
  IsAt-stays completed n es q d r h = HasFired-stays (is_select n) es q d h

-- A parameter list without a gap means that every source is done.
pub IsSupplied-All :
    (stages : List Stage) (es : List ℕ) (d : Params) (vs : List VmValue)
    → IsSupplied stages es d
    → all_params d ≡ some vs
    → All (IsDone stages) es
unfolding all_params
IsSupplied-All stages [] [] vs h e = tt
IsSupplied-All stages [] (o ∷ d) vs h e = absurd h
IsSupplied-All stages (x ∷ es) [] vs h e = absurd h
IsSupplied-All stages (x ∷ es) (none ∷ d) vs h e = cc
IsSupplied-All stages (x ∷ es) (some v ∷ d) vs h e =
    let (us, gaps, _) = some_cons-some v (all_params d) e in
    (h.0, IsSupplied-All stages es d us h.1 gaps)

pub occurrences-append :
    (j : ℕ) (fs gs : List Pending) → occurrences j (fs ++ gs) ≡ occurrences j fs + occurrences j gs
occurrences-append j [] gs = omega arith
occurrences-append j (f ∷ fs) gs = omega (arith, occurrences-append j fs gs)

pub waiting_count-set :
    (stages : List Stage) (i : ℕ)
    → get_elem? stages i ≡ some waiting
    → waiting_count stages ≡ suc (waiting_count (set stages i pending))
waiting_count-set [] i h = cc
waiting_count-set (st ∷ stages) zero h = ground arith
waiting_count-set (waiting ∷ stages) (suc i) h = omega (arith, waiting_count-set stages i h)
waiting_count-set (pending ∷ stages) (suc i) h = waiting_count-set stages i h
waiting_count-set (completed ∷ stages) (suc i) h = waiting_count-set stages i h

-- How much is left to complete.
abbrev pub todo : List Stage → Progress → ℕ
todo stages p = waiting_count stages + length p.futures
