-- ===== src/Exec/Once/Start.antt =====
-- rdb-analyzer/src/data/treewalker/exec.rs: the initial batch of recursively_run_graph.
use refine_db.Prelude.{
  ℕ, zero, suc, ◌+◌, ◌<◌, ◌≤◌, ◌==◌, if◌then◌else◌, Bool, true, false, Option, none, some, List, [],
  ◌∷◌, length, get_elem?, All, ◌≡◌, refl, sym, ◌∙◌, ap, arith,
}
use refine_db.Treewalker.Bytecode.{TwGraphNode, is_select}
use refine_db.Treewalker.Typeck.Graphs.{Node}
use refine_db.Exec.Progress.{
  Pending, run_with, Params, nothing_for, is_unconditional, no_deps, unconditional, starts,
  initial_batch, initial_progress,
}
use refine_db.Exec.Once.{
  Stage, waiting, pending, PreconditionIsDone, IsSupplied, HasFired, IsAt, IsStaged, occurrences,
  is_pending, waiting_count,
}
use refine_db.Exec.Once.Stays.{todo}

abbrev initial_stage : List ℕ → Option ℕ → Stage
initial_stage es q = if starts es q then pending else waiting

abbrev pub initial_stages : List Node → List Stage
initial_stages [] = []
initial_stages ((_, es, q) ∷ nodes) = initial_stage es q ∷ initial_stages nodes

module _ (stages : List Stage) where
  nothing-IsSupplied : (es : List ℕ) → IsSupplied stages es (nothing_for es)
  nothing-IsSupplied [] = tt
  nothing-IsSupplied (e ∷ es) = nothing-IsSupplied es

  unconditional_done : (q : Option ℕ) → is_unconditional q ≡ true → PreconditionIsDone stages q
  unconditional_done none h = tt
  unconditional_done (some e) h = cc

  sourceless : (b : Bool) → HasFired stages b [] none []
  sourceless true = refl
  sourceless false = (tt, tt)

  initial-IsAt :
      (n : TwGraphNode) (es : List ℕ) (q : Option ℕ)
      → IsAt stages (initial_stage es q) n es q (nothing_for es) (is_unconditional q)
  initial-IsAt n [] none = sourceless (is_select n)
  initial-IsAt n [] (some e) = (tt, unconditional_done (some e))
  initial-IsAt n (e ∷ es) q = (nothing-IsSupplied (e ∷ es), unconditional_done q)

-- What the lists hold for a node.
initial_lists :
    (nodes : List Node) (j : ℕ) (n : TwGraphNode) (es : List ℕ) (q : Option ℕ)
    → get_elem? nodes j ≡ some (n, es, q)
    → (get_elem? (initial_stages nodes) j ≡ some (initial_stage es q))
      × (get_elem? (no_deps nodes) j ≡ some (nothing_for es))
      × (get_elem? (unconditional nodes) j ≡ some (is_unconditional q))
initial_lists [] j n es q h = cc
initial_lists ((n', es', q') ∷ nodes) zero n es q h = (cc, cc, cc)
initial_lists (_ ∷ nodes) (suc j) n es q h = initial_lists nodes j n es q h

found_same : {A : Type 0} {o : Option A} {x y : A} → o ≡ some x → o ≡ some y → x ≡ y
found_same h k = cc

-- How a node of the initial batch counts.
cons_count :
    (b : Bool) (i k : ℕ) (rest : List Pending)
    → occurrences k (if b then record { node = i; work = run_with [] } ∷ rest else rest)
      ≡ (if b then (if i == k then 1 else 0) else 0) + occurrences k rest
cons_count true i k rest = refl
cons_count false i k rest = omega arith

none_below : (k i : ℕ) (nodes : List Node) → k < i → occurrences k (initial_batch i nodes) ≡ 0
unfolding initial_batch
none_below k i [] h = refl
none_below k i ((_, es, q) ∷ nodes) h =
    cons_count (starts es q) i k (initial_batch (suc i) nodes)
    ∙ ground (arith, none_below k (suc i) nodes (omega arith))

moved : (i j : ℕ) → i + suc j ≡ suc i + j
moved i j = omega arith

stage_count : (b : Bool) → is_pending (if b then pending else waiting) ≡ (if b then 1 else 0)
stage_count true = refl
stage_count false = refl

initial_queue :
    (nodes : List Node) (i j : ℕ) (st : Stage)
    → get_elem? (initial_stages nodes) j ≡ some st
    → occurrences (i + j) (initial_batch i nodes) ≡ is_pending st
unfolding initial_batch
initial_queue [] i j st h = cc
initial_queue ((n, es, q) ∷ nodes) i zero st h =
    let same : st ≡ initial_stage es q = found_same {o = some (initial_stage es q)} h refl in
    cons_count (starts es q) i (i + 0) (initial_batch (suc i) nodes)
    ∙ ground (arith, none_below (i + 0) (suc i) nodes (omega arith))
    ∙ sym (ap is_pending same ∙ stage_count (starts es q))
initial_queue ((n, es, q) ∷ nodes) i (suc j) st h =
    cons_count (starts es q) i (i + suc j) (initial_batch (suc i) nodes)
    ∙ shift (starts es q) (initial_queue nodes (suc i) j st h)
  where
    shift :
        (b : Bool)
        → occurrences (suc i + j) (initial_batch (suc i) nodes) ≡ is_pending st
        → (if b then (if i == (i + suc j) then 1 else 0) else 0)
            + occurrences (i + suc j) (initial_batch (suc i) nodes)
          ≡ is_pending st
    shift b ih =
        ground (arith, ih, ap (λ (k : ℕ). occurrences k (initial_batch (suc i) nodes)) (moved i j))

initial_in_graph :
    (nodes : List Node) (i n : ℕ)
    → i + length nodes ≤ n
    → All (λ (f : Pending). f.node < n) (initial_batch i nodes)
unfolding initial_batch
initial_in_graph [] i n h = tt
initial_in_graph ((_, es, q) ∷ nodes) i n h =
    All-if_cons (starts es q) _ (omega arith) (initial_in_graph nodes (suc i) n (omega arith))
  where
    All-if_cons :
        (b : Bool) (rest : List Pending)
        → i < n
        → All (λ (f : Pending). f.node < n) rest
        → All
            (λ (f : Pending). f.node < n)
            (if b then record { node = i; work = run_with [] } ∷ rest else rest)
    All-if_cons true rest h k = (h, k)
    All-if_cons false rest h k = k

initial_todo :
    (nodes : List Node) (i : ℕ)
    → waiting_count (initial_stages nodes) + length (initial_batch i nodes) ≡ length nodes
unfolding initial_batch
initial_todo [] i = refl
initial_todo ((_, es, q) ∷ nodes) i =
    one_more (starts es q) (initial_stages nodes) (initial_batch (suc i) nodes)
    ∙ ap suc (initial_todo nodes (suc i))
  where
    one_more :
        (b : Bool) (stages : List Stage) (rest : List Pending)
        → waiting_count ((if b then pending else waiting) ∷ stages)
            + length (if b then record { node = i; work = run_with [] } ∷ rest else rest)
          ≡ suc (waiting_count stages + length rest)
    one_more true stages rest = omega arith
    one_more false stages rest = omega arith

length-initial_stages : (nodes : List Node) → length (initial_stages nodes) ≡ length nodes
length-initial_stages [] = refl
length-initial_stages (_ ∷ nodes) = omega (arith, length-initial_stages nodes)

length-no_deps : (nodes : List Node) → length (no_deps nodes) ≡ length nodes
length-no_deps [] = refl
length-no_deps (_ ∷ nodes) = omega (arith, length-no_deps nodes)

length-unconditional : (nodes : List Node) → length (unconditional nodes) ≡ length nodes
length-unconditional [] = refl
length-unconditional (_ ∷ nodes) = omega (arith, length-unconditional nodes)

IsAt-found :
    (stages : List Stage) {st st' : Stage} (n : TwGraphNode) (es : List ℕ) (q : Option ℕ)
    {d d' : Params} {r r' : Bool}
    → st' ≡ st
    → d' ≡ d
    → r' ≡ r
    → IsAt stages st' n es q d' r'
    → IsAt stages st n es q d r
IsAt-found stages n es q hs hd hr h = rw (← hs, ← hd, ← hr) h

pub initial_progress-IsStaged :
    (nodes : List Node) → IsStaged nodes (initial_stages nodes) (initial_progress nodes)
unfolding initial_progress
initial_progress-IsStaged nodes = record {
  every_node = length-initial_stages nodes;
  every_params = length-no_deps nodes;
  every_condition = length-unconditional nodes;
  at_stage = λ j n es q st d r hn hs hd hr.
      let (ks, kd, kr) = initial_lists nodes j n es q hn in
      IsAt-found (initial_stages nodes) n es q (found_same ks hs) (found_same kd hd)
        (found_same kr hr) (initial-IsAt (initial_stages nodes) n es q);
  queued = λ j st hs.
      ap (λ k. occurrences k (initial_batch 0 nodes)) (omega arith) ∙ initial_queue nodes 0 j st hs;
  in_graph = initial_in_graph nodes 0 (length nodes) (omega arith);
}

pub initial_progress-todo :
    (nodes : List Node) → todo (initial_stages nodes) (initial_progress nodes) ≡ length nodes
unfolding initial_progress
initial_progress-todo nodes = initial_todo nodes 0
