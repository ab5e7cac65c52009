-- ===== src/Exec/Once/Fire.antt =====
-- rdb-analyzer/src/data/treewalker/exec.rs: the second loop over the fire rules of a node fires only
-- nodes that wait.
use refine_db.Prelude.{
  ℕ, ◌<◌, Bool, true, false, Option, some, List, [], ◌∷◌, length, get_elem?, All, is_empty, ◌≡◌,
  ◌≢◌, refl, ◌∙◌, arith, inl, inr, ◌⊎◌, Option-cases, Ensures, returns, fails, ◌⟫◌, ok_or-Ensures,
  weaken, Ensures-if,
}
use refine_db.Treewalker.Bytecode.{TwGraphNode, is_select}
use refine_db.Treewalker.Typeck.Graphs.{Node}
use refine_db.Exec.Outcome.{panicked}
use refine_db.Exec.FireRules.{FireRuleItem}
use refine_db.Exec.Progress.{
  selected, run_with, Progress, Params, first_candidate, all_params, fire_select, fire_node,
  fire_target, fire_targets,
}
use refine_db.Exec.Once.{
  Stage, waiting, pending, completed, PreconditionIsDone, IsSupplied, IsAt, IsStaged,
}
use refine_db.Prelude.Updates.{get_elem?-lt, get_elem?-some}
use refine_db.Exec.Once.Sources.{AreAscending}
use refine_db.Exec.Once.Stays.{IsSupplied-All, todo}
use refine_db.Exec.Once.Moved.{HasMovedAt, fire-HasMovedAt}

not_empty : (d : Params) → d ≡ [] → is_empty d ≡ false → ⊥
not_empty d e f = cc

in_graph_lt :
    {nodes : List Node} {stages : List Stage} {p : Progress} {t : ℕ} {node : Node}
    → get_elem? nodes t ≡ some node
    → IsStaged nodes stages p
    → t < length stages
in_graph_lt {nodes} {t = t} h staged = omega (arith, get_elem?-lt nodes t h, staged.every_node)

module _ (nodes : List Node) (stages : List Stage) (t : ℕ) (n : TwGraphNode) (es : List ℕ)
    (q : Option ℕ) (is_node : get_elem? nodes t ≡ some (n, es, q)) (p : Progress)
    (staged : IsStaged nodes stages p) where
  unmoved : HasMovedAt nodes stages t p p
  unmoved = record {
    stages' = stages;
    staged = staged;
    stays = λ e h. h;
    same_todo = refl;
    elsewhere = λ j differ. refl;
  }

  fire_select-HasMovedAt :
      (d : Params)
      → is_select n ≡ true
      → (is_empty d ≡ false → get_elem? stages t ≡ some waiting)
      → Ensures (λ p'. HasMovedAt nodes stages t p p') (fire_select t d p)
  unfolding fire_select
  fire_select-HasMovedAt d sel waits =
      Ensures-if (is_empty d) (λ _. fails)
        λ full. elim (Option-cases (first_candidate d)) [
          | inl gap ↦ rw gap (returns unmoved)
          | inr (v, found) ↦ rw found (
              fire-HasMovedAt nodes stages t (waits full) n es q (selected v) p is_node
                (rw sel refl) staged)
        ]

  fire_node-HasMovedAt :
      (d : Params)
      → is_select n ≡ false
      → get_elem? stages t ≡ some waiting
      → IsSupplied stages es d
      → PreconditionIsDone stages q
      → Ensures (λ p'. HasMovedAt nodes stages t p p') (fire_node t d p)
  unfolding fire_node
  fire_node-HasMovedAt d plain waits supplied pre = elim (Option-cases (all_params d)) [
    | inl gap ↦ rw (gap, fire_node) (returns unmoved)
    | inr (vs, found) ↦
        rw (found, fire_node)
          (fire-HasMovedAt nodes stages t waits n es q (run_with vs) p is_node
            (rw plain (IsSupplied-All stages es d vs supplied found, pre)) staged)
  ]

  still_waits :
      (st : Stage) (d : Params) (r : Bool)
      → is_select n ≡ true
      → get_elem? stages t ≡ some st
      → IsAt stages st n es q d r
      → is_empty d ≡ false
      → get_elem? stages t ≡ some waiting
  still_waits waiting d r sel h k full = h
  still_waits pending d r sel h k full = absurd (not_empty d (rw sel at k) full)
  still_waits completed d r sel h k full = absurd (not_empty d (rw sel at k) full)

-- The node of the target, and that it waits or is a select.
pub record IsOpen (nodes : List Node) (stages : List Stage) (t : ℕ) : Type 0 where
  pub n : TwGraphNode
  pub es : List ℕ
  pub q : Option ℕ
  pub is_node : get_elem? nodes t ≡ some (n, es, q)
  pub waits : (get_elem? stages t ≡ some waiting) ⊎ (is_select n ≡ true)

waits_if_plain :
    {o : Option Stage} (n : TwGraphNode)
    → is_select n ≡ false
    → (o ≡ some waiting) ⊎ (is_select n ≡ true)
    → o ≡ some waiting
waits_if_plain n plain (inl w) = w
waits_if_plain n plain (inr sel) = cc

fire_target-HasMovedAt :
    (nodes : List Node) (stages : List Stage) (t : ℕ) (p : Progress)
    → IsOpen nodes stages t
    → IsStaged nodes stages p
    → Ensures (λ p'. HasMovedAt nodes stages t p p') (fire_target nodes t p)
unfolding fire_target
fire_target-HasMovedAt nodes stages t p open_ staged =
    let is_node = open_.is_node in
    rw (is_node, fire_target)
      (ok_or-Ensures panicked (get_elem? p.precondition_satisfied t) ⟫ λ r hr.
        ok_or-Ensures panicked (get_elem? p.deps_satisfied t) ⟫ λ d hd.
        let (st, hs) = get_elem?-some stages t (in_graph_lt is_node staged) in
        let here = staged.at_stage t open_.n open_.es open_.q st d r is_node hs hd hr in
        Ensures-if r
          (λ ready.
            Ensures-if (is_select open_.n)
              (λ sel.
                fire_select-HasMovedAt nodes stages t open_.n open_.es open_.q is_node p staged d
                  sel
                  (still_waits nodes stages t open_.n open_.es open_.q is_node p staged st d r sel
                    hs here))
              (λ plain.
                let w = waits_if_plain open_.n plain open_.waits in
                let at_wait =
                  staged.at_stage t open_.n open_.es open_.q waiting d r is_node w hd hr in
                fire_node-HasMovedAt nodes stages t open_.n open_.es open_.q is_node p staged d
                  plain w at_wait.0 (at_wait.1 ready)))
          (λ _. returns (unmoved nodes stages t open_.n open_.es open_.q is_node p staged)))

-- The state of the loop at some stages, with as much left to complete as before.
abbrev pub StagedAgain : List Node → ℕ → Progress → Type 0
StagedAgain nodes left p = (stages : List Stage) × IsStaged nodes stages p × (todo stages p ≡ left)

IsOpen-elsewhere :
    (nodes : List Node) (stages stages' : List Stage) (t : ℕ) (items : List FireRuleItem)
    → ((j : ℕ) → t ≢ j → get_elem? stages' j ≡ get_elem? stages j)
    → All (λ (y : FireRuleItem). t < y.target_node) items
    → All (λ (y : FireRuleItem). IsOpen nodes stages y.target_node) items
    → All (λ (y : FireRuleItem). IsOpen nodes stages' y.target_node) items
IsOpen-elsewhere nodes stages stages' t [] same above opens = tt
IsOpen-elsewhere nodes stages stages' t (y ∷ items) same above opens = (
  (record {
    n = opens.0.n;
    es = opens.0.es;
    q = opens.0.q;
    is_node = opens.0.is_node;
    waits = rw (same y.target_node (λ e. ground (arith, above.0))) opens.0.waits;
  }),
  IsOpen-elsewhere nodes stages stages' t items same above.1 opens.1,
)

pub fire_targets-StagedAgain :
    (nodes : List Node) (stages : List Stage) (items : List FireRuleItem) (p : Progress)
    → All (λ (y : FireRuleItem). IsOpen nodes stages y.target_node) items
    → AreAscending items
    → IsStaged nodes stages p
    → Ensures (StagedAgain nodes (todo stages p)) (fire_targets nodes items p)
unfolding fire_targets
fire_targets-StagedAgain nodes stages [] p opens up staged = returns (stages, staged, refl)
fire_targets-StagedAgain nodes stages (x ∷ items) p opens up staged =
    fire_target-HasMovedAt nodes stages x.target_node p opens.0 staged ⟫ λ p' moved.
    weaken (λ p'' (stages'', again, same). (stages'', again, same ∙ moved.same_todo))
      (fire_targets-StagedAgain nodes moved.stages' items p'
        (IsOpen-elsewhere nodes stages moved.stages' x.target_node items moved.elsewhere up.0
          opens.1)
        up.1 moved.staged)
