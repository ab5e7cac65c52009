-- ===== src/Exec/Once/Moved.antt =====
-- rdb-analyzer/src/data/treewalker/exec.rs: the state of the loop after a target has fired.
use refine_db.Prelude.{
  ℕ, ◌<◌, ◌==◌, Bool, Option, some, List, [], ◌∷◌, ◌++◌, length, length-append, get_elem?, ◌≡◌, ◌≢◌,
  sym, ◌∙◌, ap, arith, inl, inr, Bool-cases, ==_iff, Ensures, returns, ◌⟫◌, ok_or-Ensures,
}
use refine_db.Treewalker.Bytecode.{TwGraphNode, is_select}
use refine_db.Treewalker.Typeck.Graphs.{Node}
use refine_db.Exec.Outcome.{panicked}
use refine_db.Exec.Progress.{Pending, Work, Progress, Params, fire}
use refine_db.Prelude.Updates.{store_at}
use refine_db.Exec.Once.{Stage, waiting, pending, HasFired, IsAt, IsStaged, occurrences, is_pending}
use refine_db.Prelude.Updates.{
  set, length-set, get_elem?-set, get_elem?-lt, store_at-set, stored_cases,
}
use refine_db.Exec.Once.Sources.{All-append}
use refine_db.Exec.Once.Stays.{
  StaysDone, HasFired-stays, IsAt-stays, occurrences-append, waiting_count-set, todo,
}

-- After the target has fired, or has not.
pub record HasMovedAt (nodes : List Node) (stages : List Stage) (t : ℕ) (p p' : Progress)
    : Type 0 where
  pub stages' : List Stage
  pub staged : IsStaged nodes stages' p'
  pub stays : StaysDone stages stages'
  pub same_todo : todo stages' p' ≡ todo stages p
  pub elsewhere : (j : ℕ) → t ≢ j → get_elem? stages' j ≡ get_elem? stages j

not_waiting : {st : Stage} {o : Option Stage} → o ≡ some st → o ≡ some waiting → st ≡ waiting
not_waiting h k = cc

HasFired-same :
    (stages stages' : List Stage) (stays : StaysDone stages stages') (n n' : TwGraphNode)
    (es es' : List ℕ) (q q' : Option ℕ)
    → n ≡ n'
    → es ≡ es'
    → q ≡ q'
    → HasFired stages (is_select n) es q []
    → HasFired stages' (is_select n') es' q' []
HasFired-same stages stages' stays n n' es es' q q' hn he hq h =
    rw (← hn, ← he, ← hq) (HasFired-stays stages stages' stays (is_select n) es q [] h)

module _ (nodes : List Node) (stages : List Stage) (t : ℕ)
    (waits : get_elem? stages t ≡ some waiting) where
  stays_set : StaysDone stages (set stages t pending)
  stays_set e h = elim (Bool-cases (t == e)) [
    | inl same ↦ absurd (differ (ap (get_elem? stages) ((==_iff t e).0 same)))
    | inr other ↦ get_elem?-set stages t e pending (get_elem?-lt stages t waits) ∙ rw other h
  ]
    where
      differ : get_elem? stages t ≡ get_elem? stages e → ⊥
      differ k = cc

  -- The nodes after the target has fired.
  fired-IsAt :
      (n : TwGraphNode) (es : List ℕ) (q : Option ℕ) (p : Progress)
      → get_elem? nodes t ≡ some (n, es, q)
      → HasFired stages (is_select n) es q []
      → IsStaged nodes stages p
      → t < length p.deps_satisfied
      → (j : ℕ) (n' : TwGraphNode) (es' : List ℕ) (q' : Option ℕ) (st : Stage) (d : Params)
        (r : Bool)
      → get_elem? nodes j ≡ some (n', es', q')
      → get_elem? (set stages t pending) j ≡ some st
      → get_elem? (set p.deps_satisfied t []) j ≡ some d
      → get_elem? p.precondition_satisfied j ≡ some r
      → IsAt (set stages t pending) st n' es' q' d r
  fired-IsAt n es q p is_node fired staged k j n' es' q' st d r hn hs hd hr =
      elim (stored_cases stages t j pending st (get_elem?-lt stages t waits) hs) [
        | inl (same, now) ↦ elim (stored_cases p.deps_satisfied t j [] d k hd) [
          | inl (_, empty) ↦
              let e = sym is_node ∙ ap (get_elem? nodes) same ∙ hn in
              rw now (
                rw empty (
                  HasFired-same stages (set stages t pending) stays_set n n' es es' q q' (cc e)
                    (cc e) (cc e) fired))
          | inr (differ, _) ↦ absurd (differ same)
        ]
        | inr (differ, old) ↦ elim (stored_cases p.deps_satisfied t j [] d k hd) [
          | inl (same, _) ↦ absurd (differ same)
          | inr (_, kept) ↦
              IsAt-stays stages (set stages t pending) stays_set st n' es' q' d r
                (staged.at_stage j n' es' q' st d r hn old kept hr)
        ]
      ]

  fired_queue :
      (work : Work) (p : Progress)
      → IsStaged nodes stages p
      → (j : ℕ) (st : Stage) → get_elem? (set stages t pending) j ≡ some st
      → occurrences j (p.futures ++ record { node = t; work = work } ∷ []) ≡ is_pending st
  fired_queue work p staged j st hs =
      occurrences-append j p.futures (record { node = t; work = work } ∷ [])
      ∙ elim (stored_cases stages t j pending st (get_elem?-lt stages t waits) hs) [
        | inl (same, now) ↦
            rw now
              (ground (arith, staged.queued j waiting (ap (get_elem? stages) (sym same) ∙ waits)))
        | inr (differ, old) ↦ ground (arith, staged.queued j st old, differ)
      ]

  pub fire-HasMovedAt :
      (n : TwGraphNode) (es : List ℕ) (q : Option ℕ) (work : Work) (p : Progress)
      → get_elem? nodes t ≡ some (n, es, q)
      → HasFired stages (is_select n) es q []
      → IsStaged nodes stages p
      → Ensures (λ p'. HasMovedAt nodes stages t p p') (fire t work p)
  unfolding fire
  fire-HasMovedAt n es q work p is_node fired staged =
      ok_or-Ensures panicked (store_at t [] p.deps_satisfied) ⟫ λ deps hdeps.
      let (deps_set, k) = store_at-set t [] p.deps_satisfied hdeps in
      let lt = get_elem?-lt stages t waits in
      let f : Pending = record { node = t; work = work } in
      let p' = record p { deps_satisfied = deps; futures = p.futures ++ f ∷ [] } in
      let staged' : IsStaged nodes (set stages t pending) p' = record {
        every_node = length-set stages t pending ∙ staged.every_node;
        every_params = rw deps_set (length-set p.deps_satisfied t []) ∙ staged.every_params;
        every_condition = staged.every_condition;
        at_stage = λ j n' es' q' st d r hn hs hd hr.
            fired-IsAt n es q p is_node fired staged k j n' es' q' st d r hn hs (rw deps_set at hd)
              hr;
        queued = fired_queue work p staged;
        in_graph =
            All-append (λ (f : Pending). f.node < length nodes) p.futures (f ∷ []) staged.in_graph
              (omega (arith, lt, staged.every_node), tt);
      } in
      returns {a = p'} (record {
        stages' = set stages t pending;
        staged = staged';
        stays = stays_set;
        elsewhere = λ j differ. get_elem?-set stages t j pending lt ∙ ground (arith, differ);
        same_todo =
            omega (arith, waiting_count-set stages t waits, length-append p.futures (f ∷ []));
      })
