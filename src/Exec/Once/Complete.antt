-- ===== src/Exec/Once/Complete.antt =====
-- rdb-analyzer/src/data/treewalker/exec.rs: the future that completes leaves the queue, and its fire
-- rules hit nodes that wait.
use refine_db.Prelude.{
  ℕ, zero, suc, ◌+◌, ◌<◌, ◌==◌, if◌then◌else◌, Bool, true, Option, some, List, [], ◌∷◌, length,
  get_elem?, All, ◌≡◌, refl, sym, ◌∙◌, ap, subst, arith, inl, inr, ◌⊎◌, Bool-cases, ==_iff,
}
use refine_db.Treewalker.Bytecode.{TwGraphNode, is_select}
use refine_db.Treewalker.Values.{VmValue}
use refine_db.Treewalker.Typeck.Graphs.{Node}
use refine_db.Exec.FireRules.{FireRuleItem, FireRuleKind, param_dep, precondition, rules_of}
use refine_db.Exec.Progress.{Pending, Progress, Params}
use refine_db.Exec.Loop.{take_at}
use refine_db.Exec.Once.{
  Stage, waiting, pending, completed, IsDone, PreconditionIsDone, SourcesAreDone, IsAt, IsStaged,
  occurrences, is_pending, waiting_count,
}
use refine_db.Prelude.Updates.{
  set, length-set, get_elem?-set, get_elem?-lt, get_elem?-some, stored_cases,
}
use refine_db.Exec.Once.Sources.{IsRule, IsFrom, All-mono, rules_of-IsRule}
use refine_db.Exec.Once.Stays.{StaysDone, IsAt-stays, HasFired-stays, todo}
use refine_db.Exec.Once.Fire.{IsOpen}

-- The chosen future and those that remain are the futures.
pub record IsTaken (fs : List Pending) (f : Pending) (rest : List Pending) : Type 0 where
  pub one_less : length fs ≡ suc (length rest)
  pub counted : (j : ℕ) → occurrences j fs ≡ (if f.node == j then 1 else 0) + occurrences j rest
  pub bounded :
      (n : ℕ)
      → All (λ (f : Pending). f.node < n) fs
      → (f.node < n) × All (λ (f : Pending). f.node < n) rest

pub take_at-IsTaken :
    (i : ℕ) (f : Pending) (fs : List Pending)
    → IsTaken (f ∷ fs) (take_at i f fs).0 (take_at i f fs).1
unfolding take_at
take_at-IsTaken i f [] = record { one_less = refl; counted = λ j. refl; bounded = λ n h. h }
take_at-IsTaken zero f (g ∷ fs) = record {
  one_less = refl;
  counted = λ j. refl;
  bounded = λ n h. h;
}
take_at-IsTaken (suc i) f (g ∷ fs) =
    let r = take_at-IsTaken i g fs in
    record {
      one_less = omega (arith, r.one_less);
      counted = λ j. omega (arith, r.counted j);
      bounded = λ n h. let k = r.bounded n h.1 in (k.0, (h.0, k.1));
    }

is_pending-eq : (st : Stage) (k : ℕ) → suc k ≡ is_pending st → (st ≡ pending) × (k ≡ 0)
is_pending-eq waiting k h = absurd (omega arith)
is_pending-eq pending k h = (refl, omega arith)
is_pending-eq completed k h = absurd (omega arith)

waiting_count-completed :
    (stages : List Stage) (i : ℕ)
    → get_elem? stages i ≡ some pending
    → waiting_count (set stages i completed) ≡ waiting_count stages
waiting_count-completed [] i h = refl
waiting_count-completed (waiting ∷ stages) zero h = cc
waiting_count-completed (completed ∷ stages) zero h = refl
waiting_count-completed (pending ∷ stages) zero h = refl
waiting_count-completed (waiting ∷ stages) (suc i) h =
    omega (arith, waiting_count-completed stages i h)
waiting_count-completed (pending ∷ stages) (suc i) h = waiting_count-completed stages i h
waiting_count-completed (completed ∷ stages) (suc i) h = waiting_count-completed stages i h

waits_map : {A B C : Type 0} → (A → B) → A ⊎ C → B ⊎ C
waits_map g (inl a) = inl (g a)
waits_map g (inr c) = inr c

module _ (nodes : List Node) (stages : List Stage) (p : Progress) (staged : IsStaged nodes stages p)
    (f : Pending) (rest : List Pending) (taken : IsTaken p.futures f rest) where
  s_lt : f.node < length stages
  s_lt = omega (arith, (taken.bounded (length nodes) staged.in_graph).0, staged.every_node)

  was_pending : (get_elem? stages f.node ≡ some pending) × (occurrences f.node rest ≡ 0)
  was_pending =
      let (st, h) = get_elem?-some stages f.node s_lt in
      let (e, none_left) =
        is_pending-eq st (occurrences f.node rest)
          (ground (arith, taken.counted f.node, staged.queued f.node st h)) in
      (h ∙ ap some e, none_left)

  stays_completed : StaysDone stages (set stages f.node completed)
  stays_completed e h =
      get_elem?-set stages f.node e completed s_lt
      ∙ elim (Bool-cases (f.node == e)) [ inl same ↦ rw same refl | inr other ↦ rw other h ]

  completed-IsAt :
      (j : ℕ) (n : TwGraphNode) (es : List ℕ) (q : Option ℕ) (st : Stage) (d : Params) (r : Bool)
      → get_elem? nodes j ≡ some (n, es, q)
      → get_elem? (set stages f.node completed) j ≡ some st
      → get_elem? p.deps_satisfied j ≡ some d
      → get_elem? p.precondition_satisfied j ≡ some r
      → IsAt (set stages f.node completed) st n es q d r
  completed-IsAt j n es q st d r hn hs hd hr =
      elim (stored_cases stages f.node j completed st s_lt hs) [
        | inl (same, now) ↦ rw now (
            HasFired-stays stages (set stages f.node completed) stays_completed (is_select n) es q d
              (staged.at_stage j n es q pending d r hn
                (ap (get_elem? stages) (sym same) ∙ was_pending.0) hd hr))
        | inr (_, old) ↦
            IsAt-stays stages (set stages f.node completed) stays_completed st n es q d r
              (staged.at_stage j n es q st d r hn old hd hr)
      ]

  completed_queue :
      (j : ℕ) (st : Stage)
      → get_elem? (set stages f.node completed) j ≡ some st
      → occurrences j rest ≡ is_pending st
  completed_queue j st hs = elim (stored_cases stages f.node j completed st s_lt hs) [
    | inl (same, now) ↦ rw now (ap (λ k. occurrences k rest) (sym same) ∙ was_pending.1)
    | inr (differ, old) ↦ ground (arith, taken.counted j, staged.queued j st old, differ)
  ]

  -- The future is taken out of the queue, and its node has completed.
  pub taken_out :
      (ret : Option VmValue)
      → IsStaged nodes (set stages f.node completed) (record p { futures = rest; ret = ret })
  taken_out ret = record {
    every_node = length-set stages f.node completed ∙ staged.every_node;
    every_params = staged.every_params;
    every_condition = staged.every_condition;
    at_stage = completed-IsAt;
    queued = completed_queue;
    in_graph = (taken.bounded (length nodes) staged.in_graph).1;
  }

  pub taken-IsDone : IsDone (set stages f.node completed) f.node
  taken-IsDone = get_elem?-set stages f.node f.node completed s_lt ∙ ground arith

  pub taken_todo :
      (ret : Option VmValue)
      → suc (todo (set stages f.node completed) (record p { futures = rest; ret = ret }))
        ≡ todo stages p
  taken_todo ret =
      omega (arith, waiting_count-completed stages f.node was_pending.0, taken.one_less)

  not_done_before : IsDone stages f.node → ⊥
  not_done_before h = differ (sym was_pending.0 ∙ h)
    where
      differ : some pending ≡ some completed → ⊥
      differ k = cc

  All-at : (es : List ℕ) (i : ℕ) → get_elem? es i ≡ some f.node → All (IsDone stages) es → ⊥
  All-at [] i h k = cc
  All-at (e ∷ es) zero h k = not_done_before (subst (IsDone stages) (same h) k.0)
    where
      same : some e ≡ some f.node → e ≡ f.node
      same h = cc
  All-at (e ∷ es) (suc i) h k = All-at es i h k.1

  not_all_done :
      (es : List ℕ) (q : Option ℕ) (kind : FireRuleKind)
      → IsFrom f.node es q kind
      → SourcesAreDone stages es q
      → ⊥
  not_all_done es q (param_dep i) h k = All-at es i h k.0
  not_all_done es q precondition h k = not_done_before (subst (PreconditionIsDone stages) h k.1)

  still_waits_or_selects :
      (es : List ℕ) (q : Option ℕ) (kind : FireRuleKind) (j : ℕ) (st : Stage) (n : TwGraphNode)
      (d : Params) (r : Bool)
      → IsFrom f.node es q kind
      → get_elem? stages j ≡ some st
      → IsAt stages st n es q d r
      → (get_elem? stages j ≡ some waiting) ⊎ (is_select n ≡ true)
  still_waits_or_selects es q kind j waiting n d r h hs k = inl hs
  still_waits_or_selects es q kind j pending n d r h hs k = elim (Bool-cases (is_select n)) [
    | inl sel ↦ inr sel
    | inr plain ↦ absurd (not_all_done es q kind h (rw plain at k))
  ]
  still_waits_or_selects es q kind j completed n d r h hs k = elim (Bool-cases (is_select n)) [
    | inl sel ↦ inr sel
    | inr plain ↦ absurd (not_all_done es q kind h (rw plain at k))
  ]

  -- A wait goes on when another node completes.
  waits_on :
      (j : ℕ)
      → get_elem? stages j ≡ some waiting
      → get_elem? (set stages f.node completed) j ≡ some waiting
  waits_on j h = get_elem?-set stages f.node j completed s_lt ∙ elim (Bool-cases (f.node == j)) [
    | inl same ↦ absurd (differ (ap (get_elem? stages) ((==_iff f.node j).0 same)))
    | inr other ↦ rw other h
  ]
    where
      differ : get_elem? stages f.node ≡ get_elem? stages j → ⊥
      differ k = absurd (clash (sym was_pending.0 ∙ k ∙ h))
        where
          clash : some pending ≡ some waiting → ⊥
          clash e = cc

  IsRule-IsOpen :
      (x : FireRuleItem)
      → IsRule nodes f.node x
      → IsOpen nodes (set stages f.node completed) x.target_node
  IsRule-IsOpen x rule =
      let lt = get_elem?-lt nodes x.target_node rule.is_node in
      let (st, hs) = get_elem?-some stages x.target_node (omega (arith, lt, staged.every_node)) in
      let (d, hd) =
        get_elem?-some p.deps_satisfied x.target_node (omega (arith, lt, staged.every_params)) in
      let (r, hr) =
        get_elem?-some p.precondition_satisfied x.target_node
          (omega (arith, lt, staged.every_condition)) in
      record {
        n = rule.n;
        es = rule.es;
        q = rule.p;
        is_node = rule.is_node;
        waits = waits_map (waits_on x.target_node) (
            still_waits_or_selects rule.es rule.p x.kind x.target_node st rule.n d r rule.is_from hs
              (staged.at_stage x.target_node rule.n rule.es rule.p st d r rule.is_node hs hd hr));
      }

  pub rules-IsOpen :
      All
        (λ (x : FireRuleItem). IsOpen nodes (set stages f.node completed) x.target_node)
        (rules_of f.node 0 nodes)
  rules-IsOpen = All-mono IsRule-IsOpen (rules_of f.node 0 nodes) (rules_of-IsRule nodes f.node)
