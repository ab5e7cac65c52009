-- ===== src/Exec/Once/Emptied.antt =====
-- rdb-analyzer/src/data/treewalker/exec.rs: what the loop of recursively_run_graph does where both
-- candidates of a select complete. A target that has fired has no parameters from then on.
use refine_db.Prelude.{
  ℕ, false, if◌then◌else◌, Option, none, some, List, [], ◌∷◌, get_elem?, ok, err, ◌>>=◌, ◌⊎◌, inl,
  inr, ◌≡◌, refl, sym, ◌∙◌, ap, Ensures, returns, ◌⟫◌, Ensures-any, Ensures-elim,
}
use refine_db.Prelude.Updates.{store_at}
use refine_db.Treewalker.Bytecode.{TwGraph}
use refine_db.Treewalker.Values.{VmValue, primitive, table, set, bool, map, null, list}
use refine_db.Treewalker.Typeck.{NodeTypes}
use refine_db.Kv.OrderedMap.{OrderedMap}
use refine_db.Kv.MockKv.{Entry}
use refine_db.Exec.Outcome.{Host, Executed, panicked, unwrap}
use refine_db.Exec.Reduce.{Machine}
use refine_db.Exec.RunNode.{Context}
use refine_db.Exec.FireRules.{FireRuleItem, FireRuleKind, FireRuleTable, param_dep, precondition}
use refine_db.Exec.Progress.{
  Pending, selected, Progress, fire, fire_targets, condition_of, satisfy_kind, satisfy,
}
use refine_db.Exec.Loop.{is_output, run_future, complete}
use refine_db.Exec.Once.Taken.{
  IsEmptied, fire-IsEmptied, fire_targets-IsEmptied, satisfy_kind-IsEmptied, satisfy-IsEmptied,
}

-- A row holds the rule.
abbrev pub Holds : FireRuleItem → List FireRuleItem → Type 0
Holds x [] = ⊥
Holds x (y ∷ items) = (x ≡ y) ⊎ Holds x items

-- The first loop fails only with a panic, where the node gave a value.
data PanicsOnly {A : Type 0} : Executed A → Type 0 where
  no_panic : (a : A) → PanicsOnly (ok a)
  panic : PanicsOnly (err panicked)

PanicsOnly-bind :
    {A B : Type 0} (r : Executed A) (f : A → Executed B)
    → PanicsOnly r
    → ((a : A) → PanicsOnly (f a))
    → PanicsOnly (r >>= f)
PanicsOnly-bind _ f (no_panic a) h = h a
PanicsOnly-bind _ f panic h = panic

PanicsOnly-unwrap : {A : Type 0} (o : Option A) → PanicsOnly (unwrap o)
PanicsOnly-unwrap none = panic
PanicsOnly-unwrap (some a) = no_panic a

PanicsOnly-condition : (v : VmValue) → PanicsOnly (condition_of (some v))
PanicsOnly-condition (bool x) = no_panic x
PanicsOnly-condition (null t) = no_panic false
PanicsOnly-condition (primitive x) = panic
PanicsOnly-condition (table ty kind) = panic
PanicsOnly-condition (set ty kind) = panic
PanicsOnly-condition (map x) = panic
PanicsOnly-condition (list ty x) = panic

satisfy_kind-PanicsOnly :
    (v : VmValue) (target : ℕ) (kind : FireRuleKind) (p : Progress)
    → PanicsOnly (satisfy_kind (some v) target kind p)
unfolding satisfy_kind
satisfy_kind-PanicsOnly v target (param_dep position) p =
    PanicsOnly-bind _ _ (PanicsOnly-unwrap (get_elem? p.deps_satisfied target)) λ params.
      PanicsOnly-bind _ _ (PanicsOnly-unwrap (store_at position (some v) params)) λ params'.
        PanicsOnly-bind _ _ (PanicsOnly-unwrap (store_at target params' p.deps_satisfied))
          λ deps. no_panic _
satisfy_kind-PanicsOnly v target precondition p = PanicsOnly-bind _ _ (PanicsOnly-condition v) λ b.
    PanicsOnly-bind _ _ (PanicsOnly-unwrap (store_at target b p.precondition_satisfied))
      λ conditions. no_panic _

lost_param_panics :
    (v : VmValue) (t position : ℕ) (p : Progress)
    → IsEmptied t p
    → satisfy_kind (some v) t (param_dep position) p ≡ err panicked
unfolding satisfy_kind store_at
lost_param_panics v t position p h = rw (h, satisfy_kind) refl

-- A row with a rule for a parameter that was taken makes the first loop panic, at that rule or before.
satisfy_panics :
    (v : VmValue) (t position : ℕ) (items : List FireRuleItem) (p : Progress)
    → IsEmptied t p
    → Holds (record { target_node = t; kind = param_dep position }) items
    → satisfy (some v) items p ≡ err panicked
unfolding satisfy
satisfy_panics v t position [] p h holds = absurd holds
satisfy_panics v t position (x ∷ items) p h (inl same) =
    ap (λ r. r >>= satisfy (some v) items)
      (ap (λ (y : FireRuleItem). satisfy_kind (some v) y.target_node y.kind p) (sym same)
        ∙ lost_param_panics v t position p h)
satisfy_panics v t position (x ∷ items) p h (inr later) =
    after (λ p' h'. satisfy_panics v t position items p' h' later)
      (satisfy_kind (some v) x.target_node x.kind p)
      (satisfy_kind-PanicsOnly v x.target_node x.kind p)
      (satisfy_kind-IsEmptied t (some v) x.target_node x.kind p h)
  where
    after :
        ((p' : Progress) → IsEmptied t p' → satisfy (some v) items p' ≡ err panicked)
        → (r : Executed Progress) → PanicsOnly r
        → Ensures (IsEmptied t) r
        → r >>= satisfy (some v) items ≡ err panicked
    after again _ (no_panic p') (returns h') = again p' h'
    after again _ panic h' = refl

module _ (host : Host) {m : OrderedMap Entry} (cx : Context m) (g : TwGraph) (types : NodeTypes)
    (rules : FireRuleTable) where
  complete-IsEmptied :
      (t : ℕ) (f : Pending) (p : Progress) (s : Machine m)
      → IsEmptied t p
      → Ensures (λ r. IsEmptied t r.0) (complete host cx g types rules f p s)
  unfolding complete
  complete-IsEmptied t f p s h =
      Ensures-any (run_future host cx g types rules f.node f.work s) ⟫ λ (result, s') _.
      Ensures-any (unwrap (get_elem? rules f.node)) ⟫ λ to_fire _.
      satisfy-IsEmptied t result to_fire _ h ⟫ λ p' h'.
      fire_targets-IsEmptied t g.nodes to_fire p' h' ⟫ λ p'' h''. returns {a = (p'', s')} h''

  -- Rounds of the loop: in each some future completes, whichever it is, and leaves the others.
  pub data Rounds (p : Progress) : Progress → Type 0 where
    no_round : Rounds p p
    round :
        {q q' : Progress} (f : Pending) (rest : List Pending) (s s' : Machine m)
        → Rounds p q
        → complete host cx g types rules f (record q { futures = rest }) s ≡ ok (q', s')
        → Rounds p q'

  Rounds-IsEmptied : (t : ℕ) {p q : Progress} → IsEmptied t p → Rounds p q → IsEmptied t q
  Rounds-IsEmptied t h no_round = h
  Rounds-IsEmptied t h (round {q = q} f rest s s' rounds done) =
      Ensures-elim
        (complete-IsEmptied t f (record q { futures = rest }) s (Rounds-IsEmptied t h rounds)) done

  -- When a select has fired for one of its candidates, and after the other targets of that round and any
  -- further rounds of the loop, the other candidate completes with a value, the executor panics,
  -- whatever other rules the candidate has: the error for both candidates is not reached.
  pub second_candidate_panics :
      (t position : ℕ) (v u : VmValue) (p p' p'' q : Progress) (left items : List FireRuleItem)
      (f : Pending) (s s' : Machine m)
      → fire t (selected v) p ≡ ok p'
      → fire_targets g.nodes left p' ≡ ok p''
      → Rounds p'' q
      → run_future host cx g types rules f.node f.work s ≡ ok (some u, s')
      → get_elem? rules f.node ≡ some items
      → Holds (record { target_node = t; kind = param_dep position }) items
      → complete host cx g types rules f q s ≡ err panicked
  unfolding complete
  second_candidate_panics t position v u p p' p'' q left items f s s' fired others rounds ran row
        holds =
      let fired_empty = Ensures-elim (fire-IsEmptied t (selected v) p) fired in
      let round_empty =
        Ensures-elim (fire_targets-IsEmptied t g.nodes left p' fired_empty) others in
      let empty = Rounds-IsEmptied t round_empty rounds in
      rw ran (
        rw (row, complete)
          (rw
            (satisfy_panics u t position items
              (record q { ret = if is_output g f.node then some u else q.ret }) empty holds)
            refl))
