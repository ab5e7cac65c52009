-- ===== src/Exec/Once/Satisfy.antt =====
-- rdb-analyzer/src/data/treewalker/exec.rs: the first loop over the fire rules of a node keeps the
-- state of the loop staged.
use refine_db.Prelude.{
  ℕ, zero, suc, ◌<◌, Bool, true, false, Option, none, some, List, [], ◌∷◌, length, get_elem?, All,
  ◌≡◌, refl, sym, ◌∙◌, ap, subst, arith, inl, inr, Ensures, returns, ◌⟫◌, Ensures-any,
  ok_or-Ensures, weaken,
}
use refine_db.Treewalker.Bytecode.{TwGraphNode, is_select}
use refine_db.Treewalker.Values.{VmValue}
use refine_db.Treewalker.Typeck.Graphs.{Node}
use refine_db.Exec.Outcome.{panicked, unwrap}
use refine_db.Exec.FireRules.{FireRuleItem, FireRuleKind, param_dep, precondition}
use refine_db.Exec.Progress.{Progress, Params, condition_of, satisfy_kind, satisfy}
use refine_db.Prelude.Updates.{store_at}
use refine_db.Exec.Once.{
  Stage, waiting, pending, completed, IsDone, PreconditionIsDone, IsSupplied, HasFired, IsAt,
  IsStaged,
}
use refine_db.Prelude.Updates.{set, length-set, get_elem?-some, store_at-set, stored_cases}
use refine_db.Exec.Once.Sources.{IsRule, IsFrom}

empty_bound : (d : Params) (i : ℕ) → d ≡ [] → i < length d → ⊥
empty_bound d i k h = absurd (omega (arith, ap length k))

module _ (stages : List Stage) (s : ℕ) (done : IsDone stages s) (v : VmValue) where
  IsSupplied-set :
      (es : List ℕ) (d : Params) (i : ℕ)
      → get_elem? es i ≡ some s
      → IsSupplied stages es d
      → IsSupplied stages es (set d i (some v))
  IsSupplied-set [] [] i h k = cc
  IsSupplied-set [] (o ∷ d) i h k = absurd k
  IsSupplied-set (e ∷ es) [] i h k = absurd k
  IsSupplied-set (e ∷ es) (none ∷ d) zero h k = (subst (IsDone stages) (same h) done, k)
    where
      same : some e ≡ some s → s ≡ e
      same h = cc
  IsSupplied-set (e ∷ es) (some u ∷ d) zero h k = k
  IsSupplied-set (e ∷ es) (none ∷ d) (suc i) h k = IsSupplied-set es d i h k
  IsSupplied-set (e ∷ es) (some u ∷ d) (suc i) h k = (k.0, IsSupplied-set es d i h k.1)

  HasFired-set :
      (b : Bool) (es : List ℕ) (q : Option ℕ) (d : Params) (i : ℕ)
      → i < length d
      → HasFired stages b es q d
      → HasFired stages b es q (set d i (some v))
  HasFired-set true es q d i h k = absurd (empty_bound d i k h)
  HasFired-set false es q d i h k = k

  -- A parameter arrives.
  IsAt-supply :
      (st : Stage) (n : TwGraphNode) (es : List ℕ) (q : Option ℕ) (d : Params) (r : Bool) (i : ℕ)
      → get_elem? es i ≡ some s
      → i < length d
      → IsAt stages st n es q d r
      → IsAt stages st n es q (set d i (some v)) r
  IsAt-supply waiting n es q d r i h l k = (IsSupplied-set es d i h k.0, k.1)
  IsAt-supply pending n es q d r i h l k = HasFired-set (is_select n) es q d i l k
  IsAt-supply completed n es q d r i h l k = HasFired-set (is_select n) es q d i l k

-- The precondition arrives.
IsAt-condition :
    (stages : List Stage) (s : ℕ) (st : Stage) (n : TwGraphNode) (es : List ℕ) (q : Option ℕ)
    (d : Params) (r r' : Bool)
    → IsDone stages s
    → q ≡ some s
    → IsAt stages st n es q d r
    → IsAt stages st n es q d r'
IsAt-condition stages s waiting n es q d r r' done h k =
    (k.0, λ _. subst (PreconditionIsDone stages) (sym h) done)
IsAt-condition stages s pending n es q d r r' done h k = k
IsAt-condition stages s completed n es q d r r' done h k = k

module _ (nodes : List Node) (stages : List Stage) (s : ℕ) (done : IsDone stages s)
    (result : Option VmValue) (x : FireRuleItem) (rule : IsRule nodes s x) where
  rule_node :
      (j : ℕ) (n : TwGraphNode) (es : List ℕ) (q : Option ℕ)
      → x.target_node ≡ j
      → get_elem? nodes j ≡ some (n, es, q)
      → (rule.es ≡ es) × (rule.p ≡ q)
  rule_node j n es q same h =
      let e = sym rule.is_node ∙ ap (get_elem? nodes) same ∙ h in (cc e, cc e)

  satisfy_kind-IsStaged :
      (p : Progress) (kind : FireRuleKind)
      → IsFrom s rule.es rule.p kind
      → IsStaged nodes stages p
      → Ensures
          (λ p'. IsStaged nodes stages p' × (p'.futures ≡ p.futures))
          (satisfy_kind result x.target_node kind p)
  unfolding satisfy_kind
  satisfy_kind-IsStaged p (param_dep i) h staged = Ensures-any (unwrap result) ⟫ λ v _.
      ok_or-Ensures panicked (get_elem? p.deps_satisfied x.target_node) ⟫ λ d hd.
      ok_or-Ensures panicked (store_at i (some v) d) ⟫ λ d' hd'.
      ok_or-Ensures panicked (store_at x.target_node d' p.deps_satisfied) ⟫ λ deps hdeps.
      let (to_set, l) = store_at-set i (some v) d hd' in
      let (deps_set, k) = store_at-set x.target_node d' p.deps_satisfied hdeps in
      returns {a = record p { deps_satisfied = deps }} (
        record {
          every_node = staged.every_node;
          every_params =
              rw deps_set (length-set p.deps_satisfied x.target_node d') ∙ staged.every_params;
          every_condition = staged.every_condition;
          at_stage = λ j n es q st e r hn hs he hr.
              elim (stored_cases p.deps_satisfied x.target_node j d' e k (rw deps_set at he)) [
                | inl (same, new) ↦
                    let (edges, _) = rule_node j n es q same hn in
                    rw (new ∙ to_set) (
                      IsAt-supply stages s done v st n es q d r i (rw edges at h) l (
                        staged.at_stage j n es q st d r hn hs
                          (ap (get_elem? p.deps_satisfied) (sym same) ∙ hd) hr))
                | inr (_, old) ↦ staged.at_stage j n es q st e r hn hs old hr
              ];
          queued = staged.queued;
          in_graph = staged.in_graph;
        },
        refl,
      )
  satisfy_kind-IsStaged p precondition h staged = Ensures-any (condition_of result) ⟫ λ b _.
      ok_or-Ensures panicked (store_at x.target_node b p.precondition_satisfied) ⟫ λ rs hrs.
      let (rs_set, k) = store_at-set x.target_node b p.precondition_satisfied hrs in
      returns {a = record p { precondition_satisfied = rs }} (
        record {
          every_node = staged.every_node;
          every_params = staged.every_params;
          every_condition =
              rw rs_set (length-set p.precondition_satisfied x.target_node b)
              ∙ staged.every_condition;
          at_stage = λ j n es q st d r hn hs hd hr.
              elim (stored_cases p.precondition_satisfied x.target_node j b r k (rw rs_set at hr)) [
                | inl (same, new) ↦
                    let (r', old) = get_elem?-some p.precondition_satisfied x.target_node k in
                    let (_, from) = rule_node j n es q same hn in
                    IsAt-condition stages s st n es q d r' r done (sym from ∙ h) (
                      staged.at_stage j n es q st d r' hn hs hd
                        (ap (get_elem? p.precondition_satisfied) (sym same) ∙ old))
                | inr (_, old) ↦ staged.at_stage j n es q st d r hn hs hd old
              ];
          queued = staged.queued;
          in_graph = staged.in_graph;
        },
        refl,
      )

-- The whole loop, over items that the edges of the graph give.
pub satisfy-IsStaged :
    (nodes : List Node) (stages : List Stage) (s : ℕ) (result : Option VmValue)
    (items : List FireRuleItem) (p : Progress)
    → IsDone stages s
    → All (IsRule nodes s) items
    → IsStaged nodes stages p
    → Ensures (λ p'. IsStaged nodes stages p' × (p'.futures ≡ p.futures)) (satisfy result items p)
unfolding satisfy
satisfy-IsStaged nodes stages s result [] p done rules staged = returns (staged, refl)
satisfy-IsStaged nodes stages s result (x ∷ items) p done rules staged =
    satisfy_kind-IsStaged nodes stages s done result x rules.0 p x.kind rules.0.is_from staged
    ⟫ λ p' (staged', same).
        weaken (λ p'' (staged'', same'). (staged'', same' ∙ same))
          (satisfy-IsStaged nodes stages s result items p' done rules.1 staged')
