-- ===== src/Exec/Once/Taken.antt =====
-- rdb-analyzer/src/data/treewalker/exec.rs: the loop of recursively_run_graph takes the parameters of a
-- target when it fires, and the target has none from then on.
use refine_db.Prelude.{
  ℕ, ◌==◌, Option, none, some, List, [], ◌∷◌, get_elem?, is_empty, inl, inr, ◌≡◌, refl, sym, ◌∙◌,
  ap, arith, Bool-cases, Option-cases, ==_iff, Ensures, returns, fails, ◌⟫◌, Ensures-any,
  Ensures-if, ok_or-Ensures,
}
use refine_db.Prelude.Updates.{store_at, store_at-set, get_elem?-set}
use refine_db.Treewalker.Bytecode.{is_select}
use refine_db.Treewalker.Values.{VmValue}
use refine_db.Treewalker.Typeck.Graphs.{Node}
use refine_db.Exec.Outcome.{panicked, unwrap}
use refine_db.Exec.FireRules.{FireRuleItem, FireRuleKind, param_dep, precondition}
use refine_db.Exec.Progress.{
  Work, selected, Progress, Params, first_candidate, all_params, fire, fire_select, fire_node,
  fire_target, fire_targets, condition_of, satisfy_kind, satisfy,
}

-- The parameters of the target have been taken.
abbrev pub IsEmptied : ℕ → Progress → Type 0
IsEmptied t p = get_elem? p.deps_satisfied t ≡ some []

-- Storing at the target or elsewhere; a parameter cannot be stored where there are none.
stored-IsEmptied :
    (t i : ℕ) (d : Params) (deps deps' : List Params)
    → (i ≡ t → d ≡ [])
    → store_at i d deps ≡ some deps'
    → get_elem? deps t ≡ some []
    → get_elem? deps' t ≡ some []
stored-IsEmptied t i d deps deps' here stored empty =
    let (same, lt) = store_at-set i d deps stored in
    rw same (
      get_elem?-set deps i t d lt ∙ elim (Bool-cases (i == t)) [
        | inl e ↦ rw e (ap some (here ((==_iff i t).0 e)))
        | inr e ↦ rw e empty
      ])

pub fire-IsEmptied :
    (target : ℕ) (work : Work) (p : Progress) → Ensures (IsEmptied target) (fire target work p)
unfolding fire
fire-IsEmptied target work p =
    ok_or-Ensures panicked (store_at target [] p.deps_satisfied) ⟫ λ deps stored.
    let (same, lt) = store_at-set target [] p.deps_satisfied stored in
    returns (rw same (get_elem?-set p.deps_satisfied target target [] lt ∙ ground arith))

module _ (t : ℕ) where
  fire_keeps-IsEmptied :
      (target : ℕ) (work : Work) (p : Progress)
      → IsEmptied t p
      → Ensures (IsEmptied t) (fire target work p)
  unfolding fire
  fire_keeps-IsEmptied target work p h =
      ok_or-Ensures panicked (store_at target [] p.deps_satisfied) ⟫ λ deps stored.
      returns (stored-IsEmptied t target [] p.deps_satisfied deps (λ _. refl) stored h)

  fire_select-IsEmptied :
      (target : ℕ) (params : Params) (p : Progress)
      → IsEmptied t p
      → Ensures (IsEmptied t) (fire_select target params p)
  unfolding fire_select
  fire_select-IsEmptied target params p h =
      Ensures-if (is_empty params) (λ _. fails)
        (λ _. elim (Option-cases (first_candidate params)) [
          | inl e ↦ rw e (returns h)
          | inr (v, e) ↦ rw e (fire_keeps-IsEmptied target (selected v) p h)
        ])

  fire_node-IsEmptied :
      (target : ℕ) (params : Params) (p : Progress)
      → IsEmptied t p
      → Ensures (IsEmptied t) (fire_node target params p)
  unfolding fire_node
  fire_node-IsEmptied target params p h = elim (Option-cases (all_params params)) [
    | inl e ↦ rw (e, fire_node) (returns h)
    | inr (vs, e) ↦ rw (e, fire_node) (fire_keeps-IsEmptied target _ p h)
  ]

  fire_target-IsEmptied :
      (nodes : List Node) (target : ℕ) (p : Progress)
      → IsEmptied t p
      → Ensures (IsEmptied t) (fire_target nodes target p)
  unfolding fire_target
  fire_target-IsEmptied nodes target p h =
      Ensures-any (unwrap (get_elem? nodes target)) ⟫ λ (n, _, _) _.
      Ensures-any (unwrap (get_elem? p.precondition_satisfied target)) ⟫ λ satisfied _.
      Ensures-any (unwrap (get_elem? p.deps_satisfied target)) ⟫ λ params _.
      Ensures-if satisfied
        (λ _.
          Ensures-if (is_select n) (λ _. fire_select-IsEmptied target params p h)
            (λ _. fire_node-IsEmptied target params p h))
        (λ _. returns h)

  pub fire_targets-IsEmptied :
      (nodes : List Node) (items : List FireRuleItem) (p : Progress)
      → IsEmptied t p
      → Ensures (IsEmptied t) (fire_targets nodes items p)
  unfolding fire_targets
  fire_targets-IsEmptied nodes [] p h = returns h
  fire_targets-IsEmptied nodes (x ∷ items) p h =
      fire_target-IsEmptied nodes x.target_node p h ⟫ λ p' h'.
      fire_targets-IsEmptied nodes items p' h'

  param_is_lost :
      (position target : ℕ) (v : VmValue) (params params' : Params) (p : Progress)
      → get_elem? p.deps_satisfied target ≡ some params
      → store_at position (some v) params ≡ some params'
      → IsEmptied t p
      → target ≡ t
      → params' ≡ []
  unfolding store_at
  param_is_lost position target v params params' p found stored h same =
      let none_there : params ≡ [] =
        some_same (sym found ∙ ap (get_elem? p.deps_satisfied) same ∙ h) in
      absurd (no_some (rw none_there at stored))
    where
      some_same : {a b : Params} → some a ≡ some b → a ≡ b
      some_same e = cc

      no_some : {a : Params} → none ≡ some a → ⊥
      no_some e = cc

  pub satisfy_kind-IsEmptied :
      (result : Option VmValue) (target : ℕ) (kind : FireRuleKind) (p : Progress)
      → IsEmptied t p
      → Ensures (IsEmptied t) (satisfy_kind result target kind p)
  unfolding satisfy_kind
  satisfy_kind-IsEmptied result target (param_dep position) p h =
      Ensures-any (unwrap result) ⟫ λ v _.
      ok_or-Ensures panicked (get_elem? p.deps_satisfied target) ⟫ λ params found.
      ok_or-Ensures panicked (store_at position (some v) params) ⟫ λ params' stored.
      ok_or-Ensures panicked (store_at target params' p.deps_satisfied) ⟫ λ deps all_stored.
      returns (
        stored-IsEmptied t target params' p.deps_satisfied deps
          (param_is_lost position target v params params' p found stored h) all_stored h)
  satisfy_kind-IsEmptied result target precondition p h = Ensures-any (condition_of result) ⟫ λ b _.
      Ensures-any (unwrap (store_at target b p.precondition_satisfied)) ⟫ λ conditions _. returns h

  pub satisfy-IsEmptied :
      (result : Option VmValue) (items : List FireRuleItem) (p : Progress)
      → IsEmptied t p
      → Ensures (IsEmptied t) (satisfy result items p)
  unfolding satisfy
  satisfy-IsEmptied result [] p h = returns h
  satisfy-IsEmptied result (x ∷ items) p h =
      satisfy_kind-IsEmptied result x.target_node x.kind p h ⟫ λ p' h'.
      satisfy-IsEmptied result items p' h'
