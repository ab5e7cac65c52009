-- ===== src/Exec/Once/Twice.antt =====
-- rdb-analyzer/src/data/treewalker/exec.rs: what the loop of recursively_run_graph does where a node
-- names a source twice.
use refine_db.Prelude.{
  ℕ, zero, suc, ◌<◌, true, false, Option, some, List, [], ◌∷◌, ◌++◌, append_assoc, length,
  get_elem?, ok, ◌>>=◌, ◌≡◌, refl, ◌∙◌, ap, arith,
}
use refine_db.Treewalker.Bytecode.{TwGraphNode, is_select}
use refine_db.Treewalker.Values.{VmValue}
use refine_db.Treewalker.Typeck.Graphs.{Node}
use refine_db.Exec.FireRules.{FireRuleItem}
use refine_db.Exec.Progress.{
  Work, run_with, Progress, Params, all_params, fire, fire_node, fire_target, fire_targets,
}
use refine_db.Prelude.Updates.{store_at, some_cons}
use refine_db.Prelude.Updates.{set, get_elem?-set, get_elem?-lt}

store_at-lt {ℓ} :
    {A : Type ℓ} (i : ℕ) (v : A) (xs : List A) → i < length xs → store_at i v xs ≡ some (set xs i v)
unfolding store_at
store_at-lt i v [] h = absurd (omega arith)
store_at-lt zero v (x ∷ xs) h = refl
store_at-lt (suc i) v (x ∷ xs) h = ap (some_cons x) (store_at-lt i v xs (omega arith))

-- The target after it has fired.
abbrev after_fire : ℕ → Work → Progress → Progress
after_fire t work p = record p {
  deps_satisfied = set p.deps_satisfied t [];
  futures = p.futures ++ record { node = t; work = work } ∷ [];
}

fire_lem :
    (t : ℕ) (work : Work) (p : Progress) {d : Params}
    → get_elem? p.deps_satisfied t ≡ some d
    → fire t work p ≡ ok (after_fire t work p)
unfolding fire
fire_lem t work p h =
    rw (store_at-lt t [] p.deps_satisfied (get_elem?-lt p.deps_satisfied t h)) refl

deps_gone :
    (t : ℕ) (work : Work) (p : Progress) {d : Params}
    → get_elem? p.deps_satisfied t ≡ some d
    → get_elem? (after_fire t work p).deps_satisfied t ≡ some []
deps_gone t work p h =
    get_elem?-set p.deps_satisfied t t [] (get_elem?-lt p.deps_satisfied t h) ∙ ground arith

module _ (nodes : List Node) (t : ℕ) (n : TwGraphNode) (es : List ℕ) (q : Option ℕ)
    (is_node : get_elem? nodes t ≡ some (n, es, q)) (plain : is_select n ≡ false) where
  fires :
      (p : Progress) (d : Params) (vs : List VmValue)
      → get_elem? p.precondition_satisfied t ≡ some true
      → get_elem? p.deps_satisfied t ≡ some d
      → all_params d ≡ some vs
      → fire_target nodes t p ≡ ok (after_fire t (run_with vs) p)
  unfolding fire_target fire_node
  fires p d vs ready here full =
      rw (is_node, fire_target)
        (rw (ready, fire_target)
          (rw (here, fire_target)
            (rw plain (rw (full, fire_node) (fire_lem t (run_with vs) p here)))))

  -- A node that is no select, whose parameters and precondition are there, and that two fire rules of
  -- the completed node hit, fires twice: with its parameters, and again with none.
  pub fire_targets_twice :
      (p : Progress) (d : Params) (vs : List VmValue) (x y : FireRuleItem)
      → get_elem? p.precondition_satisfied t ≡ some true
      → get_elem? p.deps_satisfied t ≡ some d
      → all_params d ≡ some vs
      → x.target_node ≡ t
      → y.target_node ≡ t
      → (p' : Progress) × (fire_targets nodes (x ∷ y ∷ []) p ≡ ok p')
        × (p'.futures
            ≡ p.futures
              ++ (record { node = t; work = run_with vs }
                  ∷ record { node = t; work = run_with [] }
                  ∷ []))
  unfolding fire_targets all_params
  fire_targets_twice p d vs x y ready here full hx hy =
      let p' = after_fire t (run_with vs) p in
      let first = fires p d vs ready here full in
      let second = fires p' [] [] ready (deps_gone t (run_with vs) p here) refl in
      (
        after_fire t (run_with []) p',
        ap (λ r. r >>= fire_targets nodes (y ∷ [])) (ap (λ k. fire_target nodes k p) hx ∙ first)
            ∙ ap (λ r. r >>= fire_targets nodes []) (ap (λ k. fire_target nodes k p') hy ∙ second),
        append_assoc p.futures (record { node = t; work = run_with vs } ∷ []) _,
      )
