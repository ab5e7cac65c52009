-- ===== src/Exec/FireRules/Table.antt =====
-- rdb-analyzer/src/data/treewalker/exec.rs: the table of fire rules against the edges of the graph.
use refine_db.Prelude.{
  ℕ, zero, suc, ◌+◌, ◌<◌, ◌≤◌, ◌==◌, if◌then◌else◌, Option, none, some, List, [], ◌∷◌, ◌++◌,
  append_assoc, append-nil, length, get_elem?, All, ok, ◌>>=◌, ◌≡◌, refl, sym, ◌∙◌, ap, subst,
  arith,
}
use refine_db.Treewalker.Bytecode.{TwGraph}
use refine_db.Treewalker.Typeck.Graphs.{Node}
use refine_db.Treewalker.Typeck.Topology.{IsSorted, IsBefore}
use refine_db.Exec.Outcome.{Executed}
use refine_db.Exec.FireRules.{
  FireRuleItem, FireRuleTable, push_rule, push_param_deps, push_precondition, push_rules,
  empty_rows, generate_fire_rules, row, param_rules, precondition_rules, rules_of,
}

-- The run returns a table of as many rows, each longer by what `more` gives.
pub record Pushes (t : FireRuleTable) (more : ℕ → List FireRuleItem) (r : Executed FireRuleTable)
    : Type 0 where
  pub table : FireRuleTable
  pub returned : r ≡ ok table
  pub same_length : length table ≡ length t
  pub rows : (s : ℕ) → s < length t → row s table ≡ row s t ++ more s

push_rule-row :
    (i : ℕ) (x : FireRuleItem) (t : FireRuleTable)
    → i < length t
    → Pushes t (λ s. if i == s then x ∷ [] else []) (push_rule i x t)
unfolding push_rule
push_rule-row i x [] h = absurd (omega arith)
push_rule-row zero x (r ∷ t) h = record {
  table = (r ++ x ∷ []) ∷ t;
  returned = refl;
  same_length = refl;
  rows = first;
}
  where
    first :
        (s : ℕ)
        → s < suc (length t)
        → row s ((r ++ x ∷ []) ∷ t) ≡ row s (r ∷ t) ++ (if 0 == s then x ∷ [] else [])
    first zero k = refl
    first (suc s) k = ground (arith, append-nil (row s t))
push_rule-row (suc i) x (r ∷ t) h =
    let p = push_rule-row i x t (omega arith) in
    record {
      table = r ∷ p.table;
      returned = rw p.returned;
      same_length = omega (arith, p.same_length);
      rows = later p;
    }
  where
    later :
        (p : Pushes t (λ s. if i == s then x ∷ [] else []) (push_rule i x t)) (s : ℕ)
        → s < suc (length t)
        → row s (r ∷ p.table) ≡ row s (r ∷ t) ++ (if suc i == s then x ∷ [] else [])
    later p zero k = ground (arith, append-nil r)
    later p (suc s) k = ground (arith, p.rows s)

-- One run after another.
Pushes-bind :
    {t : FireRuleTable} {f g : ℕ → List FireRuleItem} (r : Executed FireRuleTable)
    (k : FireRuleTable → Executed FireRuleTable)
    → Pushes t f r
    → ((u : FireRuleTable) → length u ≡ length t → Pushes u g (k u))
    → Pushes t (λ s. f s ++ g s) (r >>= k)
Pushes-bind {t} {f} {g} r k p next =
    let q = next p.table p.same_length in
    record {
      table = q.table;
      returned = rw p.returned q.returned;
      same_length = q.same_length ∙ p.same_length;
      rows = λ s h.
          q.rows s (omega (arith, p.same_length, h))
          ∙ rw (p.rows s h) (append_assoc (row s t) (f s) (g s));
    }

Pushes-none : (t : FireRuleTable) → Pushes t (λ s. []) (ok t)
Pushes-none t = record {
  table = t;
  returned = refl;
  same_length = refl;
  rows = λ s h. sym (append-nil (row s t));
}

push_param_deps-Pushes :
    (target position : ℕ) (es : List ℕ) (t : FireRuleTable)
    → All (λ e. e < length t) es
    → Pushes t (λ s. param_rules s target position es) (push_param_deps target position es t)
unfolding push_param_deps
push_param_deps-Pushes target position [] t h = Pushes-none t
push_param_deps-Pushes target position (e ∷ es) t h =
    Pushes-bind _ _ (push_rule-row e _ t h.0)
      λ u same. push_param_deps-Pushes target (position + 1) es u (rw same h.1)

push_precondition-Pushes :
    (target : ℕ) (p : Option ℕ) (t : FireRuleTable)
    → IsBefore (length t) p
    → Pushes t (λ s. precondition_rules s target p) (push_precondition target p t)
unfolding push_precondition
push_precondition-Pushes target none t h = Pushes-none t
push_precondition-Pushes target (some e) t h = push_rule-row e _ t h

All-lt : (i n : ℕ) (es : List ℕ) → i ≤ n → All (λ e. e < i) es → All (λ e. e < n) es
All-lt i n [] h a = tt
All-lt i n (e ∷ es) h a = (omega arith, All-lt i n es h a.1)

IsBefore-le : (i n : ℕ) (p : Option ℕ) → i ≤ n → IsBefore i p → IsBefore n p
IsBefore-le i n none h b = tt
IsBefore-le i n (some e) h b = omega arith

push_rules-Pushes :
    (target : ℕ) (nodes : List Node) (t : FireRuleTable)
    → IsSorted target nodes
    → target + length nodes ≤ length t
    → Pushes t (λ s. rules_of s target nodes) (push_rules target nodes t)
unfolding push_rules rules_of
push_rules-Pushes target [] t sorted h = Pushes-none t
push_rules-Pushes target ((_, es, p) ∷ nodes) t (edges, before, sorted) h =
    Pushes-bind _ _
      (push_param_deps-Pushes target 0 es t (All-lt target (length t) es (omega arith) edges))
      λ u same.
        Pushes-bind _ _
          (push_precondition-Pushes target p u
            (IsBefore-le target (length u) p (omega (arith, same)) before))
          λ v same'.
            push_rules-Pushes (target + 1) nodes v
              (subst (λ i. IsSorted i nodes) (omega arith) sorted) (omega (arith, same, same'))

length-empty_rows : (nodes : List Node) → length (empty_rows nodes) ≡ length nodes
length-empty_rows [] = refl
length-empty_rows (_ ∷ nodes) = omega (arith, length-empty_rows nodes)

row-empty_rows : (s : ℕ) (nodes : List Node) → row s (empty_rows nodes) ≡ []
row-empty_rows s [] = refl
row-empty_rows zero (_ ∷ nodes) = refl
row-empty_rows (suc s) (_ ∷ nodes) = row-empty_rows s nodes

row-get_elem? : (s : ℕ) (t : FireRuleTable) → s < length t → get_elem? t s ≡ some (row s t)
row-get_elem? s [] h = absurd (omega arith)
row-get_elem? zero (r ∷ t) h = refl
row-get_elem? (suc s) (r ∷ t) h = row-get_elem? s t (omega arith)

-- Where every edge and precondition goes back, the fire rules are generated without a panic, there is
-- a row for each node, and the row of a node lists, in the order of the nodes, the parameters and the
-- preconditions that name it as their source.
pub generate_fire_rules-rules_of :
    (g : TwGraph)
    → IsSorted 0 g.nodes
    → (table : FireRuleTable) × (generate_fire_rules g ≡ ok table)
      × (length table ≡ length g.nodes)
      × ((s : ℕ) → s < length g.nodes → get_elem? table s ≡ some (rules_of s 0 g.nodes))
unfolding generate_fire_rules
generate_fire_rules-rules_of g sorted =
    let same = length-empty_rows g.nodes in
    let p = push_rules-Pushes 0 g.nodes (empty_rows g.nodes) sorted (omega (arith, same)) in
    (
      p.table,
      p.returned,
      p.same_length ∙ same,
      λ s h.
          row-get_elem? s p.table (omega (arith, p.same_length, same))
          ∙ ap some (p.rows s (omega (arith, same, h)) ∙ rw (row-empty_rows s g.nodes)),
    )
