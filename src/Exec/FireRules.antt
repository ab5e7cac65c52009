-- ===== src/Exec/FireRules.antt =====
-- rdb-analyzer/src/data/treewalker/exec.rs: generate_fire_rules, which turns the edges of a graph
-- around: for each node, the parameters and preconditions of other nodes that it satisfies.
pub mod Table
use refine_db.Prelude.{
  ℕ, zero, suc, ◌+◌, ◌==◌, if◌then◌else◌, Option, none, some, List, [], ◌∷◌, ◌++◌, ok, err, ◌>>=◌,
}
use refine_db.Treewalker.Bytecode.{TwGraph}
use refine_db.Treewalker.Typeck.Graphs.{Node}
use refine_db.Exec.Outcome.{Executed, panicked}

pub data FireRuleKind : Type 0 where
  param_dep : ℕ → FireRuleKind
  precondition : FireRuleKind

pub record FireRuleItem : Type 0 where
  pub target_node : ℕ
  pub kind : FireRuleKind

abbrev pub FireRuleTable : Type 0
FireRuleTable = List (List FireRuleItem)

-- `m[i].push(item)`
unfoldable pub push_rule : ℕ → FireRuleItem → FireRuleTable → Executed FireRuleTable
push_rule i x [] = err panicked
push_rule zero x (row ∷ t) = ok ((row ++ x ∷ []) ∷ t)
push_rule (suc i) x (row ∷ t) = push_rule i x t >>= λ t'. ok (row ∷ t')

unfoldable pub push_param_deps : ℕ → ℕ → List ℕ → FireRuleTable → Executed FireRuleTable
unfolding push_rule
push_param_deps target position [] t = ok t
push_param_deps target position (e ∷ es) t =
    push_rule e (record { target_node = target; kind = param_dep position }) t
    >>= push_param_deps target (position + 1) es

unfoldable pub push_precondition : ℕ → Option ℕ → FireRuleTable → Executed FireRuleTable
unfolding push_rule
push_precondition target none t = ok t
push_precondition target (some e) t =
    push_rule e (record { target_node = target; kind = precondition }) t

unfoldable pub push_rules : ℕ → List Node → FireRuleTable → Executed FireRuleTable
unfolding push_param_deps push_precondition
push_rules target [] t = ok t
push_rules target ((_, in_edges, p) ∷ nodes) t = do
  t' ← push_param_deps target 0 in_edges t
  t'' ← push_precondition target p t'
  push_rules (target + 1) nodes t''

abbrev pub empty_rows : List Node → FireRuleTable
empty_rows [] = []
empty_rows (_ ∷ nodes) = [] ∷ empty_rows nodes

unfoldable pub generate_fire_rules : TwGraph → Executed FireRuleTable
unfolding push_rules
generate_fire_rules g = push_rules 0 g.nodes (empty_rows g.nodes)

abbrev pub row : ℕ → FireRuleTable → List FireRuleItem
row s [] = []
row zero (r ∷ t) = r
row (suc s) (r ∷ t) = row s t

-- What a node satisfies, read off the nodes from the one numbered `target` on, in their order.
abbrev pub param_rules : ℕ → ℕ → ℕ → List ℕ → List FireRuleItem
param_rules s target position [] = []
param_rules s target position (e ∷ es) =
    (if e == s then record { target_node = target; kind = param_dep position } ∷ [] else [])
    ++ param_rules s target (position + 1) es

abbrev pub precondition_rules : ℕ → ℕ → Option ℕ → List FireRuleItem
precondition_rules s target none = []
precondition_rules s target (some e) =
    if e == s then record { target_node = target; kind = precondition } ∷ [] else []

unfoldable pub rules_of : ℕ → ℕ → List Node → List FireRuleItem
rules_of s target [] = []
rules_of s target ((_, in_edges, p) ∷ nodes) =
    param_rules s target 0 in_edges
    ++ (precondition_rules s target p ++ rules_of s (target + 1) nodes)
