-- ===== src/Treewalker/Bytecode.antt =====
-- rdb-analyzer/src/data/treewalker/bytecode.rs: scripts, graphs and their nodes.
use refine_db.Prelude.{ℕ, String, Bool, true, false, Option, List, [], ◌∷◌}

pub data TwGraphNode : Type 0 where
  load_param load_const build_table : ℕ → TwGraphNode
  build_set create_map : TwGraphNode
  create_list : ℕ → TwGraphNode
  prepend_to_list pop_from_list list_head : TwGraphNode
  reduce : ℕ → Bool → TwGraphNode
  get_field : ℕ → TwGraphNode
  get_set_element : TwGraphNode
  filter_set insert_into_map insert_into_table : ℕ → TwGraphNode
  insert_into_set delete_from_set : TwGraphNode
  delete_from_map : ℕ → TwGraphNode
  eq ne and or not select is_present is_null nop : TwGraphNode
  call : ℕ → TwGraphNode
  add sub throw : TwGraphNode

pub record TwGraph : Type 0 where
  pub name : String
  pub exported : Bool
  -- node, in_edges, precondition
  pub nodes : List (TwGraphNode × List ℕ × Option ℕ)
  pub output : Option ℕ
  pub param_types : List ℕ
  pub output_type : Option ℕ

unfoldable pub is_select : TwGraphNode → Bool
is_select select = true
is_select _ = false

unfoldable pub subgraph_references : TwGraphNode → List ℕ
subgraph_references (filter_set x) = x ∷ []
subgraph_references (call x) = x ∷ []
subgraph_references (reduce x _) = x ∷ []
subgraph_references _ = []

unfoldable pub is_optional_chained : TwGraphNode → Bool
is_optional_chained is_null = false
is_optional_chained nop = false
is_optional_chained (insert_into_map _) = false
is_optional_chained (delete_from_map _) = false
is_optional_chained (reduce _ _) = false
is_optional_chained throw = false
is_optional_chained _ = true
