-- ===== src/Exec/Samples.antt =====
-- Scripts to run: a graph that adds a constant to its parameter, a graph that tests its parameter, a
-- graph that adds its parameter to itself, and an encoding of primitives.
use refine_db.Prelude.{
  ℕ, zero, suc, Bytes, Bool-cases, inl, inr, true, none, some, Option, List, [], ◌∷◌, ◌≡◌, refl,
  ltb, if◌then◌else◌,
}
use refine_db.Prelude.Int.{pos, negsuc}
use refine_db.Value.{PrimitiveValue, PrimitiveType, string, bytes, int64, double, top_bit}
use refine_db.Treewalker.Bytecode.{TwGraph, load_param, load_const, add, is_null}
use refine_db.Treewalker.Types.{VmType, bool}
use refine_db.Treewalker.Types
use refine_db.Treewalker.Values.{VmValue, primitive}
use refine_db.Treewalker.Typeck.{TwVm}
use refine_db.Exec.Outcome.{Host, untagged}
use refine_db.Exec.FireRules.{FireRuleItem, param_dep}
use refine_db.Exec.Loop.{Executor}

abbrev pub encode : PrimitiveValue → Bytes
encode (string s) = 0 ∷ s
encode (bytes s) = 1 ∷ s
encode (int64 (pos n)) = 2 ∷ n ∷ []
encode (int64 (negsuc n)) = 3 ∷ n ∷ []
encode (double n) = if ltb n top_bit then 2 ∷ n ∷ [] else 4 ∷ n ∷ []

abbrev pub decode : Bytes → Option PrimitiveValue
decode (zero ∷ s) = some (string s)
decode (suc zero ∷ s) = some (bytes s)
decode (suc (suc zero) ∷ (n ∷ [])) = some (int64 (pos n))
decode (suc (suc (suc zero)) ∷ (n ∷ [])) = some (int64 (negsuc n))
decode (suc (suc (suc (suc zero))) ∷ (n ∷ [])) = some (double n)
decode _ = none

pub decode_encoded : (x : PrimitiveValue) → decode (encode x) ≡ some (untagged x)
unfolding untagged
decode_encoded (string s) = refl
decode_encoded (bytes s) = refl
decode_encoded (int64 (pos n)) = refl
decode_encoded (int64 (negsuc n)) = refl
decode_encoded (double n) = elim (Bool-cases (ltb n top_bit)) [
  | inl e ↦ rw (e, untagged) refl
  | inr e ↦ rw (e, untagged) refl
]

abbrev pub host : Host
host = record {
  to_vec = encode;
  from_slice = decode;
  from_slice-to_vec = decode_encoded;
  add_double = λ x y. x;
  sub_double = λ x y. x;
}

abbrev int : VmType
int = Types.primitive PrimitiveType.int64

abbrev pub sum_graph : TwGraph
sum_graph = record {
  name = "sum";
  exported = true;
  nodes = (load_param 0, [], none) ∷ (load_const 0, [], none) ∷ (add, 0 ∷ 1 ∷ [], none) ∷ [];
  output = some 2;
  param_types = 0 ∷ [];
  output_type = some 0;
}

abbrev pub test_graph : TwGraph
test_graph = record {
  name = "is_absent";
  exported = true;
  nodes = (load_param 0, [], none) ∷ (is_null, 0 ∷ [], none) ∷ [];
  output = some 1;
  param_types = 0 ∷ [];
  output_type = some 1;
}

-- `x + x`: the node `add` names its source twice.
abbrev pub double_graph : TwGraph
double_graph = record {
  name = "double";
  exported = true;
  nodes = (load_param 0, [], none) ∷ (add, 0 ∷ 0 ∷ [], none) ∷ [];
  output = some 1;
  param_types = 0 ∷ [];
  output_type = some 0;
}

abbrev pub vm_of : List TwGraph → TwVm
vm_of graphs = record {
  schema = record { types = []; exports = [] };
  graphs = graphs;
  idents = [];
  consts = primitive (int64 (pos 5)) ∷ [];
  types = int ∷ bool ∷ [];
}

abbrev pub param_rule : ℕ → ℕ → FireRuleItem
param_rule target position = record { target_node = target; kind = param_dep position }

abbrev pub executor : Executor
executor = record {
  vm = vm_of (sum_graph ∷ test_graph ∷ []);
  type_info =
      record { params = int ∷ []; node_types = some int ∷ some int ∷ some int ∷ [] }
      ∷ record { params = int ∷ []; node_types = some int ∷ some bool ∷ [] }
      ∷ [];
  fire_rule_tables =
      ((param_rule 2 0 ∷ []) ∷ (param_rule 2 1 ∷ []) ∷ [] ∷ [])
      ∷ ((param_rule 1 0 ∷ []) ∷ [] ∷ [])
      ∷ [];
}

abbrev pub doubling : Executor
doubling = record {
  vm = vm_of (double_graph ∷ []);
  type_info = record { params = int ∷ []; node_types = some int ∷ some int ∷ [] } ∷ [];
  fire_rule_tables = ((param_rule 1 0 ∷ param_rule 1 1 ∷ []) ∷ [] ∷ []) ∷ [];
}

abbrev pub three : VmValue
three = primitive (int64 (pos 3))

abbrev pub eight : VmValue
eight = primitive (int64 (pos 8))
