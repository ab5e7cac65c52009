-- ===== src/Treewalker/Typeck/Calls.antt =====
-- rdb-analyzer/src/data/treewalker/typeck.rs: the types of the nodes that call a subgraph. The types
-- with which subgraphs are called are passed on in the sink.
use refine_db.Prelude.{
  ℕ, ◌==◌, Bool, true, false, Option, none, some, String, List, [], ◌∷◌, length, get_elem?, ok, err,
  ◌>>=◌, ◌>>◌, guard, if◌then◌else◌, ◌||◌,
}
use refine_db.Treewalker.Bytecode.{TwGraph, filter_set, reduce}
use refine_db.Treewalker.Types.{
  VmType, set, list, bool, vm_type_eq, from_field_type, set_primary_key,
}
use refine_db.Treewalker.Typeck.{
  Checked, NodeTypes, TwVm, failed, panicked, fail, found, two_edges, validate_in_edges, edge_types,
  ensure_covariant, ensure_type_eq, extract_set_element_type, subgraph_index_oob,
  missing_output_from_reduce, range_reduce_on_non_set, not_list_or_set,
  expecting_bool_output_for_filter_subgraphs, param_count_mismatch,
}

-- For each subgraph and each of its parameters, the set of the types that it is called with.
abbrev pub Sink : Type 0
Sink = List (ℕ × List (List VmType))

abbrev pub Typed : Type 0
Typed = Checked (Option VmType × Sink)

unfoldable pub contains_type : VmType → List VmType → Bool
contains_type t [] = false
contains_type t (u ∷ us) = vm_type_eq u t || contains_type t us

abbrev pub insert_type : VmType → List VmType → List VmType
insert_type t us = if contains_type t us then us else t ∷ us

-- `param_types.zip(v.iter_mut())`, after the assertion that both are as long.
unfoldable pub insert_types : List VmType → List (List VmType) → Checked (List (List VmType))
insert_types [] [] = ok []
insert_types (t ∷ ts) (v ∷ vs) = do ws ← insert_types ts vs; ok (insert_type t v ∷ ws)
insert_types _ _ = err panicked

unfoldable pub no_types : List VmType → List (List VmType)
no_types [] = []
no_types (t ∷ ts) = [] ∷ no_types ts

-- The entry of a subgraph, made where it is missing.
unfoldable pub note_call : ℕ → List VmType → Sink → Checked Sink
note_call i ts [] = do v ← insert_types ts (no_types ts); ok ((i, v) ∷ [])
note_call i ts ((j, v) ∷ sink) = elim (j == i) [
  | true ↦ insert_types ts v >>= λ w. ok ((j, w) ∷ sink)
  | false ↦ note_call i ts sink >>= λ rest. ok ((j, v) ∷ rest)
]

unfoldable pub validate_subgraph_call :
    TwVm → String → ℕ → Sink → List VmType → Checked (TwGraph × Sink)
validate_subgraph_call vm opname subgraph_index sink param_types = do
  subgraph ← found subgraph_index_oob (get_elem? vm.graphs subgraph_index)
  guard (length subgraph.param_types == length param_types)
      (failed (param_count_mismatch opname (length param_types) (length subgraph.param_types)))
  sink' ← note_call subgraph_index param_types sink
  ok (subgraph, sink')

-- `subgraph.output_type.and_then(|x| vm.script.types.get(x))`
abbrev pub output_type_of : TwVm → TwGraph → Option VmType
output_type_of vm g = elim g.output_type [ none ↦ none | some x ↦ get_elem? vm.types x ]

abbrev pub is_bool : Option VmType → Bool
is_bool (some bool) = true
is_bool _ = false

unfoldable pub type_filter_set : TwVm → ℕ → List ℕ → NodeTypes → Sink → Typed
type_filter_set vm subgraph_index in_edges types sink = do
  (subgraph_param, set_ty) ← two_edges (filter_set subgraph_index) in_edges types
  set_member_ty ← extract_set_element_type set_ty
  (subgraph, sink') ←
      validate_subgraph_call vm "FilterSet" subgraph_index sink
        (set_member_ty ∷ subgraph_param ∷ [])
  let output = output_type_of vm subgraph
  guard (is_bool output) (failed (expecting_bool_output_for_filter_subgraphs output))
  ok (some set_member_ty, sink')

unfoldable pub type_call : TwVm → ℕ → List ℕ → NodeTypes → Sink → Typed
type_call vm subgraph_index in_edges types sink = do
  param_types ← edge_types types in_edges
  (subgraph, sink') ← validate_subgraph_call vm "Call" subgraph_index sink param_types
  ok (output_type_of vm subgraph, sink')

-- The subgraph's parameter, the initial value and the list or set; with a range, the bounds have
-- the type of the primary key.
unfoldable pub reduce_edges :
    TwVm → ℕ → Bool → List ℕ → NodeTypes → Checked (VmType × VmType × VmType)
reduce_edges vm i true in_edges types =
    validate_in_edges 5 (reduce i true) in_edges types >>= ranged
  where
    ranged : List VmType → Checked (VmType × VmType × VmType)
    ranged (param ∷ init ∷ source ∷ start_key ∷ end_key ∷ []) = do
      (_, primary_key_ty) ← found range_reduce_on_non_set (set_primary_key vm.schema source)
      ensure_type_eq (from_field_type primary_key_ty) start_key
      ensure_type_eq (from_field_type primary_key_ty) end_key
      ok (param, init, source)
    ranged _ = err panicked
reduce_edges vm i false in_edges types =
    validate_in_edges 3 (reduce i false) in_edges types >>= plain
  where
    plain : List VmType → Checked (VmType × VmType × VmType)
    plain (param ∷ init ∷ source ∷ []) = ok (param, init, source)
    plain _ = err panicked

abbrev pub member_of : VmType → Checked VmType
member_of (list t) = ok t
member_of (set t) = ok t
member_of t = fail (not_list_or_set t)

unfoldable pub type_reduce : TwVm → ℕ → Bool → List ℕ → NodeTypes → Sink → Typed
type_reduce vm subgraph_index has_range in_edges types sink = do
  (subgraph_param, reduce_init, list_or_set_ty) ←
      reduce_edges vm subgraph_index has_range in_edges types
  member_ty ← member_of list_or_set_ty
  (subgraph, sink') ←
      validate_subgraph_call vm "Reduce" subgraph_index sink
        (subgraph_param ∷ reduce_init ∷ member_ty ∷ [])
  output ← found missing_output_from_reduce (output_type_of vm subgraph)
  ensure_covariant reduce_init output
  ok (some output, sink')
