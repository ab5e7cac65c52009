-- ===== src/Storage/Planner/Generate.antt =====
-- rdb-analyzer/src/storage_plan/planner.rs: `generate_field` and
-- `generate_plan_for_schema`. Each recursion through the fields of a table type takes one step of
-- fuel; the loops over fields take the recursive call as an argument.
use refine_db.Prelude.{
  ℕ, zero, suc, Bool, true, false, not, ◌&&◌, ◌||◌, Option, none, some, String, List, [], ◌∷◌, Dict,
  lookup, insert, remove, ok, err, ◌>>=◌, ◌>>◌, ok_or, guard,
}
use refine_db.Schema.{FieldType, table, primitive, set, FieldAnnotation, is_primary, CompiledSchema}
use refine_db.Storage.{
  StorageKey, StorageNode, storage_node, SetNode, no_set, set_of, Children, no_child, child,
  StoragePlan, insert_child,
}
use refine_db.Storage.Planner.{
  missing_type, set_member_type_without_primary_key, Planned, failed, out_of_fuel, PlanState,
  OldTreePoint, Sample, contains_name, reduce_set, validate_type, resolve_subfield, key_of_point,
  altnames_of,
}
use refine_db.Storage.Planner.{Fields}
use refine_db.Storage.Planner.Special.{SpecialTypes, no_special_types, collect_exports}

abbrev pub Generator : Type 0
Generator =
    FieldType
    → List FieldAnnotation
    → Option OldTreePoint
    → PlanState
    → Planned (StorageNode StorageKey × PlanState)

-- The stack holds recursive types only.
abbrev pub push : Bool → String → StorageKey → PlanState → PlanState
push true name k st = record st { fields_in_stack = insert name k st.fields_in_stack }
push false name k st = st

abbrev pub pop : Bool → String → PlanState → PlanState
pop true name st = record st { fields_in_stack = remove name st.fields_in_stack }
pop false name st = st

-- `Option::and_then`
abbrev pub and_then : {A B : Type 0} → Option A → (A → Option B) → Option B
and_then none f = none
and_then (some a) f = f a

-- The point of a subfield in the old tree.
unfoldable pub subfield_point :
    CompiledSchema
    → String
    → FieldType
    → List FieldAnnotation
    → Option OldTreePoint
    → Option OldTreePoint
subfield_point old_schema name ty anns old_point =
    and_then (and_then old_point (resolve_subfield old_schema (altnames_of name anns)))
      (validate_type ty)

-- The loop over the fields of a table type: its children, and whether one is the primary key.
unfoldable pub generate_subfields :
    Generator
    → CompiledSchema
    → Option OldTreePoint
    → Fields
    → Children StorageKey
    → Bool
    → PlanState
    → Planned ((Children StorageKey × Bool) × PlanState)
generate_subfields go old_schema old_point [] children has_primary_key st =
    ok ((children, has_primary_key), st)
generate_subfields go old_schema old_point ((name, (ty, anns)) ∷ fields) children has_primary_key
      st =
    do
      (x, st') ← go ty anns (subfield_point old_schema name ty anns old_point) st
      generate_subfields go old_schema old_point fields (insert_child name x children)
          (has_primary_key || is_primary anns) st'

-- A table type that is not on the stack.
unfoldable pub generate_table :
    Generator
    → CompiledSchema
    → CompiledSchema
    → String
    → Option OldTreePoint
    → PlanState
    → Planned (StorageNode StorageKey × PlanState)
generate_table go old_schema schema table_name old_point st = do
  ty ← ok_or (failed (missing_type table_name)) (lookup table_name schema.types)
  (storage_key, st1) ← key_of_point old_point st
  let is_recursive_type = contains_name table_name st1.recursive_types
  ((children, has_primary_key), st2) ←
      generate_subfields go old_schema old_point ty.fields no_child false
        (push is_recursive_type table_name storage_key st1)
  let st3 = pop is_recursive_type table_name st2
  guard (not (contains_name table_name st3.set_member_types && not has_primary_key))
      (failed (set_member_type_without_primary_key ty.name))
  ok (storage_node storage_key true none no_set children, st3)

-- A field whose value has no fields of its own: a leaf, or a reference to a type on the stack.
unfoldable pub generate_leaf :
    Option StorageKey
    → Option OldTreePoint
    → PlanState
    → Planned (StorageNode StorageKey × PlanState)
generate_leaf subspace_reference old_point st = do
  (k, st') ← key_of_point old_point st
  ok (storage_node k false subspace_reference no_set no_child, st')

unfoldable pub generate_field : ℕ → CompiledSchema → CompiledSchema → Generator
generate_field zero old_schema schema field annotations old_point st = err out_of_fuel
generate_field (suc fuel) old_schema schema (table table_name) annotations old_point st =
    elim (lookup table_name st.fields_in_stack) [
      | some k ↦ generate_leaf (some k) old_point st
      | none ↦
          generate_table (generate_field fuel old_schema schema) old_schema schema table_name
            old_point st
    ]
generate_field (suc fuel) old_schema schema (primitive p) annotations old_point st =
    generate_leaf none old_point st
generate_field (suc fuel) old_schema schema (set x) annotations old_point st = do
  (inner, st') ←
      generate_field fuel old_schema schema x []
        (and_then (and_then old_point reduce_set) (validate_type x)) st
  (k, st'') ← key_of_point old_point st'
  ok (storage_node k false none (set_of inner) no_child, st'')

unfoldable mutual
  pub collect_storage_keys : StorageNode StorageKey → List StorageKey → List StorageKey
  collect_storage_keys (storage_node k f r s c) sink =
      collect_children_keys c (collect_set_keys s (k ∷ sink))

  pub collect_set_keys : SetNode StorageKey → List StorageKey → List StorageKey
  collect_set_keys no_set sink = sink
  collect_set_keys (set_of x) sink = collect_storage_keys x sink

  pub collect_children_keys : Children StorageKey → List StorageKey → List StorageKey
  collect_children_keys no_child sink = sink
  collect_children_keys (child _ x cs) sink = collect_children_keys cs (collect_storage_keys x sink)

unfoldable pub collect_plan_keys : Dict (StorageNode StorageKey) → List StorageKey → List StorageKey
collect_plan_keys [] sink = sink
collect_plan_keys ((_, x) ∷ nodes) sink = collect_plan_keys nodes (collect_storage_keys x sink)

-- The point of an export in the old tree.
unfoldable pub export_point :
    StoragePlan StorageKey → CompiledSchema → String → FieldType → Option OldTreePoint
export_point old_plan old_schema name export_field =
    and_then (lookup name old_schema.exports) (λ ty.
      and_then (lookup name old_plan.nodes)
        (λ x. validate_type export_field (record { name = name; ty = ty; node = x })))

unfoldable pub generate_exports :
    ℕ
    → StoragePlan StorageKey
    → CompiledSchema
    → CompiledSchema
    → Dict FieldType
    → Dict (StorageNode StorageKey)
    → PlanState
    → Planned (Dict (StorageNode StorageKey) × PlanState)
generate_exports fuel old_plan old_schema schema [] nodes st = ok (nodes, st)
generate_exports fuel old_plan old_schema schema ((name, field) ∷ exports) nodes st = do
  (x, st') ←
      generate_field fuel old_schema schema field [] (export_point old_plan old_schema name field)
        st
  generate_exports fuel old_plan old_schema schema exports (insert name x nodes) st'

-- The state that planning starts with: the keys of the old plan are in use.
abbrev pub initial_state : List Sample → StoragePlan StorageKey → SpecialTypes → PlanState
initial_state samples old_plan special = record {
  used_storage_keys = collect_plan_keys old_plan.nodes [];
  recursive_types = special.recursive_types;
  set_member_types = special.set_member_types;
  fields_in_stack = [];
  samples = samples;
}

unfoldable pub generate_plan_for_schema :
    ℕ
    → List Sample
    → StoragePlan StorageKey
    → CompiledSchema
    → CompiledSchema
    → Planned (StoragePlan StorageKey)
generate_plan_for_schema fuel samples old_plan old_schema schema = do
  special ← collect_exports fuel schema schema.exports no_special_types
  let st = initial_state samples old_plan special
  (nodes, _) ← generate_exports fuel old_plan old_schema schema schema.exports [] st
  ok (record { nodes = nodes })
