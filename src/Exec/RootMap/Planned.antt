-- ===== src/Exec/RootMap/Planned.antt =====
-- rdb-analyzer/src/data/treewalker/exec.rs: `generate_root_map` on the plan of a schema.
use refine_db.Prelude.{
  ℕ, String, false, some, List, [], ◌∷◌, Dict, lookup, insert, lookup-insert, All, ok, ◌>>=◌,
  Bool-cases, inl, inr, str_eq, str_eq_iff, ◌≡◌, refl, ◌∙◌, ap, arith, Ensures, returns, ◌⟫◌,
  Ensures-any, Ensures-elim, weaken,
}
use refine_db.Schema.{FieldType, CompiledSchema}
use refine_db.Schema
use refine_db.Storage.{StoragePlan, StorageKey, StorageNode}
use refine_db.Storage.Planner.{Sample, PlanState}
use refine_db.Storage.Planner.Special.{collect_exports, no_special_types}
use refine_db.Storage.Planner.Generate.{
  export_point, generate_field, generate_exports, generate_plan_for_schema, initial_state,
}
use refine_db.Storage
use refine_db.PathWalker.{Walker, root, from_export}
use refine_db.Exec.Outcome.{unwrap_walked}
use refine_db.Treewalker.Types.{
  VmType, MapFields, no_field, map_insert, from_field_type, from_exports, from_schema,
}
use refine_db.Treewalker.Types
use refine_db.Treewalker.Values.{
  VmValue, VmValues, no_value, value, map, table, set, resident, resident_set, type_of, types_of,
}
use refine_db.Treewalker.Access.{value_insert}
use refine_db.Exec.RootMap.{root_value, root_values, generate_root_map}

abbrev pub IsStored : FieldType → Type 0
IsStored (Schema.primitive _) = ⊥
IsStored _ = Unit

abbrev pub HasNode : Dict (StorageNode StorageKey) → String → Type 0
HasNode nodes name = (x : StorageNode StorageKey) × (lookup name nodes ≡ some x)

abbrev pub HasNodes : Dict (StorageNode StorageKey) → Dict FieldType → Type 0
HasNodes nodes exports = All (λ (e : String × FieldType). HasNode nodes e.0) exports

types_of-insert :
    (k : String) (v : VmValue) (m : VmValues)
    → types_of (value_insert k v m) ≡ map_insert k (type_of v) (types_of m)
unfolding value_insert map_insert types_of
types_of-insert k v no_value = refl
types_of-insert k v (value j u m) = ground (arith, types_of-insert k v m)

from_export-HasNode :
    (plan : StoragePlan StorageKey) (name : String)
    → HasNode plan.nodes name
    → (w : Walker) × (from_export plan name ≡ ok w)
unfolding from_export
from_export-HasNode plan name (x, found) = (
  root (record {
    node = x;
    key = Storage.key x;
    depth = 1;
    should_flatten = Storage.flattened x;
    is_intermediate = false;
    path_segment = some name;
  }),
  rw (found, from_export) refl,
)

root_value-type :
    (plan : StoragePlan StorageKey) (name : String) (ty : FieldType)
    → IsStored ty
    → HasNode plan.nodes name
    → (v : VmValue) × (root_value plan name ty ≡ ok v) × (type_of v ≡ from_field_type ty)
unfolding root_value type_of from_field_type
root_value-type plan name (Schema.primitive _) stored has = absurd stored
root_value-type plan name (Schema.table x) stored has =
    let (w, e) = from_export-HasNode plan name has in
    (table x (resident w), ap (λ r. unwrap_walked r >>= λ w. ok (table x (resident w))) e, refl)
root_value-type plan name (Schema.set x) stored has =
    let (w, e) = from_export-HasNode plan name has in
    (
      set (from_field_type x) (resident_set w),
      ap (λ r. unwrap_walked r >>= λ w. ok (set (from_field_type x) (resident_set w))) e,
      refl,
    )

root_values-types :
    (plan : StoragePlan StorageKey) (exports : Dict FieldType) (m : VmValues)
    → All (λ (e : String × FieldType). IsStored e.1) exports
    → HasNodes plan.nodes exports
    → (n : VmValues) × (root_values plan exports m ≡ ok n)
      × (types_of n ≡ from_exports exports (types_of m))
unfolding root_values from_exports
root_values-types plan [] m stored has = (m, refl, refl)
root_values-types plan ((name, ty) ∷ exports) m stored has =
    let (v, e, p) = root_value-type plan name ty stored.0 has.0 in
    let (n, f, q) = root_values-types plan exports (value_insert name v m) stored.1 has.1 in
    (
      n,
      ap (λ r. r >>= λ v. root_values plan exports (value_insert name v m)) e ∙ f,
      q
          ∙ ap (from_exports exports)
              (types_of-insert name v m ∙ ap (λ t. map_insert name t (types_of m)) p),
    )

-- Planning the exports keeps the nodes that are there and gives each export one.
HasNode-insert :
    (name k : String) (x : StorageNode StorageKey) (nodes : Dict (StorageNode StorageKey))
    → HasNode nodes name
    → HasNode (insert k x nodes) name
HasNode-insert name k x nodes (y, found) = elim (Bool-cases (str_eq k name)) [
  | inl same ↦ (x, rw (lookup-insert k name x nodes, same))
  | inr other ↦ (y, rw (lookup-insert k name x nodes, other) found)
]

HasNode-inserted :
    (name : String) (x : StorageNode StorageKey) (nodes : Dict (StorageNode StorageKey))
    → HasNode (insert name x nodes) name
HasNode-inserted name x nodes =
    (x, lookup-insert name name x nodes ∙ rw ((str_eq_iff name name).1 refl) refl)

abbrev Keeps : Dict (StorageNode StorageKey) → Dict (StorageNode StorageKey) → Type 0
Keeps nodes nodes' = (name : String) → HasNode nodes name → HasNode nodes' name

generate_exports-HasNodes :
    (fuel : ℕ) (old_plan : StoragePlan StorageKey) (old_schema schema : CompiledSchema)
    (exports : Dict FieldType) (nodes : Dict (StorageNode StorageKey)) (st : PlanState)
    → Ensures
        (λ r. Keeps nodes r.0 × HasNodes r.0 exports)
        (generate_exports fuel old_plan old_schema schema exports nodes st)
unfolding generate_exports
generate_exports-HasNodes fuel old_plan old_schema schema [] nodes st =
    returns {a = (nodes, st)} (λ name h. h, tt)
generate_exports-HasNodes fuel old_plan old_schema schema ((name, field) ∷ exports) nodes st =
    Ensures-any (
      generate_field fuel old_schema schema field [] (export_point old_plan old_schema name field)
        st)
    ⟫ λ (x, st') _.
        weaken
          (λ r (keeps, rest). (
            λ k h. keeps k (HasNode-insert k name x nodes h),
            (keeps name (HasNode-inserted name x nodes), rest),
          ))
          (generate_exports-HasNodes fuel old_plan old_schema schema exports (insert name x nodes)
            st')

generate_plan-HasNodes :
    (fuel : ℕ) (samples : List Sample) (old_plan : StoragePlan StorageKey)
    (old_schema schema : CompiledSchema)
    → Ensures
        (λ plan. HasNodes plan.nodes schema.exports)
        (generate_plan_for_schema fuel samples old_plan old_schema schema)
unfolding generate_plan_for_schema
generate_plan-HasNodes fuel samples old_plan old_schema schema =
    Ensures-any (collect_exports fuel schema schema.exports no_special_types) ⟫ λ special _.
    generate_exports-HasNodes fuel old_plan old_schema schema schema.exports []
      (initial_state samples old_plan special)
    ⟫ λ (nodes, st) (_, has). returns has

-- On a plan that was generated for a schema none of whose exports is primitive, the root map is made
-- without an error or a panic, and its type as a value is the type that the type checker gives to the
-- schema.
pub generate_root_map-from_schema :
    (fuel : ℕ) (samples : List Sample) (old_plan plan : StoragePlan StorageKey)
    (old_schema schema : CompiledSchema)
    → All (λ (e : String × FieldType). IsStored e.1) schema.exports
    → generate_plan_for_schema fuel samples old_plan old_schema schema ≡ ok plan
    → (root : VmValue) × (generate_root_map schema plan ≡ ok root)
      × (type_of root ≡ from_schema schema)
unfolding generate_root_map from_schema type_of types_of
generate_root_map-from_schema fuel samples old_plan plan old_schema schema stored planned =
    let has =
      Ensures-elim (generate_plan-HasNodes fuel samples old_plan old_schema schema) planned in
    let (m, made, same) = root_values-types plan schema.exports no_value stored has in
    (map m, ap (λ r. r >>= λ m. ok (map m)) made, ap Types.map same)
