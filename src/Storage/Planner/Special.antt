-- ===== src/Storage/Planner/Special.antt =====
-- rdb-analyzer/src/storage_plan/planner.rs: `collect_special_types`, the recursive types and the types of
-- set members that a schema reaches from its exports.
use refine_db.Prelude.{
  ℕ, zero, suc, String, if◌then◌else◌, List, [], ◌∷◌, Dict, lookup, ok, err, ◌>>=◌, ok_or,
}
use refine_db.Schema.{FieldType, table, primitive, set, CompiledSchema}
use refine_db.Storage.Planner.{
  missing_type, Planned, failed, out_of_fuel, contains_name, insert_name, remove_name,
}
use refine_db.Storage.Planner.{Fields}

-- The sets that `collect_special_types` fills.
pub record SpecialTypes : Type 0 where
  pub recursive_types : List String
  pub set_member_types : List String

abbrev pub Collector : Type 0
Collector = FieldType → List String → SpecialTypes → Planned (List String × SpecialTypes)

unfoldable pub collect_fields :
    Collector → Fields → List String → SpecialTypes → Planned (List String × SpecialTypes)
collect_fields go [] state sinks = ok (state, sinks)
collect_fields go ((_, (field, _)) ∷ fields) state sinks = do
  (state', sinks') ← go field state sinks
  collect_fields go fields state' sinks'

abbrev pub note_member : FieldType → SpecialTypes → SpecialTypes
note_member (table x) sinks = record sinks {
  set_member_types = insert_name x sinks.set_member_types;
}
note_member _ sinks = sinks

unfoldable pub collect_special_types : ℕ → CompiledSchema → Collector
unfolding collect_fields
collect_special_types zero schema ty state sinks = err out_of_fuel
collect_special_types (suc fuel) schema (set x) state sinks =
    collect_special_types fuel schema x state (note_member x sinks)
collect_special_types (suc fuel) schema (primitive p) state sinks = ok (state, sinks)
collect_special_types (suc fuel) schema (table table_name) state sinks =
    if contains_name table_name state
    then ok (state, record sinks { recursive_types = insert_name table_name sinks.recursive_types })
    else do
      specialized_ty ← ok_or (failed (missing_type table_name)) (lookup table_name schema.types)
      (state', sinks') ←
          collect_fields (collect_special_types fuel schema) specialized_ty.fields
            (table_name ∷ state) sinks
      ok (remove_name table_name state', sinks')

-- Each export starts with no type visited.
unfoldable pub collect_exports :
    ℕ → CompiledSchema → Dict FieldType → SpecialTypes → Planned SpecialTypes
collect_exports fuel schema [] sinks = ok sinks
collect_exports fuel schema ((_, export_field) ∷ exports) sinks = do
  (_, sinks') ← collect_special_types fuel schema export_field [] sinks
  collect_exports fuel schema exports sinks'

abbrev pub no_special_types : SpecialTypes
no_special_types = record { recursive_types = []; set_member_types = [] }
