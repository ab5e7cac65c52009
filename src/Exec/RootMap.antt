-- ===== src/Exec/RootMap.antt =====
-- rdb-analyzer/src/data/treewalker/exec.rs: `generate_root_map`, the parameter that a script starts
-- from.
pub mod Planned
use refine_db.Prelude.{String, List, [], ◌∷◌, Dict, ok, ◌>>=◌}
use refine_db.Schema.{FieldType, CompiledSchema}
use refine_db.Schema
use refine_db.Storage.{StoragePlan, StorageKey}
use refine_db.PathWalker.{from_export}
use refine_db.Treewalker.Types.{from_field_type}
use refine_db.Treewalker.Values.{
  VmValue, VmValues, no_value, table, set, map, resident, resident_set,
}
use refine_db.Treewalker.Access.{value_insert}
use refine_db.Exec.Outcome.{Executed, throw, unwrap_walked, export_type_not_supported}

-- The value of one export.
unfoldable pub root_value : StoragePlan StorageKey → String → FieldType → Executed VmValue
unfolding from_export from_field_type
root_value plan name (Schema.table x) =
    unwrap_walked (from_export plan name) >>= λ w. ok (table x (resident w))
root_value plan name (Schema.set x) =
    unwrap_walked (from_export plan name) >>= λ w. ok (set (from_field_type x) (resident_set w))
root_value plan name (Schema.primitive _) = throw export_type_not_supported

unfoldable pub root_values : StoragePlan StorageKey → Dict FieldType → VmValues → Executed VmValues
unfolding root_value value_insert
root_values plan [] m = ok m
root_values plan ((name, ty) ∷ exports) m =
    root_value plan name ty >>= λ v. root_values plan exports (value_insert name v m)

unfoldable pub generate_root_map : CompiledSchema → StoragePlan StorageKey → Executed VmValue
unfolding root_values
generate_root_map schema plan = root_values plan schema.exports no_value >>= λ m. ok (map m)
