-- ===== src/Schema/Compiled.antt =====
-- rdb-analyzer/src/schema/compile.rs: what a compiled schema guarantees to the rest of the program.
use refine_db.Prelude.{ℕ, not, List, [], ◌∷◌, All, Dict, lookup, insert, contains_key, All-insert}
use refine_db.Schema.{FieldType, CompiledSchema}
use refine_db.Schema.Ast.{SchemaItem, type_item, export_item}
use refine_db.Schema.Resolve.{
  Resolved, Unresolved, collect_items, compile_exports, compile, duplicate_type,
  type_name_must_start_with_upper_case_letter, duplicate_export, starts_upper,
}
use refine_db.Schema.Outcome.{Outcome, returns, ◌⟫◌, guard-Outcome}
use refine_db.Schema.WellFormed.{Refers, IsWellFormed, Grows, Refers-Grows}
use refine_db.Schema.Soundness.{resolve_type_expr-IsSound, no_context}

-- The exports and the types of a schema name types that the schema has, and its types are fine.
pub record IsClosed (schema : CompiledSchema) : Type 0 where
  pub has_fine_types : IsWellFormed schema.types
  pub has_fine_exports : All (λ p. Refers schema.types p.1) schema.exports

AreExports : Resolved → Dict FieldType → Type 0
AreExports st = All (λ p. Refers st p.1)

AreExports-Grows :
    (st st' : Resolved)
    → Grows st st'
    → (xs : Dict FieldType) → AreExports st xs
    → AreExports st' xs
unfolding AreExports
AreExports-Grows st st' g [] h = tt
AreExports-Grows st st' g ((n, x) ∷ xs) (h, hs) =
    (Refers-Grows st st' g x h, AreExports-Grows st st' g xs hs)

collect_items-Outcome :
    (items : List SchemaItem) (types : Unresolved)
    → Outcome (λ _. Unit {0}) (collect_items items types)
unfolding collect_items
collect_items-Outcome [] types = returns tt
collect_items-Outcome (export_item x ∷ items) types = collect_items-Outcome items types
collect_items-Outcome (type_item x ∷ items) types =
    guard-Outcome (not (contains_key x.name types)) (duplicate_type x.name) ⟫ λ _ _.
    guard-Outcome (starts_upper x.name) (type_name_must_start_with_upper_case_letter x.name)
    ⟫ λ _ _. collect_items-Outcome items (insert x.name x types)

compile_exports-Outcome :
    (fuel : ℕ) (types : Unresolved) (items : List SchemaItem) (exports : Dict FieldType)
    (st : Resolved)
    → AreExports st exports
    → IsWellFormed st
    → Outcome
        (λ (xs, st'). AreExports st' xs × IsWellFormed st')
        (compile_exports fuel types items exports st)
unfolding compile_exports AreExports
compile_exports-Outcome fuel types [] exports st he hw = returns {a = (exports, st)} (he, hw)
compile_exports-Outcome fuel types (type_item x ∷ items) exports st he hw =
    compile_exports-Outcome fuel types items exports st he hw
compile_exports-Outcome fuel types (export_item x ∷ items) exports st he hw =
    guard-Outcome (not (contains_key x.table_name exports)) (duplicate_export x.table_name) ⟫ λ _ _.
    resolve_type_expr-IsSound fuel types [] x.ty st (no_context st) hw ⟫ λ (ty, st') (r, hw', g).
    compile_exports-Outcome fuel types items (insert x.table_name ty exports) st'
      (All-insert (λ p. Refers st' p.1) x.table_name ty exports r
        (AreExports-Grows st st' g exports he))
      hw'

empty_table : IsWellFormed []
unfolding lookup
empty_table n ty e = cc

-- Whatever the items and the fuel, `compile` does not panic, and a schema that it returns is closed:
-- the types of exports and of fields are in its table under their own names, a set has a table
-- type for its member, an indexed field is primitive, and a type has at most one primary key.
pub compile-IsClosed : (fuel : ℕ) (items : List SchemaItem) → Outcome IsClosed (compile fuel items)
unfolding compile AreExports
compile-IsClosed fuel items = collect_items-Outcome items [] ⟫ λ types _.
    compile_exports-Outcome fuel types items [] [] tt empty_table ⟫ λ (exports, st) (he, hw).
    returns {a = record { types = st; exports = exports }}
      (record { has_fine_types = hw; has_fine_exports = he })
