-- ===== src/Schema/Ends/Compile.antt =====
-- rdb-analyzer/src/schema/compile.rs: `compile` on items whose types have no parameters.
use refine_db.Prelude.{
  ℕ, suc, ◌+◌, ◌<◌, ◌≤◌, not, String, List, [], ◌∷◌, length, All, Dict, lookup, insert,
  lookup-insert_cases, contains_key, ok, err, inl, inr, ◌≡◌, ◌≢◌, refl, arith,
}
use refine_db.Schema.{CompiledSchema, FieldType}
use refine_db.Schema.Ast.{TypeItem, SchemaItem, type_item, export_item}
use refine_db.Schema.Resolve.{
  Resolved, Unresolved, Compiled, panicked, failed, SchemaCompileError, collect_items,
  compile_exports, compile, duplicate_type, starts_upper,
  type_name_must_start_with_upper_case_letter, duplicate_export,
}
use refine_db.Schema.Ends.{
  Ends, returns, fails, panics, ◌⟫◌, Ends-weaken, Ends-guard, missing, missing-Keeps,
}
use refine_db.Schema.Ends.Types.{ArePlain, resolve_type_expr-Ends}
use refine_db.Schema.Outcome.{Outcome, returns as has_value, fails as has_failed, starves}
use refine_db.Schema.Compiled.{compile-IsClosed}

-- No item is a type with parameters.
abbrev pub HasNoParameters : SchemaItem → Type 0
HasNoParameters (type_item x) = x.generics ≡ []
HasNoParameters (export_item x) = Unit

length-insert :
    (n : String) (ty : TypeItem) (types : Unresolved)
    → length (insert n ty types) ≤ suc (length types)
unfolding insert
length-insert n ty [] = omega arith
length-insert n ty ((j, t) ∷ types) = ground (arith, length-insert n ty types)

insert-ArePlain :
    (n : String) (ty : TypeItem) (types : Unresolved)
    → ty.generics ≡ []
    → ArePlain types
    → ArePlain (insert n ty types)
insert-ArePlain n ty types here plain id t found =
    elim (lookup-insert_cases n id ty t types found) [
      | inl (_, same) ↦ rw (← same) here
      | inr (_, old) ↦ plain id t old
    ]

-- The types are plain, and no more than the items.
abbrev AreFew : ℕ → Unresolved → Type 0
AreFew n types = ArePlain types × (length types ≤ n)

collect_items-Ends :
    (items : List SchemaItem) (types : Unresolved) (n : ℕ)
    → All HasNoParameters items
    → AreFew n types
    → Ends (AreFew (n + length items)) (collect_items items types)
unfolding collect_items
collect_items-Ends [] types n plain few = returns (few.0, omega (arith, few.1))
collect_items-Ends (export_item x ∷ items) types n plain few =
    Ends-weaken (λ ts h. (h.0, omega (arith, h.1))) (collect_items-Ends items types n plain.1 few)
collect_items-Ends (type_item x ∷ items) types n plain few =
    Ends-guard (not (contains_key x.name types)) (duplicate_type x.name) ⟫ λ _ _.
    Ends-guard (starts_upper x.name) (type_name_must_start_with_upper_case_letter x.name) ⟫ λ _ _.
    Ends-weaken (λ ts h. (h.0, omega (arith, h.1)))
      (collect_items-Ends items (insert x.name x types) (suc n) plain.1 (
        insert-ArePlain x.name x types plain.0 few.0,
        omega (arith, few.1, length-insert x.name x types),
      ))

compile_exports-Ends :
    (fuel : ℕ) (types : Unresolved) (items : List SchemaItem) (exports : Dict FieldType)
    (st : Resolved)
    → ArePlain types
    → missing types st < fuel
    → Ends (λ _. Unit {0}) (compile_exports fuel types items exports st)
unfolding compile_exports
compile_exports-Ends fuel types [] exports st plain less = returns tt
compile_exports-Ends fuel types (type_item x ∷ items) exports st plain less =
    compile_exports-Ends fuel types items exports st plain less
compile_exports-Ends fuel types (export_item x ∷ items) exports st plain less =
    Ends-guard (not (contains_key x.table_name exports)) (duplicate_export x.table_name) ⟫ λ _ _.
    resolve_type_expr-Ends fuel types plain [] x.ty st less ⟫ λ (ty, st') keeps.
    compile_exports-Ends fuel types items (insert x.table_name ty exports) st' plain
      (omega (arith, less, missing-Keeps types st st' keeps))

missing-length : (types : Unresolved) → missing types [] ≤ length types
unfolding missing contains_key
missing-length [] = omega arith
missing-length ((id, t) ∷ types) = omega (arith, missing-length types)

-- What the program itself returns: a schema or one of its errors.
pub data Answers : Compiled CompiledSchema → Type 0 where
  compiled : (schema : CompiledSchema) → Answers (ok schema)
  refused : (e : SchemaCompileError) → Answers (err (failed e))

-- It neither runs out of fuel nor panics.
Ends-Answers :
    {P Q : CompiledSchema → Type 0} {r : Compiled CompiledSchema}
    → Ends P r
    → Outcome Q r
    → Answers r
Ends-Answers (returns {a} h) o = compiled a
Ends-Answers (fails {e}) o = refused e
Ends-Answers panics o = absurd (no_panic o refl)
  where
    no_panic :
        {P : CompiledSchema → Type 0} {r : Compiled CompiledSchema} → Outcome P r → r ≢ err panicked
    no_panic (has_value h) = λ e. cc
    no_panic has_failed = λ e. cc
    no_panic starves = λ e. cc

-- `compile` ends, with a schema or an error, on items none of which is a type with parameters: its
-- recursion through the fields of types is no deeper than there are items, however they refer to each
-- other.
pub compile_ends :
    (fuel : ℕ) (items : List SchemaItem)
    → All HasNoParameters items
    → length items < fuel
    → Answers (compile fuel items)
unfolding compile lookup
compile_ends fuel items plain enough =
    Ends-Answers {P = λ _. Unit {0}}
      (collect_items-Ends items [] 0 plain ((λ id ty found. cc), omega arith) ⟫ λ types few.
        compile_exports-Ends fuel types items [] [] few.0
          (omega (arith, enough, few.1, missing-length types))
        ⟫ λ (exports, st) _. returns tt)
      (compile-IsClosed fuel items)
