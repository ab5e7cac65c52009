-- ===== src/Schema/Ends.antt =====
-- rdb-analyzer/src/schema/compile.rs: `compile` ends where no type has a parameter. A type that is
-- resolved is entered before its fields are, so that each goes down once.
pub mod Types
pub mod Compile
use refine_db.Prelude.{
  ℕ, zero, suc, ◌+◌, ◌<◌, ◌≤◌, ◌==◌, leb, Bool, true, false, not, ◌||◌, Option, none, some, String,
  str_eq, str_eq_iff, List, [], ◌∷◌, length, All, Dict, lookup, insert, contains_key, All-insert,
  All-lookup, ok, err, ◌>>=◌, ◌>>◌, ok_or, guard, if◌then◌else◌, Option-cases, Bool-cases, inl, inr,
  ◌≡◌, ◌≢◌, refl, sym, ◌∙◌, ap, arith,
}
use refine_db.Schema.{FieldType, table, primitive, set, FieldAnnotation, any, SpecializedType}
use refine_db.Schema.Ast.{
  Annotation, TypeExpr, TypeExprs, unit, specialize, no_expr, expr, TypeField, TypeItem, SchemaItem,
  type_item, export_item,
}
use refine_db.Schema.Resolve.{
  Resolver, Resolved, Unresolved, Context, Fields, Compiled, failed, panicked, out_of_fuel,
  SchemaCompileError, bind_args, annotation_of, annotations_of, resolve_fields, repr_of,
  resolve_item, primitive_types, resolve_name, resolve_expr, resolve_exprs, resolve_set,
  resolve_type_expr, duplicate_field, index_on_non_primitive_field, needs_primitive, is_primitive,
  collect_items, compile_exports, compile, no_args, primary_key_count, set_fields, duplicate_type,
  starts_upper, type_name_must_start_with_upper_case_letter, duplicate_export,
  bad_set_type_parameter, missing_type, arg_count_mismatch, cannot_specialize_type_parameter,
  cannot_specialize_primitive_type, multiple_primary_keys, unknown_annotation_on_field,
}

-- A run that returns with a property, fails or panics: it has fuel enough.
pub data Ends {A : Type 0} (P : A → Type 0) : Compiled A → Type 0 where
  returns : {a : A} → P a → Ends P (ok a)
  fails : {e : SchemaCompileError} → Ends P (err (failed e))
  panics : Ends P (err panicked)

module _ {A : Type 0} {P : A → Type 0} where
  infixl 1 ◌⟫◌
  ◌⟫◌ :
      {B : Type 0} {Q : B → Type 0} {r : Compiled A} {f : A → Compiled B}
      → Ends P r
      → ((a : A) → P a → Ends Q (f a))
      → Ends Q (r >>= f)
  returns {a} h ⟫ k = k a h
  fails ⟫ k = fails
  panics ⟫ k = panics

  Ends-if :
      (b : Bool) {r s : Compiled A}
      → (b ≡ true → Ends P r)
      → (b ≡ false → Ends P s)
      → Ends P (if b then r else s)
  Ends-if true h k = h refl
  Ends-if false h k = k refl

  Ends-weaken : {Q : A → Type 0} {r : Compiled A} → ((a : A) → P a → Q a) → Ends P r → Ends Q r
  Ends-weaken f (returns {a} h) = returns (f a h)
  Ends-weaken f fails = fails
  Ends-weaken f panics = panics

Ends-guard :
    (b : Bool) (e : SchemaCompileError) → Ends (λ (_ : Unit {0}). b ≡ true) (guard b (failed e))
Ends-guard true e = returns refl
Ends-guard false e = fails

-- The names of the table stay.
abbrev pub Keeps : Resolved → Resolved → Type 0
Keeps st st' = (n : String) → contains_key n st ≡ true → contains_key n st' ≡ true

contains_key-insert :
    (n k : String) (ty : SpecializedType) (st : Resolved)
    → contains_key k (insert n ty st) ≡ (if str_eq n k then true else contains_key k st)
unfolding contains_key insert
contains_key-insert n k ty [] = refl
contains_key-insert n k ty ((j, t) ∷ st) =
    ground (arith, str_eq_iff n k, str_eq_iff j n, str_eq_iff j k, contains_key-insert n k ty st)

insert-Keeps : (n : String) (ty : SpecializedType) (st : Resolved) → Keeps st (insert n ty st)
insert-Keeps n ty st k h = ground (arith, h, contains_key-insert n k ty st)

contains_key-inserted :
    (n : String) (ty : SpecializedType) (st : Resolved) → contains_key n (insert n ty st) ≡ true
contains_key-inserted n ty st = contains_key-insert n n ty st ∙ rw ((str_eq_iff n n).1 refl) refl

-- The types without parameters that the table does not have yet.
pub missing : Unresolved → Resolved → ℕ
missing [] st = 0
missing ((id, _) ∷ types) st =
    let rest = missing types st in if contains_key (repr_of id []) st then rest else suc rest

missing-Keeps :
    (types : Unresolved) (st st' : Resolved) → Keeps st st' → missing types st' ≤ missing types st
unfolding missing
missing-Keeps [] st st' keeps = omega arith
missing-Keeps ((id, _) ∷ types) st st' keeps =
    ground (arith, keeps (repr_of id []), missing-Keeps types st st' keeps)

missing-less :
    (types : Unresolved) (st st' : Resolved) (id : String) (ty : TypeItem)
    → Keeps st st'
    → lookup id types ≡ some ty
    → contains_key (repr_of id []) st ≡ false
    → contains_key (repr_of id []) st' ≡ true
    → missing types st' < missing types st
unfolding missing lookup
missing-less [] st st' id ty keeps found before after = cc
missing-less ((j, t) ∷ types) st st' id ty keeps found before after =
    elim (Bool-cases (str_eq j id)) [
      | inl same ↦
          let e : j ≡ id = (str_eq_iff j id).0 same in
          let b : contains_key (repr_of j []) st ≡ false = rw e before in
          let a : contains_key (repr_of j []) st' ≡ true = rw e after in
          ground (arith, a, b, missing-Keeps types st st' keeps)
      | inr other ↦ ground (
        arith,
        keeps (repr_of j []),
        missing-less types st st' id ty keeps (rw other at found) before after,
      )
    ]
