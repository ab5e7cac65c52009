-- ===== src/Schema/Ends/Types.antt =====
-- rdb-analyzer/src/schema/compile.rs: TypeResolutionContext ends where no type has parameters: each type
-- is resolved once, so the fuel need not exceed the number of types that are missing from the table.
use refine_db.Prelude.{
  ℕ, zero, suc, ◌<◌, ◌==◌, leb, true, not, ◌||◌, Option, none, some, String, str_eq, List, [], ◌∷◌,
  length, lookup, insert, contains_key, ok_or, Option-cases, inl, inr, ◌≡◌, refl, sym, arith,
}
use refine_db.Schema.{FieldType, table, primitive, set, any, SpecializedType}
use refine_db.Schema.Ast.{
  Annotation, TypeExpr, TypeExprs, unit, specialize, no_expr, expr, TypeField, TypeItem,
}
use refine_db.Schema.Resolve.{
  Resolver, Resolved, Unresolved, Context, Fields, failed, SchemaCompileError, bind_args,
  annotation_of, annotations_of, resolve_fields, repr_of, resolve_item, primitive_types,
  resolve_name, resolve_expr, resolve_exprs, resolve_set, resolve_type_expr, duplicate_field,
  index_on_non_primitive_field, needs_primitive, is_primitive, no_args, primary_key_count,
  set_fields, arg_count_mismatch, cannot_specialize_type_parameter,
  cannot_specialize_primitive_type, multiple_primary_keys, unknown_annotation_on_field,
}
use refine_db.Schema.Ends.{
  Ends, returns, fails, panics, ◌⟫◌, Ends-if, Ends-weaken, Ends-guard, Keeps, insert-Keeps,
  contains_key-inserted, missing, missing-Keeps, missing-less,
}

Ends-ok_or :
    {A : Type 0} (o : Option A) (e : SchemaCompileError)
    → Ends (λ a. o ≡ some a) (ok_or (failed e) o)
Ends-ok_or none e = fails
Ends-ok_or (some a) e = returns refl

annotations_of-Ends :
    (field repr : String) (anns : List Annotation)
    → Ends (λ _. Unit {0}) (annotations_of field repr anns)
unfolding annotations_of
annotations_of-Ends field repr [] = returns tt
annotations_of-Ends field repr (a ∷ anns) =
    Ends-ok_or (annotation_of a) (unknown_annotation_on_field field repr a.name) ⟫ λ x _.
    annotations_of-Ends field repr anns ⟫ λ xs _. returns tt

set_fields-Ends :
    (repr : String) (fields : Fields) (st : Resolved) → Ends (Keeps st) (set_fields repr fields st)
unfolding set_fields
set_fields-Ends repr fields st = elim (Option-cases (lookup repr st)) [
  | inl e ↦ rw (e, set_fields) panics
  | inr (ty, e) ↦
      rw (e, set_fields) (returns (insert-Keeps repr (record ty { fields = fields }) st))
]

resolve_set-Ends : (args : List FieldType) → Ends (λ _. Unit {0}) (resolve_set args)
unfolding resolve_set
resolve_set-Ends [] = fails
resolve_set-Ends (table x ∷ []) = returns tt
resolve_set-Ends (primitive x ∷ []) = fails
resolve_set-Ends (set x ∷ []) = fails
resolve_set-Ends (table x ∷ (y ∷ args)) = fails
resolve_set-Ends (primitive x ∷ (y ∷ args)) = fails
resolve_set-Ends (set x ∷ (y ∷ args)) = fails

-- A run that returns keeps the names of the table.
abbrev pub KeepsNames : {A : Type 0} → Resolved → A × Resolved → Type 0
KeepsNames st r = Keeps st r.1

-- No type has a parameter.
abbrev pub ArePlain : Unresolved → Type 0
ArePlain types = (id : String) (ty : TypeItem) → lookup id types ≡ some ty → ty.generics ≡ []

-- The resolver ends where fewer than `k` types are missing.
abbrev pub EndsBelow : Unresolved → ℕ → Resolver → Type 0
EndsBelow types k go =
    (ctx : Context) (e : TypeExpr) (st : Resolved)
    → missing types st < k
    → Ends (KeepsNames st) (go ctx e st)

module _ (types : Unresolved) (k : ℕ) (go : Resolver) (below : EndsBelow types k go) where
  resolve_fields-Ends :
      (ctx : Context) (repr ty : String) (xs : List TypeField) (fields : Fields) (st : Resolved)
      → missing types st < k
      → Ends (KeepsNames st) (resolve_fields go ctx repr ty xs fields st)
  unfolding resolve_fields
  resolve_fields-Ends ctx repr ty [] fields st less = returns {a = (fields, st)} (λ n h. h)
  resolve_fields-Ends ctx repr ty (x ∷ xs) fields st less =
      Ends-guard (not (contains_key x.name fields)) (duplicate_field x.name ty) ⟫ λ _ _.
      below ctx x.value st less ⟫ λ (field_ty, st') keeps.
      annotations_of-Ends x.name repr x.annotations ⟫ λ annotations _.
      Ends-guard (not (any needs_primitive annotations) || is_primitive field_ty)
        (index_on_non_primitive_field x.name ty)
      ⟫ λ _ _.
          Ends-weaken (λ r keeps' n h. keeps' n (keeps n h))
            (resolve_fields-Ends ctx repr ty xs (insert x.name (field_ty, annotations) fields) st'
              (omega (arith, less, missing-Keeps types st st' keeps)))

  no_arguments : (args : List FieldType) → 0 == length args ≡ true → args ≡ []
  no_arguments [] h = refl
  no_arguments (x ∷ args) h = absurd (ground arith)

  resolve_item-Ends :
      (id : String) (ty : TypeItem) (args : List FieldType) (st : Resolved)
      → lookup id types ≡ some ty
      → ty.generics ≡ []
      → missing types st < suc k
      → Ends (KeepsNames st) (resolve_item go id ty args st)
  unfolding resolve_item
  resolve_item-Ends id ty args st found plain less =
      Ends-guard (length ty.generics == length args)
        (arg_count_mismatch (length ty.generics) id (length args))
      ⟫ λ _ counted.
          let none_given : args ≡ [] = no_arguments args (rw plain at counted) in
          Ends-if (contains_key (repr_of id args) st)
            (λ _. returns {a = (table (repr_of id args), st)} (λ n h. h))
            λ new.
              let placeholder : SpecializedType = record { name = repr_of id args; fields = [] } in
              let st' = insert (repr_of id args) placeholder st in
              let kept = insert-Keeps (repr_of id args) placeholder st in
              let fewer : missing types st' < missing types st =
                missing-less types st st' id ty kept found (rw none_given at new)
                  (rw (sym none_given) (contains_key-inserted (repr_of id args) placeholder st)) in
              resolve_fields-Ends (bind_args ty.generics args []) (repr_of id args) ty.name
                ty.fields [] st' (omega (arith, less, fewer))
              ⟫ λ (fields, st'') keeps.
                  Ends-guard (leb (primary_key_count fields) 1) (multiple_primary_keys ty.name)
                  ⟫ λ _ _. set_fields-Ends (repr_of id args) fields st'' ⟫ λ done keeps'.
                      returns {a = (table (repr_of id args), done)}
                        (λ n h. keeps' n (keeps n (kept n h)))

  module _ (plain : ArePlain types) where
    resolve_name-Ends :
        (ctx : Context) (id : String) (args : List FieldType) (st : Resolved)
        → missing types st < suc k
        → Ends (KeepsNames st) (resolve_name go types ctx id args st)
    unfolding resolve_name
    resolve_name-Ends ctx id args st less = elim (Option-cases (lookup id ctx)) [
      | inr (x, e) ↦
          rw (e, resolve_name)
            (Ends-guard (no_args args) (cannot_specialize_type_parameter id) ⟫ λ _ _.
              returns {a = (x, st)} (λ n h. h))
      | inl e ↦
          rw (e, resolve_name)
            (elim (Option-cases (primitive_types id)) [
              | inr (p, f) ↦ rw f (
                  Ends-guard (no_args args) (cannot_specialize_primitive_type id) ⟫ λ _ _.
                  returns {a = (primitive p, st)} (λ n h. h))
              | inl f ↦ rw f (
                  Ends-if (str_eq id "set")
                    (λ _. resolve_set-Ends args ⟫ λ x _. returns {a = (x, st)} (λ n h. h))
                    (λ _. elim (Option-cases (lookup id types)) [
                      | inl g ↦ rw g fails
                      | inr (ty, g) ↦ rw g (resolve_item-Ends id ty args st g (plain id ty g) less)
                    ]))
            ])
    ]

    mutual
      unfolding resolve_expr resolve_exprs

      resolve_expr-Ends : EndsBelow types (suc k) (resolve_expr go types)
      resolve_expr-Ends ctx (unit x) st less = resolve_name-Ends ctx x [] st less
      resolve_expr-Ends ctx (specialize x args) st less =
          resolve_exprs-Ends ctx args st less ⟫ λ (args', st') keeps.
          Ends-weaken (λ r keeps' n h. keeps' n (keeps n h))
            (resolve_name-Ends ctx x args' st'
              (omega (arith, less, missing-Keeps types st st' keeps)))

      resolve_exprs-Ends :
          (ctx : Context) (es : TypeExprs) (st : Resolved)
          → missing types st < suc k
          → Ends (KeepsNames st) (resolve_exprs go types ctx es st)
      resolve_exprs-Ends ctx no_expr st less = returns {a = ([], st)} (λ n h. h)
      resolve_exprs-Ends ctx (expr e es) st less =
          resolve_expr-Ends ctx e st less ⟫ λ (x, st') keeps.
          resolve_exprs-Ends ctx es st' (omega (arith, less, missing-Keeps types st st' keeps))
          ⟫ λ (xs, st'') keeps'. returns {a = (x ∷ xs, st'')} (λ n h. keeps' n (keeps n h))

pub resolve_type_expr-Ends :
    (fuel : ℕ) (types : Unresolved)
    → ArePlain types
    → EndsBelow types fuel (resolve_type_expr fuel types)
unfolding resolve_type_expr
resolve_type_expr-Ends zero types plain ctx e st less = absurd (omega (arith, less))
resolve_type_expr-Ends (suc fuel) types plain ctx e st less =
    resolve_expr-Ends types fuel (resolve_type_expr fuel types)
      (resolve_type_expr-Ends fuel types plain) plain ctx e st less
