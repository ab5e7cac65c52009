-- ===== src/Schema/Soundness.antt =====
-- rdb-analyzer/src/schema/compile.rs: the resolution keeps the table of types well formed, and its
-- types name types of the table.
use refine_db.Prelude.{
  ℕ, zero, suc, ◌≤◌, leb, Bool, true, false, not, ◌||◌, String, str_eq, List, [], ◌∷◌, ◌≡◌, refl,
  inl, inr, All, lookup, insert, contains_key, contains_key-lookup, All-insert, Option-cases, arith,
  length, ◌==◌,
}
use refine_db.Schema.{FieldType, table, primitive, set, any, SpecializedType}
use refine_db.Schema.Ast.{
  Annotation, TypeExpr, TypeExprs, unit, specialize, no_expr, expr, TypeField, TypeItem,
}
use refine_db.Schema.Resolve.{
  Resolver, Resolved, Unresolved, Context, Fields, Compiled, needs_primitive, is_primitive,
  primary_key_count, bind_args, annotation_of, annotations_of, resolve_fields, set_fields, repr_of,
  resolve_item, resolve_set, no_args, primitive_types, resolve_name, resolve_expr, resolve_exprs,
  resolve_type_expr, unknown_annotation_on_field,
}
use refine_db.Schema.Outcome.{
  Outcome, returns, fails, starves, ◌⟫◌, Outcome-if, guard-Outcome, ok_or-Outcome,
}
use refine_db.Schema.WellFormed.{
  Defined, Refers, IsFineField, IsWellFormed, Grows, IsFineContext, Refers-Grows,
  IsFineContext-Grows, All-Refers-Grows, IsFineField-Grows, bind_args-IsFineContext, insert-Grows,
  insert-Defined, insert-IsWellFormed,
}

-- What a step from a table to the next one guarantees of its result.
abbrev Resolves : {A : Type 0} → (Resolved → A → Type 0) → Resolved → A × Resolved → Type 0
Resolves R st (a, st') = R st' a × IsWellFormed st' × Grows st st'

abbrev pub ResolvesType : Resolved → FieldType × Resolved → Type 0
ResolvesType = Resolves Refers

abbrev pub IsSound : Resolver → Type 0
IsSound go =
    (ctx : Context) (e : TypeExpr) (st : Resolved)
    → IsFineContext st ctx
    → IsWellFormed st
    → Outcome (ResolvesType st) (go ctx e st)

annotations_of-Outcome :
    (field repr : String) (anns : List Annotation)
    → Outcome (λ _. Unit {0}) (annotations_of field repr anns)
unfolding annotations_of
annotations_of-Outcome field repr [] = returns tt
annotations_of-Outcome field repr (a ∷ anns) =
    ok_or-Outcome (annotation_of a) (unknown_annotation_on_field field repr a.name) ⟫ λ x _.
    annotations_of-Outcome field repr anns ⟫ λ xs _. returns tt

implies : (b c : Bool) → (not b || c) ≡ true → b ≡ true → c ≡ true
implies true c h e = h
implies false c h e = cc

-- A run from a later table, seen from the earlier one.
weaken-Grows :
    {A : Type 0} (R : Resolved → A → Type 0) (st st' : Resolved)
    → Grows st st'
    → (r : Compiled (A × Resolved)) → Outcome (Resolves R st') r
    → Outcome (Resolves R st) r
weaken-Grows R st st' g _ (returns {a} (r, w, g')) = returns {a = a} (r, w, λ n d. g' n (g n d))
weaken-Grows R st st' g _ fails = fails
weaken-Grows R st st' g _ starves = starves

abbrev AreFine : Resolved → Fields → Type 0
AreFine st fields = All (IsFineField st) fields

pub no_context : (st : Resolved) → IsFineContext st []
unfolding lookup
no_context st n x e = cc

leb→le : (a b : ℕ) → leb a b ≡ true → a ≤ b
leb→le a b h = ground arith

set_fields-Outcome :
    (repr : String) (fields : Fields) (st : Resolved)
    → Defined st repr
    → AreFine st fields
    → primary_key_count fields ≤ 1
    → IsWellFormed st
    → Outcome
        (λ st'. Defined st' repr × IsWellFormed st' × Grows st st')
        (set_fields repr fields st)
unfolding set_fields
set_fields-Outcome repr fields st (ty, e) hf hk hw =
    let new : SpecializedType = record ty { fields = fields } in
    rw (e, set_fields)
      (returns {a = insert repr new st} (
        insert-Defined repr new st,
        insert-IsWellFormed st repr new hw
            (record { named = (hw repr ty e).named; has_fine_fields = hf; has_one_key = hk }),
        insert-Grows repr new st,
      ))

resolve_set-Outcome :
    (args : List FieldType) (st : Resolved)
    → All (Refers st) args
    → Outcome (Refers st) (resolve_set args)
unfolding resolve_set
resolve_set-Outcome (table x ∷ []) st (h, _) = returns h
resolve_set-Outcome [] st h = fails
resolve_set-Outcome (primitive p ∷ []) st h = fails
resolve_set-Outcome (set x ∷ []) st h = fails
resolve_set-Outcome (table x ∷ (y ∷ xs)) st h = fails
resolve_set-Outcome (primitive p ∷ (y ∷ xs)) st h = fails
resolve_set-Outcome (set x ∷ (y ∷ xs)) st h = fails

module _ (go : Resolver) (sound : IsSound go) where
  resolve_fields-Outcome :
      (ctx : Context) (repr ty : String) (xs : List TypeField) (fields : Fields) (st : Resolved)
      → IsFineContext st ctx
      → AreFine st fields
      → IsWellFormed st
      → Outcome (Resolves AreFine st) (resolve_fields go ctx repr ty xs fields st)
  unfolding resolve_fields
  resolve_fields-Outcome ctx repr ty [] fields st hc hf hw =
      returns {a = (fields, st)} (hf, hw, λ n d. d)
  resolve_fields-Outcome ctx repr ty (x ∷ xs) fields st hc hf hw =
      guard-Outcome (not (contains_key x.name fields)) _ ⟫ λ _ _.
      sound ctx x.value st hc hw ⟫ λ (field_ty, st') (r, hw', g).
      annotations_of-Outcome x.name repr x.annotations ⟫ λ anns _.
      guard-Outcome (not (any needs_primitive anns) || is_primitive field_ty) _ ⟫ λ _ i.
      weaken-Grows AreFine st st' g _ (
        resolve_fields-Outcome ctx repr ty xs (insert x.name (field_ty, anns) fields) st'
          (IsFineContext-Grows st st' g ctx hc)
          (All-insert (IsFineField st') x.name (field_ty, anns) fields
            (r, implies (any needs_primitive anns) (is_primitive field_ty) i)
            (IsFineField-Grows st st' g fields hf))
          hw')

  resolve_item-Outcome :
      (id : String) (ty : TypeItem) (args : List FieldType) (st : Resolved)
      → All (Refers st) args
      → IsWellFormed st
      → Outcome (ResolvesType st) (resolve_item go id ty args st)
  unfolding resolve_item primary_key_count
  resolve_item-Outcome id ty args st ha hw =
      let repr : String = repr_of id args in
      let empty : SpecializedType = record { name = repr; fields = [] } in
      let st' : Resolved = insert repr empty st in
      let grown : Grows st st' = insert-Grows repr empty st in
      guard-Outcome (length ty.generics == length args) _ ⟫ λ _ _.
      Outcome-if (contains_key repr st)
        (λ e. returns {a = (table repr, st)} (contains_key-lookup repr st e, hw, λ n d. d))
        (λ _.
          resolve_fields-Outcome (bind_args ty.generics args []) repr ty.name ty.fields [] st'
            (bind_args-IsFineContext st' ty.generics args [] (All-Refers-Grows st st' grown args ha)
              (no_context st'))
            tt
            (insert-IsWellFormed st repr empty hw
              (record { named = refl; has_fine_fields = tt; has_one_key = omega arith }))
          ⟫ λ (fields, st'') (hf, hw'', g).
              guard-Outcome (leb (primary_key_count fields) 1) _ ⟫ λ _ k.
              set_fields-Outcome repr fields st'' (g repr (insert-Defined repr empty st)) hf
                (leb→le _ _ k) hw''
              ⟫ λ done (d, wd, gd).
                  returns {a = (table repr, done)} (d, wd, λ n x. gd n (g n (grown n x))))

  resolve_name-Outcome :
      (types : Unresolved) (ctx : Context) (id : String) (args : List FieldType) (st : Resolved)
      → IsFineContext st ctx
      → All (Refers st) args
      → IsWellFormed st
      → Outcome (ResolvesType st) (resolve_name go types ctx id args st)
  unfolding resolve_name
  resolve_name-Outcome types ctx id args st hc ha hw = elim (Option-cases (lookup id ctx)) [
    | inr (x, e) ↦
        rw (e, resolve_name)
          (guard-Outcome (no_args args) _ ⟫ λ _ _. returns {a = (x, st)} (hc id x e, hw, λ n d. d))
    | inl e ↦ elim (Option-cases (primitive_types id)) [
      | inr (p, q) ↦
          rw (e, q, resolve_name)
            (guard-Outcome (no_args args) _ ⟫ λ _ _.
              returns {a = (primitive p, st)} (tt, hw, λ n d. d))
      | inl q ↦
          rw (e, q, resolve_name)
            (Outcome-if (str_eq id "set")
              (λ _. resolve_set-Outcome args st ha ⟫ λ x r. returns {a = (x, st)} (r, hw, λ n d. d))
              (λ _. elim (Option-cases (lookup id types)) [
                | inl m ↦ rw m fails
                | inr (ty, m) ↦ rw m (resolve_item-Outcome id ty args st ha hw)
              ]))
    ]
  ]

  -- A type expression, over the names that its parts resolve to.
  mutual
    unfolding resolve_expr resolve_exprs

    resolve_expr-Outcome : (types : Unresolved) → IsSound (resolve_expr go types)
    resolve_expr-Outcome types ctx (unit x) st hc hw =
        resolve_name-Outcome types ctx x [] st hc tt hw
    resolve_expr-Outcome types ctx (specialize x args) st hc hw =
        resolve_exprs-Outcome types ctx args st hc hw ⟫ λ (args', st') (ha, hw', g).
        weaken-Grows Refers st st' g _
          (resolve_name-Outcome types ctx x args' st' (IsFineContext-Grows st st' g ctx hc) ha hw')

    resolve_exprs-Outcome :
        (types : Unresolved) (ctx : Context) (es : TypeExprs) (st : Resolved)
        → IsFineContext st ctx
        → IsWellFormed st
        → Outcome (Resolves (λ st' xs. All (Refers st') xs) st) (resolve_exprs go types ctx es st)
    resolve_exprs-Outcome types ctx no_expr st hc hw = returns {a = ([], st)} (tt, hw, λ n d. d)
    resolve_exprs-Outcome types ctx (expr e es) st hc hw =
        resolve_expr-Outcome types ctx e st hc hw ⟫ λ (x, st') (r, hw', g).
        resolve_exprs-Outcome types ctx es st' (IsFineContext-Grows st st' g ctx hc) hw'
        ⟫ λ (xs, st'') (rs, hw'', g').
            returns {a = (x ∷ xs, st'')}
              ((Refers-Grows st' st'' g' x r, rs), hw'', λ n d. g' n (g n d))

pub resolve_type_expr-IsSound :
    (fuel : ℕ) (types : Unresolved) → IsSound (resolve_type_expr fuel types)
unfolding resolve_type_expr
resolve_type_expr-IsSound zero types ctx e st hc hw = starves
resolve_type_expr-IsSound (suc fuel) types ctx e st hc hw =
    resolve_expr-Outcome (resolve_type_expr fuel types) (resolve_type_expr-IsSound fuel types) types
      ctx e st hc hw
