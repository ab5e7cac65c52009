-- ===== src/Storage/Planner/Closed.antt =====
-- rdb-analyzer/src/storage_plan/planner.rs: planning for a schema that `compile` returned finds every
-- type that the schema names.
use refine_db.Storage.Planner.{Fields}
use refine_db.Storage.Planner.Special.{
  SpecialTypes, Collector, collect_fields, collect_special_types, collect_exports, no_special_types,
}
use refine_db.Prelude.{
  ℕ, zero, suc, Bool, true, false, ◌||◌, Option, none, some, String, List, [], ◌∷◌, Dict, lookup,
  All, Option-cases, inl, inr, ◌≡◌, ◌≢◌, ok, err, ◌>>=◌, guard, if◌then◌else◌,
}
use refine_db.Schema.{FieldType, table, primitive, set, FieldAnnotation, is_primary, CompiledSchema}
use refine_db.Schema.WellFormed.{Defined, Refers, IsFineField, IsWellFormed}
use refine_db.Schema.Compiled.{IsClosed, compile-IsClosed}
use refine_db.Schema.Ast.{SchemaItem}
use refine_db.Schema.Resolve.{compile}
use refine_db.Schema.Outcome.{Outcome-elim}
use refine_db.Prelude.{insert}
use refine_db.Storage.{StorageKey, StorageNode, Children, no_child, StoragePlan, insert_child}
use refine_db.Storage.Planner.{
  Planned, Stop, missing_type, set_member_type_without_primary_key, failed, panicked, out_of_fuel,
  out_of_samples, PlanState, OldTreePoint, Sample, contains_name, draw, candidate,
  contains_storage_key, rand_storage_key, key_of_point,
}
use refine_db.Storage.Planner.Generate.{
  Generator, generate_subfields, generate_table, generate_leaf, generate_field, export_point,
  generate_exports, initial_state, generate_plan_for_schema,
}

abbrev pub IsOther : Stop → Type 0
IsOther (failed (missing_type n)) = ⊥
IsOther _ = Unit

-- A run that does not end with the error of a missing type.
pub data Finds {A : Type 0} : Planned A → Type 0 where
  returns : {a : A} → Finds (ok a)
  stops : {e : Stop} → IsOther e → Finds (err e)

module _ {A : Type 0} where
  infixl 1 ◌⟫◌
  ◌⟫◌ :
      {B : Type 0} {r : Planned A} {f : A → Planned B}
      → Finds r
      → ((a : A) → Finds (f a))
      → Finds (r >>= f)
  returns {a} ⟫ k = k a
  stops h ⟫ k = stops h

  Finds-if : (b : Bool) {r s : Planned A} → Finds r → Finds s → Finds (if b then r else s)
  Finds-if true h k = h
  Finds-if false h k = k

  pub Finds-elim : {r : Planned A} → Finds r → (n : String) → r ≢ err (failed (missing_type n))
  Finds-elim returns n e = cc
  Finds-elim (stops {e = failed (missing_type m)} h) n p = h
  Finds-elim (stops {e = failed (set_member_type_without_primary_key m)} h) n p = cc
  Finds-elim (stops {e = panicked} h) n p = cc
  Finds-elim (stops {e = out_of_fuel} h) n p = cc
  Finds-elim (stops {e = out_of_samples} h) n p = cc

guard-Finds : (b : Bool) (e : Stop) → IsOther e → Finds (guard b e)
guard-Finds true e h = returns
guard-Finds false e h = stops h

draw-Finds : (samples : List Sample) (used : List StorageKey) → Finds (draw samples used)
unfolding draw
draw-Finds [] used = stops tt
draw-Finds (s ∷ samples) used = guard-Finds _ panicked tt ⟫ λ _.
    Finds-if (contains_storage_key (candidate s) used) (draw-Finds samples used) returns

key_of_point-Finds : (p : Option OldTreePoint) (st : PlanState) → Finds (key_of_point p st)
unfolding key_of_point rand_storage_key
key_of_point-Finds (some p) st = returns
key_of_point-Finds none st = draw-Finds st.samples st.used_storage_keys ⟫ λ _. returns

generate_leaf-Finds :
    (r : Option StorageKey) (p : Option OldTreePoint) (st : PlanState)
    → Finds (generate_leaf r p st)
unfolding generate_leaf
generate_leaf-Finds r p st = key_of_point-Finds p st ⟫ λ _. returns

module _ (schema : CompiledSchema) (well : IsWellFormed schema.types) where
  AreFine : Fields → Type 0
  AreFine fields = All (IsFineField schema.types) fields

  member-Refers : (x : FieldType) → Refers schema.types (set x) → Refers schema.types x
  member-Refers (table n) h = h
  member-Refers (primitive p) h = absurd h
  member-Refers (set x) h = absurd h

  module _ (go : Generator)
      (finds : (ty : FieldType) (anns : List FieldAnnotation) (p : Option OldTreePoint)
          (st : PlanState)
        → Refers schema.types ty
        → Finds (go ty anns p st))
      (old_schema : CompiledSchema) where
    generate_subfields-Finds :
        (p : Option OldTreePoint) (fields : Fields) (cs : Children StorageKey) (b : Bool)
        (st : PlanState)
        → AreFine fields
        → Finds (generate_subfields go old_schema p fields cs b st)
    unfolding generate_subfields AreFine
    generate_subfields-Finds p [] cs b st h = returns
    generate_subfields-Finds p ((name, (ty, anns)) ∷ fields) cs b st ((r, _), h) =
        finds ty anns _ st r ⟫ λ (x, st').
        generate_subfields-Finds p fields (insert_child name x cs) (b || is_primary anns) st' h

    generate_table-Finds :
        (name : String) (p : Option OldTreePoint) (st : PlanState)
        → Defined schema.types name
        → Finds (generate_table go old_schema schema name p st)
    unfolding generate_table AreFine
    generate_table-Finds name p st (ty, e) =
        rw (e, generate_table)
          (key_of_point-Finds p st ⟫ λ (k, st1).
            generate_subfields-Finds p ty.fields no_child false _ (well name ty e).has_fine_fields
            ⟫ λ _. guard-Finds _ (failed (set_member_type_without_primary_key ty.name)) tt ⟫ λ _.
                returns)

  generate_field-Finds :
      (fuel : ℕ) (old_schema : CompiledSchema) (ty : FieldType) (anns : List FieldAnnotation)
      (p : Option OldTreePoint) (st : PlanState)
      → Refers schema.types ty
      → Finds (generate_field fuel old_schema schema ty anns p st)
  unfolding generate_field
  generate_field-Finds zero old_schema ty anns p st h = stops tt
  generate_field-Finds (suc fuel) old_schema (primitive x) anns p st h =
      generate_leaf-Finds none p st
  generate_field-Finds (suc fuel) old_schema (set x) anns p st h =
      generate_field-Finds fuel old_schema x [] _ st (member-Refers x h) ⟫ λ (inner, st').
      key_of_point-Finds p st' ⟫ λ _. returns
  generate_field-Finds (suc fuel) old_schema (table name) anns p st h =
      elim (Option-cases (lookup name st.fields_in_stack)) [
        | inr (k, e) ↦ rw (e, generate_field) (generate_leaf-Finds (some k) p st)
        | inl e ↦
            rw (e, generate_field)
              (generate_table-Finds (generate_field fuel old_schema schema)
                (generate_field-Finds fuel old_schema) old_schema name p st h)
      ]

  collect_fields-Finds :
      (go : Collector)
      → ((ty : FieldType) (state : List String) (sinks : SpecialTypes)
          → Refers schema.types ty
          → Finds (go ty state sinks))
      → (fields : Fields) (state : List String) (sinks : SpecialTypes) → AreFine fields
      → Finds (collect_fields go fields state sinks)
  unfolding collect_fields AreFine
  collect_fields-Finds go finds [] state sinks h = returns
  collect_fields-Finds go finds ((_, (ty, _)) ∷ fields) state sinks ((r, _), h) =
      finds ty state sinks r ⟫ λ (state', sinks').
      collect_fields-Finds go finds fields state' sinks' h

  collect_special_types-Finds :
      (fuel : ℕ) (ty : FieldType) (state : List String) (sinks : SpecialTypes)
      → Refers schema.types ty
      → Finds (collect_special_types fuel schema ty state sinks)
  unfolding collect_special_types AreFine
  collect_special_types-Finds zero ty state sinks h = stops tt
  collect_special_types-Finds (suc fuel) (primitive p) state sinks h = returns
  collect_special_types-Finds (suc fuel) (set x) state sinks h =
      collect_special_types-Finds fuel x state _ (member-Refers x h)
  collect_special_types-Finds (suc fuel) (table name) state sinks (ty, e) =
      Finds-if (contains_name name state) returns (
        rw e (
          collect_fields-Finds (collect_special_types fuel schema)
            (collect_special_types-Finds fuel) ty.fields (name ∷ state) sinks
            (well name ty e).has_fine_fields
          ⟫ λ _. returns))

  AreExports : Dict FieldType → Type 0
  AreExports exports = All (λ p. Refers schema.types p.1) exports

  collect_exports-Finds :
      (fuel : ℕ) (exports : Dict FieldType) (sinks : SpecialTypes)
      → AreExports exports
      → Finds (collect_exports fuel schema exports sinks)
  unfolding collect_exports AreExports
  collect_exports-Finds fuel [] sinks h = returns
  collect_exports-Finds fuel ((_, ty) ∷ exports) sinks (r, h) =
      collect_special_types-Finds fuel ty [] sinks r ⟫ λ (_, sinks').
      collect_exports-Finds fuel exports sinks' h

  generate_exports-Finds :
      (fuel : ℕ) (old_plan : StoragePlan StorageKey) (old_schema : CompiledSchema)
      (exports : Dict FieldType) (nodes : Dict (StorageNode StorageKey)) (st : PlanState)
      → AreExports exports
      → Finds (generate_exports fuel old_plan old_schema schema exports nodes st)
  unfolding generate_exports AreExports
  generate_exports-Finds fuel old_plan old_schema [] nodes st h = returns
  generate_exports-Finds fuel old_plan old_schema ((name, ty) ∷ exports) nodes st (r, h) =
      generate_field-Finds fuel old_schema ty [] (export_point old_plan old_schema name ty) st r
      ⟫ λ (x, st').
          generate_exports-Finds fuel old_plan old_schema exports (insert name x nodes) st' h

generate_plan-Finds :
    (fuel : ℕ) (samples : List Sample) (old_plan : StoragePlan StorageKey)
    (old_schema schema : CompiledSchema)
    → IsClosed schema
    → Finds (generate_plan_for_schema fuel samples old_plan old_schema schema)
unfolding generate_plan_for_schema AreExports
generate_plan-Finds fuel samples old_plan old_schema schema c =
    let w = c.has_fine_types in
    collect_exports-Finds schema w fuel schema.exports no_special_types c.has_fine_exports
    ⟫ λ special.
        generate_exports-Finds schema w fuel old_plan old_schema schema.exports []
          (initial_state samples old_plan special) c.has_fine_exports
        ⟫ λ _. returns

-- Planning for a schema that `compile` returned does not fail for want of a type, from whatever old
-- plan and old schema.
pub compiled_schema_plans :
    (fuel steps : ℕ) (items : List SchemaItem) (samples : List Sample)
    (old_plan : StoragePlan StorageKey) (old_schema schema : CompiledSchema) (name : String)
    → compile fuel items ≡ ok schema
    → generate_plan_for_schema steps samples old_plan old_schema schema
      ≢ err (failed (missing_type name))
compiled_schema_plans fuel steps items samples old_plan old_schema schema name e =
    Finds-elim
      (generate_plan-Finds steps samples old_plan old_schema schema
        (Outcome-elim (compile-IsClosed fuel items) e))
      name
