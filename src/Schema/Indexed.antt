-- ===== src/Schema/Indexed.antt =====
-- rdb-analyzer/src/schema/compile.rs: the fields that lookup_indexed_field finds in a compiled schema.
use refine_db.Prelude.{
  ℕ, Bool, true, false, ◌||◌, Option, none, some, String, List, [], ◌∷◌, ok, ◌≡◌, ◌↔◌, refl, sym,
  ◌∙◌, ap, inl, inr, ◌⊎◌, lookup, All-lookup, Option-cases, Bool-cases,
}
use refine_db.Schema.{
  FieldType, FieldAnnotation, primary_key, unique, index, any, is_primary, is_unique, is_index,
  is_indexed, is_primary_annotation, is_unique_annotation, is_index_annotation, SpecializedType,
  CompiledSchema, IndexedField, lookup_indexed_field,
}
use refine_db.Schema.Ast.{SchemaItem}
use refine_db.Schema.Resolve.{compile, needs_primitive, is_primitive}
use refine_db.Schema.Outcome.{Outcome-elim}
use refine_db.Schema.WellFormed.{IsFineField}
use refine_db.Schema.Compiled.{compile-IsClosed}

regroup : (a b c p q r : Bool) → a || p || (b || q) || (c || r) ≡ a || b || c || (p || q || r)
regroup true b c p q r = refl
regroup false true c true q r = refl
regroup false true c false q r = refl
regroup false false true true q r = refl
regroup false false true false true r = refl
regroup false false true false false r = refl
regroup false false false p q r = refl

needs_primitive-any : (anns : List FieldAnnotation) → is_indexed anns ≡ any needs_primitive anns
unfolding any
needs_primitive-any [] = refl
needs_primitive-any (x ∷ xs) =
    regroup _ _ _ (is_primary xs) (is_unique xs) (is_index xs) ∙ rw (needs_primitive-any xs) refl

abbrev pub Holds : FieldAnnotation → List FieldAnnotation → Type 0
Holds a [] = ⊥
Holds a (x ∷ xs) = (x ≡ a) ⊎ Holds a xs

-- One of the annotations that make an index.
abbrev pub HasIndex : List FieldAnnotation → Type 0
HasIndex anns = Holds primary_key anns ⊎ Holds unique anns ⊎ Holds index anns

module _ (f : FieldAnnotation → Bool) (a : FieldAnnotation) (is_a : f a ≡ true)
    (only : (x : FieldAnnotation) → f x ≡ true → x ≡ a) where
  any-Holds : (anns : List FieldAnnotation) → (any f anns ≡ true) ↔ Holds a anns
  unfolding any
  any-Holds [] = (λ e. cc, λ h. absurd h)
  any-Holds (x ∷ xs) = (
    λ e. elim (Bool-cases (f x)) [
      | inl here ↦ inl (only x here)
      | inr other ↦ inr ((any-Holds xs).0 (rw other at e))
    ],
    λ h. elim h [
      | inl here ↦ rw (here, is_a) refl
      | inr later ↦ rw ((any-Holds xs).1 later) (or_true (f x))
    ],
  )
    where
      or_true : (b : Bool) → b || true ≡ true
      or_true true = refl
      or_true false = refl

primary-Holds : (anns : List FieldAnnotation) → (is_primary anns ≡ true) ↔ Holds primary_key anns
unfolding is_primary_annotation
primary-Holds anns = any-Holds is_primary_annotation primary_key refl only anns
  where
    only : (x : FieldAnnotation) → is_primary_annotation x ≡ true → x ≡ primary_key
    only primary_key h = refl
    only _ h = cc

unique-Holds : (anns : List FieldAnnotation) → (is_unique anns ≡ true) ↔ Holds unique anns
unfolding is_unique_annotation
unique-Holds anns = any-Holds is_unique_annotation unique refl only anns
  where
    only : (x : FieldAnnotation) → is_unique_annotation x ≡ true → x ≡ unique
    only unique h = refl
    only _ h = cc

index-Holds : (anns : List FieldAnnotation) → (is_index anns ≡ true) ↔ Holds index anns
unfolding is_index_annotation
index-Holds anns = any-Holds is_index_annotation index refl only anns
  where
    only : (x : FieldAnnotation) → is_index_annotation x ≡ true → x ≡ index
    only index h = refl
    only _ h = cc

or_cases : (a b c : Bool) → (a || b || c ≡ true) ↔ ((a ≡ true) ⊎ (b ≡ true) ⊎ (c ≡ true))
or_cases true b c = (λ h. inl refl, λ h. refl)
or_cases false true c = (λ h. inr (inl refl), λ h. refl)
or_cases false false true = (λ h. inr (inr refl), λ h. refl)
or_cases false false false =
    (λ h. cc, λ h. elim h [ inl e ↦ e | inr (inl e) ↦ e | inr (inr e) ↦ e ])

is_indexed-HasIndex : (anns : List FieldAnnotation) → (is_indexed anns ≡ true) ↔ HasIndex anns
is_indexed-HasIndex anns =
    let (there, back) = or_cases (is_primary anns) (is_unique anns) (is_index anns) in
    (
      λ h. elim (there h) [
        | inl e ↦ inl ((primary-Holds anns).0 e)
        | inr (inl e) ↦ inr (inl ((unique-Holds anns).0 e))
        | inr (inr e) ↦ inr (inr ((index-Holds anns).0 e))
      ],
      λ h. back (elim h [
        | inl e ↦ inl ((primary-Holds anns).1 e)
        | inr (inl e) ↦ inr (inl ((unique-Holds anns).1 e))
        | inr (inr e) ↦ inr (inr ((index-Holds anns).1 e))
      ]),
    )

-- The field is there with these annotations, one of which makes an index; it is primitive; and it is
-- marked as unique just where it is annotated so.
pub record IsIndexedAs (ty : SpecializedType) (field : String) (x : IndexedField) : Type 0 where
  pub is_there : lookup field ty.fields ≡ some (x.ty, x.annotations)
  pub has_index : HasIndex x.annotations
  pub has_primitive : is_primitive x.ty ≡ true
  pub is_marked : (x.is_unique_index ≡ true) ↔ Holds unique x.annotations

abbrev pub IsLookup : SpecializedType → String → Option IndexedField → Type 0
IsLookup ty field (some x) = IsIndexedAs ty field x
IsLookup ty field none =
    (t : FieldType) (anns : List FieldAnnotation)
    → lookup field ty.fields ≡ some (t, anns)
    → HasIndex anns
    → ⊥

-- In a type of a schema that `compile` returned, lookup_indexed_field finds a field just where it is
-- annotated as the primary key, as unique or as an index: it is primitive then, and marked as unique
-- just where it is annotated so; a field that is not found has none of the three annotations.
pub lookup_indexed_field-IsLookup :
    (fuel : ℕ) (items : List SchemaItem) (schema : CompiledSchema) (name field : String)
    (ty : SpecializedType)
    → compile fuel items ≡ ok schema
    → lookup name schema.types ≡ some ty
    → IsLookup ty field (lookup_indexed_field ty field)
unfolding lookup_indexed_field
lookup_indexed_field-IsLookup fuel items schema name field ty compiled there =
    elim (Option-cases (lookup field ty.fields)) [
      | inl q ↦ rw (q, lookup_indexed_field) (λ t anns found _. absurd (no_some (sym q ∙ found)))
      | inr ((t, anns), q) ↦
          let closed = Outcome-elim (compile-IsClosed fuel items) compiled in
          let (r, fine) =
            All-lookup (IsFineField schema.types) field (t, anns) ty.fields
              (closed.has_fine_types name ty there).has_fine_fields q in
          elim (Bool-cases (is_indexed anns)) [
            | inl i ↦
                rw (q, lookup_indexed_field)
                  (rw i (record {
                    is_there = q;
                    has_index = (is_indexed-HasIndex anns).0 i;
                    has_primitive = fine (sym (needs_primitive-any anns) ∙ i);
                    is_marked = unique-Holds anns;
                  }))
            | inr i ↦
                rw (q, lookup_indexed_field)
                  (rw i (λ t' anns' found has. true_false (
                    sym ((is_indexed-HasIndex anns').1 has)
                    ∙ ap is_indexed (sym (same_anns (sym q ∙ found)))
                    ∙ i)))
          ]
    ]
  where
    no_some : {A : Type 0} {a : A} → none ≡ some a → ⊥
    no_some e = cc

    true_false : true ≡ false → ⊥
    true_false e = cc

    same_anns :
        {t t' : FieldType} {a a' : List FieldAnnotation}
        → ◌≡◌ {A = Option (FieldType × List FieldAnnotation)} (some (t, a)) (some (t', a'))
        → a ≡ a'
    same_anns e = cc
