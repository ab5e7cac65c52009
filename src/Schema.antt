-- ===== src/Schema.antt =====
-- rdb-analyzer/src/schema/compile.rs: the compiled schema, that is what the planner and the type
-- checker read of it. `PrimitiveType` stands with the primitive values.
pub mod Ast
pub mod Resolve
pub mod Outcome
pub mod WellFormed
pub mod Soundness
pub mod Compiled
pub mod Indexed
pub mod Ends
pub mod Examples
use refine_db.Prelude.{
  Bool, true, false, ◌&&◌, ◌||◌, Option, none, some, String, str_eq, if◌then◌else◌, List, [], ◌∷◌,
  Dict, lookup,
}
use refine_db.Value.{PrimitiveType}

pub data FieldType : Type 0 where
  table : String → FieldType
  primitive : PrimitiveType → FieldType
  set : FieldType → FieldType

pub data FieldAnnotation : Type 0 where
  primary_key unique index : FieldAnnotation
  rename_from : String → FieldAnnotation

pub record SpecializedType : Type 0 where
  pub name : String
  pub fields : Dict (FieldType × List FieldAnnotation)

pub record CompiledSchema : Type 0 where
  pub types : Dict SpecializedType
  pub exports : Dict FieldType

pub record IndexedField : Type 0 where
  pub ty : FieldType
  pub annotations : List FieldAnnotation
  pub is_unique_index : Bool

-- `==` of types.
unfoldable pub primitive_type_eq : PrimitiveType → PrimitiveType → Bool
primitive_type_eq PrimitiveType.int64 PrimitiveType.int64 = true
primitive_type_eq PrimitiveType.double PrimitiveType.double = true
primitive_type_eq PrimitiveType.string PrimitiveType.string = true
primitive_type_eq PrimitiveType.bytes PrimitiveType.bytes = true
primitive_type_eq _ _ = false

unfoldable pub field_type_eq : FieldType → FieldType → Bool
unfolding primitive_type_eq
field_type_eq (table x) (table y) = str_eq x y
field_type_eq (primitive x) (primitive y) = primitive_type_eq x y
field_type_eq (set x) (set y) = field_type_eq x y
field_type_eq _ _ = false

-- The predicates on one annotation, and on the list of a field's annotations.
unfoldable pub is_index_annotation : FieldAnnotation → Bool
is_index_annotation index = true
is_index_annotation _ = false

unfoldable pub is_unique_annotation : FieldAnnotation → Bool
is_unique_annotation unique = true
is_unique_annotation _ = false

unfoldable pub is_primary_annotation : FieldAnnotation → Bool
is_primary_annotation primary_key = true
is_primary_annotation _ = false

-- `iter().find(f).is_some()`
unfoldable pub any : (FieldAnnotation → Bool) → List FieldAnnotation → Bool
any f [] = false
any f (x ∷ xs) = f x || any f xs

abbrev pub is_primary : List FieldAnnotation → Bool
is_primary anns = any is_primary_annotation anns

abbrev pub is_unique : List FieldAnnotation → Bool
is_unique anns = any is_unique_annotation anns

abbrev pub is_index : List FieldAnnotation → Bool
is_index anns = any is_index_annotation anns

-- The condition under which `lookup_indexed_field` keeps a field.
abbrev pub is_indexed : List FieldAnnotation → Bool
is_indexed anns = is_primary anns || is_unique anns || is_index anns

unfoldable pub lookup_indexed_field : SpecializedType → String → Option IndexedField
lookup_indexed_field t name = elim (lookup name t.fields) [
  | none ↦ none
  | some (ty, anns) ↦
      if is_indexed anns
      then some (record { ty = ty; annotations = anns; is_unique_index = is_unique anns })
      else none
]
