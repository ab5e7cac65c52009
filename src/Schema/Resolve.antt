-- ===== src/Schema/Resolve.antt =====
-- rdb-analyzer/src/schema/compile.rs: `compile` and the resolution of type expressions. The
-- recursion follows the fields of types, so it takes fuel: a type whose fields specialize it without
-- end sends the program into the same recursion.
use refine_db.Prelude.{
  ℕ, zero, suc, ◌+◌, leb, ◌==◌, Bool, true, false, not, ◌&&◌, ◌||◌, Option, none, some, String,
  str_eq, if◌then◌else◌, List, [], ◌∷◌, length, Dict, lookup, insert, contains_key, Result, ok, err,
  ◌>>=◌, ◌>>◌, ok_or, guard,
}
use Prim.Native.String.{[] as empty_text, ◌∷◌ as ◌∷ᶜ◌, ◌++◌ as ◌++ˢ◌}
use Prim.Native.Char.{code}
use refine_db.Value.{PrimitiveType}
use refine_db.Schema.{
  FieldType, table, primitive, set, FieldAnnotation, primary_key, unique, index, rename_from, any,
  is_primary_annotation, is_unique_annotation, is_index_annotation, is_primary, SpecializedType,
  CompiledSchema,
}
use refine_db.Schema.Ast.{
  Literal, Annotation, TypeExpr, TypeExprs, unit, specialize, no_expr, expr, TypeField, TypeItem,
  SchemaItem, type_item, export_item,
}

pub data SchemaCompileError : Type 0 where
  duplicate_type duplicate_export : String → SchemaCompileError
  duplicate_field : String → String → SchemaCompileError
  missing_type : String → SchemaCompileError
  -- expected_args, ty, got_args
  arg_count_mismatch : ℕ → String → ℕ → SchemaCompileError
  cannot_specialize_type_parameter cannot_specialize_primitive_type : String → SchemaCompileError
  bad_set_type_parameter : SchemaCompileError
  unknown_annotation_on_field : String → String → String → SchemaCompileError
  index_on_non_primitive_field : String → String → SchemaCompileError
  multiple_primary_keys : String → SchemaCompileError
  type_name_must_start_with_upper_case_letter : String → SchemaCompileError

-- How a run ends that returns no value: with an error of the program, with the panic of an
-- `unwrap`, or with no fuel left.
pub data Stop : Type 0 where
  failed : SchemaCompileError → Stop
  panicked out_of_fuel : Stop

abbrev pub Compiled : Type 0 → Type 0
Compiled = Result Stop

abbrev pub Unresolved : Type 0
Unresolved = Dict TypeItem

abbrev pub Resolved : Type 0
Resolved = Dict SpecializedType

abbrev pub Context : Type 0
Context = Dict FieldType

-- A resolution passes the table of resolved types on.
abbrev pub Resolver : Type 0
Resolver = Context → TypeExpr → Resolved → Compiled (FieldType × Resolved)

unfoldable pub primitive_types : String → Option PrimitiveType
primitive_types name =
    if str_eq name "int64"
    then some PrimitiveType.int64
    else (if str_eq name "double"
        then some PrimitiveType.double
        else (if str_eq name "string"
            then some PrimitiveType.string
            else (if str_eq name "bytes" then some PrimitiveType.bytes else none)))

-- `Display`, which names the specializations.
unfoldable pub display_primitive : PrimitiveType → String
display_primitive PrimitiveType.int64 = "int64"
display_primitive PrimitiveType.double = "double"
display_primitive PrimitiveType.string = "string"
display_primitive PrimitiveType.bytes = "bytes"

unfoldable pub display : FieldType → String
unfolding display_primitive
display (table x) = x
display (primitive x) = display_primitive x
display (set x) = "set<" ++ˢ (display x ++ˢ ">")

unfoldable pub join : List FieldType → String
unfolding display
join [] = ""
join (x ∷ []) = display x
join (x ∷ (y ∷ xs)) = display x ++ˢ (", " ++ˢ join (y ∷ xs))

unfoldable pub repr_of : String → List FieldType → String
unfolding join
repr_of name args = name ++ˢ ("<" ++ˢ (join args ++ˢ ">"))

unfoldable pub starts_upper : String → Bool
starts_upper empty_text = false
starts_upper (c ∷ᶜ s) = leb 65 (code c) && leb (code c) 90

unfoldable pub annotation_of : Annotation → Option FieldAnnotation
annotation_of a = elim a.args [
  | [] ↦
      if str_eq a.name "primary"
      then some primary_key
      else (if str_eq a.name "unique"
          then some unique
          else (if str_eq a.name "index" then some index else none))
  | Literal.string x ∷ [] ↦ if str_eq a.name "rename_from" then some (rename_from x) else none
  | _ ↦ none
]

-- The annotations of a field, in a type that is printed as `repr`.
unfoldable pub annotations_of : String → String → List Annotation → Compiled (List FieldAnnotation)
unfolding annotation_of
annotations_of field repr [] = ok []
annotations_of field repr (a ∷ anns) = do
  x ← ok_or (failed (unknown_annotation_on_field field repr a.name)) (annotation_of a)
  xs ← annotations_of field repr anns
  ok (x ∷ xs)

abbrev pub needs_primitive : FieldAnnotation → Bool
needs_primitive x = is_primary_annotation x || is_unique_annotation x || is_index_annotation x

abbrev pub is_primitive : FieldType → Bool
is_primitive (primitive x) = true
is_primitive _ = false

abbrev pub Fields : Type 0
Fields = Dict (FieldType × List FieldAnnotation)

-- The loop over the fields of a type.
unfoldable pub resolve_fields :
    Resolver
    → Context
    → String
    → String
    → List TypeField
    → Fields
    → Resolved
    → Compiled (Fields × Resolved)
resolve_fields go ctx repr ty [] fields st = ok (fields, st)
resolve_fields go ctx repr ty (x ∷ xs) fields st = do
  guard (not (contains_key x.name fields)) (failed (duplicate_field x.name ty))
  (field_ty, st') ← go ctx x.value st
  annotations ← annotations_of x.name repr x.annotations
  guard (not (any needs_primitive annotations) || is_primitive field_ty)
      (failed (index_on_non_primitive_field x.name ty))
  resolve_fields go ctx repr ty xs (insert x.name (field_ty, annotations) fields) st'

unfoldable pub primary_key_count : Fields → ℕ
primary_key_count [] = 0
primary_key_count ((_, (_, annotations)) ∷ fields) =
    if is_primary annotations then primary_key_count fields + 1 else primary_key_count fields

-- `self.resolved.get_mut(&repr).unwrap().fields = fields`
unfoldable pub set_fields : String → Fields → Resolved → Compiled Resolved
set_fields repr fields st = elim (lookup repr st) [
  | none ↦ err panicked
  | some ty ↦ ok (insert repr (record ty { fields = fields }) st)
]

-- `ty.generics.iter().zip(args.iter()).collect()`: a later parameter of the same name wins.
unfoldable pub bind_args : List String → List FieldType → Context → Context
bind_args [] args ctx = ctx
bind_args (x ∷ xs) [] ctx = ctx
bind_args (x ∷ xs) (a ∷ args) ctx = bind_args xs args (insert x a ctx)

-- A type with its parameters: what the table has, or a placeholder that is filled in later.
unfoldable pub resolve_item :
    Resolver → String → TypeItem → List FieldType → Resolved → Compiled (FieldType × Resolved)
resolve_item go id ty args st = do
  guard (length ty.generics == length args)
      (failed (arg_count_mismatch (length ty.generics) id (length args)))
  let repr = repr_of id args
  if contains_key repr st then ok (table repr, st) else do
    let st' = insert repr (record { name = repr; fields = [] }) st
    let ctx = bind_args ty.generics args []
    (fields, st'') ← resolve_fields go ctx repr ty.name ty.fields [] st'
    guard (leb (primary_key_count fields) 1) (failed (multiple_primary_keys ty.name))
    done ← set_fields repr fields st''
    ok (table repr, done)

unfoldable pub resolve_set : List FieldType → Compiled FieldType
resolve_set (table x ∷ []) = ok (set (table x))
resolve_set _ = err (failed bad_set_type_parameter)

abbrev pub no_args : List FieldType → Bool
no_args [] = true
no_args (x ∷ xs) = false

-- A name with its resolved arguments.
unfoldable pub resolve_name :
    Resolver
    → Unresolved
    → Context
    → String
    → List FieldType
    → Resolved
    → Compiled (FieldType × Resolved)
resolve_name go types ctx id args st = elim (lookup id ctx) [
  | some x ↦ guard (no_args args) (failed (cannot_specialize_type_parameter id)) >> ok (x, st)
  | none ↦ elim (primitive_types id) [
    | some p ↦
        guard (no_args args) (failed (cannot_specialize_primitive_type id)) >> ok (primitive p, st)
    | none ↦
        if str_eq id "set" then (resolve_set args >>= λ x. ok (x, st)) else elim (lookup id types) [
          | none ↦ err (failed (missing_type id))
          | some ty ↦ resolve_item go id ty args st
        ]
  ]
]

unfoldable mutual
  pub resolve_expr : Resolver → Unresolved → Resolver
  resolve_expr go types ctx (unit x) st = resolve_name go types ctx x [] st
  resolve_expr go types ctx (specialize x args) st = do
    (args', st') ← resolve_exprs go types ctx args st
    resolve_name go types ctx x args' st'

  pub resolve_exprs :
      Resolver → Unresolved → Context → TypeExprs → Resolved → Compiled (List FieldType × Resolved)
  resolve_exprs go types ctx no_expr st = ok ([], st)
  resolve_exprs go types ctx (expr e es) st = do
    (x, st') ← resolve_expr go types ctx e st
    (xs, st'') ← resolve_exprs go types ctx es st'
    ok (x ∷ xs, st'')

unfoldable pub resolve_type_expr : ℕ → Unresolved → Resolver
resolve_type_expr zero types ctx e st = err out_of_fuel
resolve_type_expr (suc fuel) types ctx e st =
    resolve_expr (resolve_type_expr fuel types) types ctx e st

-- `TypeResolutionContext::new`: the type items by name.
unfoldable pub collect_items : List SchemaItem → Unresolved → Compiled Unresolved
collect_items [] types = ok types
collect_items (export_item x ∷ items) types = collect_items items types
collect_items (type_item x ∷ items) types = do
  guard (not (contains_key x.name types)) (failed (duplicate_type x.name))
  guard (starts_upper x.name) (failed (type_name_must_start_with_upper_case_letter x.name))
  collect_items items (insert x.name x types)

unfoldable pub compile_exports :
    ℕ
    → Unresolved
    → List SchemaItem
    → Dict FieldType
    → Resolved
    → Compiled (Dict FieldType × Resolved)
compile_exports fuel types [] exports st = ok (exports, st)
compile_exports fuel types (type_item x ∷ items) exports st =
    compile_exports fuel types items exports st
compile_exports fuel types (export_item x ∷ items) exports st = do
  guard (not (contains_key x.table_name exports)) (failed (duplicate_export x.table_name))
  (ty, st') ← resolve_type_expr fuel types [] x.ty st
  compile_exports fuel types items (insert x.table_name ty exports) st'

unfoldable pub compile : ℕ → List SchemaItem → Compiled CompiledSchema
compile fuel items = do
  types ← collect_items items []
  (exports, st) ← compile_exports fuel types items [] []
  ok (record { types = st; exports = exports })
