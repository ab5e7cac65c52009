-- ===== src/Schema/Examples.antt =====
-- Recursive schemas, one with a generic type, compiled.
use refine_db.Prelude.{
  String, List, [], ◌∷◌, ◌≡◌, refl, contains_key, ok, lookup, insert, some, arith,
}
use refine_db.Value.{PrimitiveType}
use refine_db.Schema.{
  SpecializedType, CompiledSchema, table, primitive, set, primary_key, is_index_annotation,
  is_unique_annotation, is_primary_annotation, any, lookup_indexed_field,
}
use refine_db.Schema.Ast.{
  Annotation, TypeExpr, unit, specialize, no_expr, expr, TypeField, TypeItem, SchemaItem, type_item,
  export_item,
}
use refine_db.Schema.Resolve.{
  compile, collect_items, compile_exports, resolve_type_expr, resolve_expr, resolve_name,
  resolve_item, resolve_fields, resolve_set, set_fields, bind_args, annotation_of, annotations_of,
  primary_key_count, primitive_types, starts_upper, repr_of, join, display, display_primitive,
}
use refine_db.Schema.Outcome.{Outcome}
use refine_db.Schema.Compiled.{IsClosed, compile-IsClosed}
use refine_db.Schema.Indexed.{IsLookup, lookup_indexed_field-IsLookup}
use refine_db.Schema.Ends.Compile.{Answers, compile_ends}

abbrev pub field : List Annotation → String → TypeExpr → TypeField
field anns name e = record { annotations = anns; name = name; value = e }

abbrev pub primary : List Annotation
primary = record { name = "primary"; args = [] } ∷ []

-- type Pair<T> { first: T, second: T }
abbrev pub pair_item : TypeItem
pair_item = record {
  name = "Pair";
  generics = "T" ∷ [];
  fields = field [] "first" (unit "T") ∷ field [] "second" (unit "T") ∷ [];
}

-- type Item { @primary id: string, parent: Item, span: Pair<int64> }
abbrev pub item_item : TypeItem
item_item = record {
  name = "Item";
  generics = [];
  fields =
      field primary "id" (unit "string")
      ∷ field [] "parent" (unit "Item")
      ∷ field [] "span" (specialize "Pair" (expr (unit "int64") no_expr))
      ∷ [];
}

-- export set<Item> items
abbrev pub items : List SchemaItem
items =
    type_item pair_item
    ∷ type_item item_item
    ∷ export_item
        (record { ty = specialize "set" (expr (unit "Item") no_expr); table_name = "items" })
    ∷ []

abbrev pub item_type : SpecializedType
item_type = record {
  name = "Item<>";
  fields =
      ("id", (primitive PrimitiveType.string, primary_key ∷ []))
      ∷ ("parent", (table "Item<>", []))
      ∷ ("span", (table "Pair<int64>", []))
      ∷ [];
}

abbrev pub pair_type : SpecializedType
pair_type = record {
  name = "Pair<int64>";
  fields =
      ("first", (primitive PrimitiveType.int64, []))
      ∷ ("second", (primitive PrimitiveType.int64, []))
      ∷ [];
}

abbrev pub schema : CompiledSchema
schema = record {
  types = ("Item<>", item_type) ∷ ("Pair<int64>", pair_type) ∷ [];
  exports = ("items", set (table "Item<>")) ∷ [];
}

pub compile-items : compile 3 items ≡ ok schema
unfolding compile collect_items contains_key starts_upper insert compile_exports resolve_type_expr
    resolve_expr resolve_name lookup primitive_types resolve_item resolve_fields bind_args
    annotations_of any is_primary_annotation repr_of annotation_of display display_primitive join
    primary_key_count resolve_set set_fields is_index_annotation is_unique_annotation
compile-items = refl

compile-IsClosed_example : Outcome IsClosed (compile 3 items)
compile-IsClosed_example = compile-IsClosed 3 items

-- type User { last: Post }, type Post { author: User }, export User admin
abbrev plain_items : List SchemaItem
plain_items =
    type_item (record { name = "User"; generics = []; fields = field [] "last" (unit "Post") ∷ [] })
    ∷ type_item
        (record { name = "Post"; generics = []; fields = field [] "author" (unit "User") ∷ [] })
    ∷ export_item (record { ty = unit "User"; table_name = "admin" })
    ∷ []

compile_ends_example : Answers (compile 4 plain_items)
compile_ends_example = compile_ends 4 plain_items (refl, (refl, (tt, tt))) (omega arith)

item_type_is_found : lookup "Item<>" schema.types ≡ some item_type
unfolding lookup
item_type_is_found = refl

lookup_indexed_field-IsLookup_example :
    IsLookup item_type "id" (lookup_indexed_field item_type "id")
lookup_indexed_field-IsLookup_example =
    lookup_indexed_field-IsLookup 3 items schema "Item<>" "id" item_type compile-items
      item_type_is_found
