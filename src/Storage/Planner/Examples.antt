-- ===== src/Storage/Planner/Examples.antt =====
-- A plan for a recursive schema, and a plan after a field was added under another one's old name.
use refine_db.Storage.Planner.Special.{collect_fields, collect_special_types, collect_exports}
use refine_db.Prelude.{bytes_cmp}
use refine_db.Value.BigEndian.{be_bytes}
use refine_db.Schema.{any, field_type_eq, is_primary_annotation, primitive_type_eq}
use refine_db.Storage.{get_child, insert_child}
use refine_db.Storage.Planner.{
  contains_name, key_of_point, rand_storage_key, draw, contains_storage_key, altnames_of,
  find_child, reduce_set, remove_name, resolve_subfield, validate_type,
}
use refine_db.Storage.Planner.Generate.{
  generate_exports, generate_field, generate_table, export_point, collect_plan_keys,
  collect_storage_keys, generate_subfields, generate_leaf, subfield_point,
}
use refine_db.Prelude.{
  ℕ, List, [], ◌∷◌, ◌≡◌, ◌≢◌, refl, ok, err, some, none, true, false, Ensures, lookup, insert,
  remove,
}
use refine_db.Value.{PrimitiveType}
use refine_db.Schema.{FieldType, SpecializedType, CompiledSchema, table, primitive, rename_from}
use refine_db.Schema.Examples.{items, schema, compile-items}
use refine_db.Storage.{
  StorageKey, StorageNode, storage_node, no_set, set_of, no_child, child, StoragePlan,
}
use refine_db.Storage.Planner.{Sample, failed, missing_type}
use refine_db.Storage.Planner.Generate.{generate_plan_for_schema}
use refine_db.Storage.Planner.Plans.{NodesAreLinked, generate_plan-NodesAreLinked}
use refine_db.Storage.Planner.Closed.{compiled_schema_plans}

abbrev pub sample : ℕ → Sample
sample n = record { now = 1; random = n ∷ 0 ∷ 0 ∷ 0 ∷ 0 ∷ 0 ∷ [] }

abbrev pub key_at : ℕ → StorageKey
key_at n = 0 ∷ 0 ∷ 0 ∷ 0 ∷ 0 ∷ 1 ∷ n ∷ 0 ∷ 0 ∷ 0 ∷ 0 ∷ 0 ∷ []

abbrev pub samples : List Sample
samples = sample 1 ∷ sample 2 ∷ sample 2 ∷ sample 3 ∷ sample 4 ∷ sample 5 ∷ sample 6 ∷ sample 7 ∷ []

abbrev pub no_plan : StoragePlan StorageKey
no_plan = record { nodes = [] }

abbrev pub no_schema : CompiledSchema
no_schema = record { types = []; exports = [] }

abbrev pub leaf : ℕ → StorageNode StorageKey
leaf n = storage_node (key_at n) false none no_set no_child

-- `parent` refers to the element of the set, and the second sample for it is drawn again.
abbrev pub plan : StoragePlan StorageKey
plan = record {
  nodes =
      (
        "items",
        storage_node (key_at 7) false none
            (set_of (
              storage_node (key_at 1) true none no_set (
                child "id" (leaf 2) (
                  child "parent" (storage_node (key_at 3) false (some (key_at 1)) no_set no_child) (
                    child "span"
                      (storage_node (key_at 4) true none no_set
                        (child "first" (leaf 5) (child "second" (leaf 6) no_child)))
                      no_child)))))
            no_child,
      )
      ∷ [];
}

pub planned : generate_plan_for_schema 5 samples no_plan no_schema schema ≡ ok plan
unfolding generate_plan_for_schema collect_exports collect_special_types collect_fields
    contains_name lookup generate_exports generate_field generate_table key_of_point export_point
    rand_storage_key draw contains_storage_key collect_plan_keys collect_storage_keys
    generate_subfields generate_leaf subfield_point bytes_cmp insert remove any field_type_eq
    is_primary_annotation primitive_type_eq altnames_of find_child reduce_set remove_name
    resolve_subfield validate_type get_child insert_child be_bytes
planned = refl

-- Planned again from its own plan, this schema keeps it.
replanned : generate_plan_for_schema 5 [] plan schema schema ≡ ok plan
unfolding generate_plan_for_schema collect_exports collect_special_types collect_fields
    contains_name lookup generate_exports generate_field generate_table key_of_point export_point
    rand_storage_key draw contains_storage_key collect_plan_keys collect_storage_keys
    generate_subfields generate_leaf subfield_point bytes_cmp insert remove any field_type_eq
    is_primary_annotation primitive_type_eq altnames_of find_child reduce_set remove_name
    resolve_subfield validate_type get_child insert_child be_bytes
replanned = refl

generate_plan-NodesAreLinked_example :
    Ensures
      (λ p. NodesAreLinked no_plan p.nodes)
      (generate_plan_for_schema 5 samples no_plan no_schema schema)
generate_plan-NodesAreLinked_example =
    generate_plan-NodesAreLinked 5 no_plan no_schema schema samples

compiled_schema_plans_example :
    generate_plan_for_schema 5 samples no_plan no_schema schema
    ≢ err (failed (missing_type "Item<>"))
compiled_schema_plans_example =
    compiled_schema_plans 3 5 items samples no_plan no_schema schema "Item<>" compile-items

-- type Note { title: string } becomes type Note { title: string, @rename_from("title") heading: string }.
abbrev text : FieldType
text = primitive PrimitiveType.string

abbrev note_schema : SpecializedType → CompiledSchema
note_schema ty = record { types = ("Note<>", ty) ∷ []; exports = ("note", table "Note<>") ∷ [] }

abbrev old_note : SpecializedType
old_note = record { name = "Note<>"; fields = ("title", (text, [])) ∷ [] }

abbrev new_note : SpecializedType
new_note = record {
  name = "Note<>";
  fields = ("heading", (text, rename_from "title" ∷ [])) ∷ ("title", (text, [])) ∷ [];
}

abbrev old_note_plan : StoragePlan StorageKey
old_note_plan = record {
  nodes = ("note", storage_node (key_at 1) true none no_set (child "title" (leaf 2) no_child)) ∷ [];
}

-- Both fields of the new plan have the key of the old one, so that they share their data.
two_fields_share_a_key :
    generate_plan_for_schema 3 [] old_note_plan (note_schema old_note) (note_schema new_note)
    ≡ ok (record {
      nodes =
          (
            "note",
            storage_node
                (key_at 1)
                true
                none
                no_set
                (child "heading" (leaf 2) (child "title" (leaf 2) no_child)),
          )
          ∷ [];
    })
unfolding generate_plan_for_schema collect_exports collect_special_types collect_fields
    contains_name lookup generate_exports generate_field generate_table key_of_point export_point
    rand_storage_key draw contains_storage_key collect_plan_keys collect_storage_keys
    generate_subfields generate_leaf subfield_point bytes_cmp insert remove any field_type_eq
    is_primary_annotation primitive_type_eq altnames_of find_child reduce_set remove_name
    resolve_subfield validate_type get_child insert_child be_bytes
two_fields_share_a_key = refl
