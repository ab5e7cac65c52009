-- ===== src/Storage/Planner.antt =====
-- rdb-analyzer/src/storage_plan/planner.rs: a storage plan for a schema, which keeps the keys of the
-- fields that an older plan has. The clock and the random generator are a list of samples, and the
-- recursion over types takes fuel.
pub mod Special
pub mod Generate
pub mod Provenance
pub mod Linked
pub mod Steps
pub mod Soundness
pub mod Plans
pub mod Closed
pub mod Examples
use refine_db.Prelude.{
  ℕ, zero, suc, ◌^◌, ltb, Bool, true, false, not, ◌&&◌, ◌||◌, Option, none, some, String, str_eq,
  if◌then◌else◌, List, [], ◌∷◌, ◌++◌, Bytes, bytes_eq, Dict, lookup, insert, remove, Result, ok,
  err, ◌>>=◌, ◌>>◌, ok_or, guard,
}
use refine_db.Value.BigEndian.{be_bytes}
use refine_db.Schema.{
  FieldType, table, primitive, set, FieldAnnotation, rename_from, field_type_eq, is_primary,
  SpecializedType, CompiledSchema,
}
use refine_db.Storage.{
  StorageKey, StorageNode, storage_node, SetNode, no_set, set_of, Children, no_child, child,
  StoragePlan, get_child, insert_child,
}
use refine_db.Storage

pub data PlannerError : Type 0 where
  missing_type set_member_type_without_primary_key : String → PlannerError

-- How a run ends that returns no plan: with an error of the program, with the panic of an `assert`
-- or an `unwrap`, with no fuel left, or with no sample left that is a new key.
pub data Stop : Type 0 where
  failed : PlannerError → Stop
  panicked out_of_fuel out_of_samples : Stop

abbrev pub Planned : Type 0 → Type 0
Planned = Result Stop

-- The milliseconds of the clock, and the six bytes that the random generator fills in.
pub record Sample : Type 0 where
  pub now : ℕ
  pub random : Bytes

pub record PlanState : Type 0 where
  pub used_storage_keys : List StorageKey
  pub recursive_types : List String
  pub set_member_types : List String
  pub fields_in_stack : Dict StorageKey
  pub samples : List Sample

abbrev pub Fields : Type 0
Fields = Dict (FieldType × List FieldAnnotation)

-- A point on the old tree.
pub record OldTreePoint : Type 0 where
  pub name : String
  pub ty : FieldType
  pub node : StorageNode StorageKey

-- Sets of keys and of names as lists.
unfoldable pub contains_storage_key : StorageKey → List StorageKey → Bool
contains_storage_key k [] = false
contains_storage_key k (j ∷ ks) = bytes_eq j k || contains_storage_key k ks

unfoldable pub contains_name : String → List String → Bool
contains_name x [] = false
contains_name x (y ∷ ys) = str_eq y x || contains_name x ys

abbrev pub insert_name : String → List String → List String
insert_name x ys = if contains_name x ys then ys else x ∷ ys

unfoldable pub remove_name : String → List String → List String
remove_name x [] = []
remove_name x (y ∷ ys) = if str_eq y x then remove_name x ys else y ∷ remove_name x ys

unfoldable pub reduce_set : OldTreePoint → Option OldTreePoint
reduce_set p = elim p.ty [
  | set x ↦ elim (Storage.set p.node) [
    | set_of y ↦ some (record p { ty = x; node = y })
    | no_set ↦ none
  ]
  | _ ↦ none
]

unfoldable pub validate_type : FieldType → OldTreePoint → Option OldTreePoint
validate_type expected_ty p = if not (field_type_eq p.ty expected_ty) then none else some p

-- The first of the names under which the old node has a child.
unfoldable pub find_child :
    List String → Children StorageKey → Option (String × StorageNode StorageKey)
find_child [] children = none
find_child (x ∷ altnames) children = elim (get_child x children) [
  | some y ↦ some (x, y)
  | none ↦ find_child altnames children
]

abbrev pub table_of : CompiledSchema → FieldType → Option SpecializedType
table_of old_schema (table type_name) = lookup type_name old_schema.types
table_of old_schema _ = none

unfoldable pub resolve_subfield : CompiledSchema → List String → OldTreePoint → Option OldTreePoint
unfolding find_child
resolve_subfield old_schema altnames p = elim (find_child altnames (Storage.children p.node)) [
  | none ↦ none
  | some (name, child_node) ↦ elim (table_of old_schema p.ty) [
    | none ↦ none
    | some ty ↦ elim (lookup name ty.fields) [
      | none ↦ none
      | some (child_ty, _) ↦ some (record { name = name; ty = child_ty; node = child_node })
    ]
  ]
]

-- Six bytes of the clock before six of the generator; the two upper bytes of the clock must be 0.
abbrev pub candidate : Sample → StorageKey
candidate s = drop_two (be_bytes 8 s.now) ++ s.random
  where
    drop_two : Bytes → Bytes
    drop_two (a ∷ (b ∷ l)) = l
    drop_two _ = []

unfoldable pub draw : List Sample → List StorageKey → Planned (StorageKey × List Sample)
draw [] used = err out_of_samples
draw (s ∷ samples) used = do
  guard (ltb s.now (2 ^ 48)) panicked
  if contains_storage_key (candidate s) used then draw samples used else ok (candidate s, samples)

unfoldable pub rand_storage_key : PlanState → Planned (StorageKey × PlanState)
rand_storage_key st = do
  (k, samples) ← draw st.samples st.used_storage_keys
  ok (k, record st { used_storage_keys = k ∷ st.used_storage_keys; samples = samples })

-- `old_point.map(|x| x.node.key).unwrap_or_else(|| rand_storage_key(plan_st))`
unfoldable pub key_of_point : Option OldTreePoint → PlanState → Planned (StorageKey × PlanState)
key_of_point (some p) st = ok (Storage.key p.node, st)
key_of_point none st = rand_storage_key st

unfoldable pub altnames_of : String → List FieldAnnotation → List String
altnames_of name anns = name ∷ renames anns
  where
    renames : List FieldAnnotation → List String
    renames [] = []
    renames (rename_from x ∷ anns) = x ∷ renames anns
    renames (_ ∷ anns) = renames anns
