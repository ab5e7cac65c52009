-- ===== src/PathWalker.antt =====
-- rdb-analyzer/src/data/pathwalker.rs: from a storage plan to the keys of the key-value store.
-- A walker is shared and never changes, so the `Arc` links are the tree of its constructors; map
-- lookups that also return the stored name return the name that was asked for.
pub mod Keys
pub mod Depth
pub mod Sets
pub mod Examples
use mathlib.Core.List.{reverse}
use refine_db.Prelude.{
  ℕ, ◌+◌, Bytes, bytes_eq, leb, if◌then◌else◌, Bool, true, false, Option, none, some, lookup,
  String, List, [], ◌∷◌, ◌++◌, Result, ok, err, ok_or, ◌>>=◌, ◌>>◌,
}
use refine_db.Value.{PrimitiveValue, serialize_for_key_component}
use refine_db.Storage.{StorageKey, StorageNode, SetNode, no_set, set_of, StoragePlan, get_child}
use refine_db.Storage

pub data PathWalkerError : Type 0 where
  field_not_found : String → PathWalkerError
  enter_field_on_set reference_node_not_found not_set path_too_deep : PathWalkerError

abbrev pub Walked : Type 0 → Type 0
Walked = Result PathWalkerError

abbrev pub max_depth : ℕ
max_depth = 64

-- The fields of `PathWalker` but for its link.
pub record Frame : Type 0 where
  pub node : StorageNode StorageKey
  pub key : Bytes
  pub depth : ℕ
  pub should_flatten : Bool
  pub is_intermediate : Bool
  pub path_segment : Option String

-- `root` has the link `None`, and `linked` the link to its parent.
pub data Walker : Type 0 where
  root : Frame → Walker
  linked : Frame → Walker → Walker

abbrev pub frame : Walker → Frame
frame (root f) = f
frame (linked f parent) = f

abbrev pub node : Walker → StorageNode StorageKey
node w = (frame w).node

unfoldable pub from_export : StoragePlan StorageKey → String → Walked Walker
from_export plan export_name = do
  export ← ok_or (field_not_found export_name) (lookup export_name plan.nodes)
  ok (
      root (record {
        node = export;
        key = Storage.key export;
        depth = 1;
        should_flatten = Storage.flattened export;
        is_intermediate = false;
        path_segment = some export_name;
      }))

-- The loop of `generate_key_raw` over the links: what it pushes, in its order.
abbrev pub push_key : Frame → List Bytes → List Bytes
push_key f rest = if f.should_flatten then rest else f.key ∷ rest

unfoldable pub pushed_from : Walker → List Bytes
pushed_from (root f) = push_key f []
pushed_from (linked f parent) = push_key f (pushed_from parent)

abbrev pub pushed_links : Walker → List Bytes
pushed_links (root f) = []
pushed_links (linked f parent) = pushed_from parent

unfoldable pub generate_key_raw : Walker → List Bytes
unfolding pushed_from
generate_key_raw w = reverse ((frame w).key ∷ pushed_links w)

unfoldable pub concat : List Bytes → Bytes
concat [] = []
concat (c ∷ cs) = c ++ concat cs

unfoldable pub generate_key : Walker → Bytes
unfolding generate_key_raw concat
generate_key w = concat (generate_key_raw w)

unfoldable pub check_and_add_depth : Walker → Walked ℕ
check_and_add_depth w =
    if leb max_depth (frame w).depth then err path_too_deep else ok ((frame w).depth + 1)

-- The loop of `collect_non_intermediate_path_segments_on_path_including_self`, in its order.
abbrev pub push_segment : Frame → List String → List String
push_segment f rest =
    if f.is_intermediate
    then rest
    else elim f.path_segment [ some segment ↦ segment | none ↦ "(selector)" ] ∷ rest

pub pushed_segments : Walker → List String
pushed_segments (root f) = push_segment f []
pushed_segments (linked f parent) = push_segment f (pushed_segments parent)

pub non_intermediate_segments : Walker → List String
non_intermediate_segments w = reverse (pushed_segments w)

abbrev pub push_path : Walker → List (Bytes × List String) → List (Bytes × List String)
push_path w rest =
    if (frame w).is_intermediate then rest else (generate_key w, non_intermediate_segments w) ∷ rest

pub non_intermediate_keys_from : Walker → List (Bytes × List String)
non_intermediate_keys_from (root f) = push_path (root f) []
non_intermediate_keys_from (linked f parent) =
    push_path (linked f parent) (non_intermediate_keys_from parent)

pub all_non_intermediate_keys_on_path_excluding_self : Walker → List (Bytes × List String)
all_non_intermediate_keys_on_path_excluding_self (root f) = []
all_non_intermediate_keys_on_path_excluding_self (linked f parent) =
    non_intermediate_keys_from parent

-- The walk up the list to the node that a subspace reference names.
unfoldable pub find_reference : StorageKey → Walker → Option (StorageNode StorageKey)
find_reference k (root f) = if bytes_eq (Storage.key f.node) k then some f.node else none
find_reference k (linked f parent) =
    if bytes_eq (Storage.key f.node) k then some f.node else find_reference k parent

enter_reference : Walker → String → StorageNode StorageKey → StorageKey → Walked Walker
enter_reference w field_name child reference = do
  target ← ok_or reference_node_not_found (find_reference reference w)
  depth ← check_and_add_depth w
  ok (
      linked
        (record {
          node = target;
          key = Storage.key child;
          depth = depth;
          should_flatten = false;
          is_intermediate = false;
          path_segment = some field_name;
        })
        w)

enter_child : Walker → String → StorageNode StorageKey → Walked Walker
enter_child w field_name child = do
  depth ← check_and_add_depth w
  ok (
      linked
        (record {
          node = child;
          key = Storage.key child;
          depth = depth;
          should_flatten = Storage.flattened child;
          is_intermediate = false;
          path_segment = some field_name;
        })
        w)

-- `if let Some(subspace_reference) = node.subspace_reference`
enter_node : Walker → String → StorageNode StorageKey → Walked Walker
unfolding enter_reference enter_child
enter_node w field_name child = elim (Storage.subspace_reference child) [
  | some reference ↦ enter_reference w field_name child reference
  | none ↦ enter_child w field_name child
]

reject_set : SetNode StorageKey → Walked (Unit {0})
reject_set no_set = ok tt
reject_set (set_of _) = err enter_field_on_set

unfoldable pub enter_field : Walker → String → Walked Walker
unfolding enter_node reject_set
enter_field w field_name = do
  reject_set (Storage.set (node w))
  child ← ok_or (field_not_found field_name) (get_child field_name (Storage.children (node w)))
  enter_node w field_name child

abbrev pub require_set : Walker → Walked (StorageNode StorageKey)
require_set w = elim (Storage.set (node w)) [ no_set ↦ err not_set | set_of x ↦ ok x ]

unfoldable pub set_fast_scan_prefix : Walker → Walked Bytes
set_fast_scan_prefix w = do _ ← require_set w; ok (generate_key w ++ 0x01 ∷ [])

unfoldable pub set_data_prefix : Walker → Walked Bytes
set_data_prefix w = do _ ← require_set w; ok (generate_key w ++ 0x00 ∷ [])

abbrev pub dynamic_key : Bytes → Bytes
dynamic_key primary_key = 0x00 ∷ (primary_key ++ 0x00 ∷ [])

unfoldable pub enter_set_raw : Walker → Bytes → Walked Walker
enter_set_raw w primary_key = do
  set ← require_set w
  depth ← check_and_add_depth w
  let intermediate =
      linked
        (record {
          node = set;
          key = dynamic_key primary_key;
          depth = depth;
          should_flatten = false;
          is_intermediate = true;
          path_segment = none;
        })
        w
  inner ← check_and_add_depth intermediate
  ok (
      linked
        (record {
          node = set;
          key = Storage.key set;
          depth = inner;
          should_flatten = true;
          is_intermediate = false;
          path_segment = none;
        })
        intermediate)

unfoldable pub enter_set : Walker → PrimitiveValue → Walked Walker
unfolding enter_set_raw
enter_set w primary_key = enter_set_raw w (serialize_for_key_component primary_key)

-- `PartialEq`: walkers are equal if their key components are.
unfoldable pub components_eq : List Bytes → List Bytes → Bool
components_eq [] [] = true
components_eq (c ∷ cs) (d ∷ ds) = if bytes_eq c d then components_eq cs ds else false
components_eq _ _ = false

unfoldable pub walker_eq : Walker → Walker → Bool
unfolding components_eq
walker_eq v w = components_eq (generate_key_raw v) (generate_key_raw w)
