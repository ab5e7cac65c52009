-- ===== src/Storage.antt =====
-- rdb-analyzer/src/storage_plan/mod.rs: the tree of storage nodes that a plan assigns to a schema.
-- `Option<Box<StorageNode>>` and the map of children are types of the same block.
pub mod Conversion
pub mod Planner
use refine_db.Prelude.{
  Bytes, String, str_eq, str_lt, if◌then◌else◌, Bool, true, false, ◌&&◌, Option, none, some, Dict,
  length, ◌≡◌, All, List, [], ◌∷◌,
}

-- `[u8; 12]`; that it holds twelve bytes is `IsStorageKey`.
abbrev pub StorageKey : Type 0
StorageKey = Bytes

abbrev pub IsStorageKey : StorageKey → Type 0
IsStorageKey k = length k ≡ 12

mutual
  pub data StorageNode (SK : Type 0) : Type 0 where
    -- key, flattened, subspace_reference, set, children
    storage_node : SK → Bool → Option SK → SetNode SK → Children SK → StorageNode SK

  pub data SetNode (SK : Type 0) : Type 0 where
    no_set : SetNode SK
    set_of : StorageNode SK → SetNode SK

  pub data Children (SK : Type 0) : Type 0 where
    no_child : Children SK
    child : String → StorageNode SK → Children SK → Children SK

pub record StoragePlan (SK : Type 0) : Type 0 where
  pub nodes : Dict (StorageNode SK)

module _ {SK : Type 0} where
  abbrev pub key : StorageNode SK → SK
  key (storage_node k f r s c) = k

  abbrev pub flattened : StorageNode SK → Bool
  flattened (storage_node k f r s c) = f

  abbrev pub subspace_reference : StorageNode SK → Option SK
  subspace_reference (storage_node k f r s c) = r

  abbrev pub set : StorageNode SK → SetNode SK
  set (storage_node k f r s c) = s

  abbrev pub children : StorageNode SK → Children SK
  children (storage_node k f r s c) = c

  -- `children.get(name)`
  unfoldable pub get_child : String → Children SK → Option (StorageNode SK)
  get_child name no_child = none
  get_child name (child n x cs) = if str_eq n name then some x else get_child name cs

  -- `children.insert(name, node)`
  unfoldable pub insert_child : String → StorageNode SK → Children SK → Children SK
  insert_child name x no_child = child name x no_child
  insert_child name x (child n y cs) =
      if str_eq n name
      then child name x cs
      else (if str_lt name n
          then child name x (child n y cs)
          else child n y (insert_child name x cs))

abbrev pub ReferenceIsStorageKey : Option StorageKey → Type 0
ReferenceIsStorageKey none = Unit
ReferenceIsStorageKey (some r) = IsStorageKey r

-- Every key of a node and of the nodes below it holds twelve bytes.
abbrev mutual
  pub HasStorageKeys : StorageNode StorageKey → Type 0
  HasStorageKeys (storage_node k f r s c) =
      IsStorageKey k × ReferenceIsStorageKey r × SetHasStorageKeys s × ChildrenHaveStorageKeys c

  pub SetHasStorageKeys : SetNode StorageKey → Type 0
  SetHasStorageKeys no_set = Unit
  SetHasStorageKeys (set_of x) = HasStorageKeys x

  pub ChildrenHaveStorageKeys : Children StorageKey → Type 0
  ChildrenHaveStorageKeys no_child = Unit
  ChildrenHaveStorageKeys (child n x cs) = HasStorageKeys x × ChildrenHaveStorageKeys cs

abbrev pub NodesHaveStorageKeys : Dict (StorageNode StorageKey) → Type 0
NodesHaveStorageKeys = All (λ p. HasStorageKeys p.1)

abbrev pub PlanHasStorageKeys : StoragePlan StorageKey → Type 0
PlanHasStorageKeys p = NodesHaveStorageKeys p.nodes
