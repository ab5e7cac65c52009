-- ===== src/PathWalker/Depth.antt =====
-- rdb-analyzer/src/data/pathwalker.rs: the walkers that exist, and the bound on their depth.
use refine_db.Prelude.{
  ℕ, suc, ◌+◌, ◌≤◌, Bytes, true, false, String, none, Option-cases, lookup, ◌≡◌, refl, inl, inr, ok,
  Ensures, returns, fails, ◌⟫◌, Ensures-elim, Ensures-any, weaken, arith,
}
use refine_db.Storage
use refine_db.Storage.{
  StorageNode, storage_node, StorageKey, StoragePlan, SetNode, no_set, set_of, get_child,
}
use refine_db.PathWalker.{
  Walker, root, linked, frame, node, from_export, enter_field, reject_set, enter_set_raw,
  require_set, max_depth, dynamic_key,
}
use refine_db.PathWalker.Keys.{LinkedTo, check_and_add_depth_lem, enter_field-LinkedTo}

no_field :
    (w : Walker) (name : String)
    → get_child name (Storage.children (node w)) ≡ none
    → Ensures (λ w'. (k : Bytes) × LinkedTo w k w') (enter_field w name)
unfolding enter_field
no_field w name e = Ensures-any (reject_set (Storage.set (node w))) ⟫ λ _ _. rw e fails

-- A field is entered by one link from its table.
pub enter_field-linked :
    (w : Walker) (name : String)
    → Ensures (λ w'. (k : Bytes) × LinkedTo w k w') (enter_field w name)
enter_field-linked w name = elim (Option-cases (get_child name (Storage.children (node w)))) [
  | inl e ↦ no_field w name e
  | inr (c, e) ↦ weaken (λ w' h. (Storage.key c, h)) (enter_field-LinkedTo w name e)
]

-- An element is entered by two links from its set, the first for the dynamic key.
abbrev pub ElementOf : Walker → Bytes → Walker → Type 0
ElementOf w pk (linked f (linked g parent)) =
    (parent ≡ w)
    × (g.key ≡ dynamic_key pk)
    × (g.should_flatten ≡ false)
    × (f.should_flatten ≡ true)
    × (g.depth ≡ (frame w).depth + 1)
    × (f.depth ≡ (frame w).depth + 2)
    × (f.depth ≤ max_depth)
ElementOf w pk _ = ⊥

pub enter_set_raw-ElementOf :
    (w : Walker) (pk : Bytes) → Ensures (ElementOf w pk) (enter_set_raw w pk)
unfolding enter_set_raw
enter_set_raw-ElementOf w pk = Ensures-any (require_set w) ⟫ λ set _.
    check_and_add_depth_lem w ⟫ λ d h. check_and_add_depth_lem _ ⟫ λ d' h'.
    returns (refl, refl, refl, refl, h.0, omega arith, omega arith)

-- The walkers that a client can hold: from an export, by fields and elements.
pub data IsWalker (plan : StoragePlan StorageKey) : Walker → Type 0 where
  export : {w : Walker} (name : String) → from_export plan name ≡ ok w → IsWalker plan w
  field :
      {v w : Walker} (name : String) → IsWalker plan v → enter_field v name ≡ ok w → IsWalker plan w
  element :
      {v w : Walker} (pk : Bytes) → IsWalker plan v → enter_set_raw v pk ≡ ok w → IsWalker plan w

-- The number of walkers on the path to the export.
abbrev pub path_length : Walker → ℕ
path_length (root f) = 1
path_length (linked f parent) = suc (path_length parent)

abbrev pub HasDepth : Walker → Type 0
HasDepth w = ((frame w).depth ≡ path_length w) × ((frame w).depth ≤ max_depth)

from_export-HasDepth :
    (plan : StoragePlan StorageKey) (name : String) → Ensures HasDepth (from_export plan name)
unfolding from_export
from_export-HasDepth plan name = elim (Option-cases (lookup name plan.nodes)) [
  | inl e ↦ rw e fails
  | inr (x, e) ↦ rw e (returns (refl, omega arith))
]

LinkedTo-HasDepth : (v w : Walker) (k : Bytes) → HasDepth v → LinkedTo v k w → HasDepth w
LinkedTo-HasDepth v (root f) k h l = absurd l
LinkedTo-HasDepth v (linked f parent) k h l = (rw (l.0, l.2) (omega arith), omega arith)

ElementOf-HasDepth : (v w : Walker) (pk : Bytes) → HasDepth v → ElementOf v pk w → HasDepth w
ElementOf-HasDepth v (root f) pk h l = absurd l
ElementOf-HasDepth v (linked f (root g)) pk h l = absurd l
ElementOf-HasDepth v (linked f (linked g parent)) pk h l = (rw (l.0, l.5) (omega arith), l.6)

-- Every walker knows the length of its path, and no path is longer than the maximum.
pub IsWalker-HasDepth : (plan : StoragePlan StorageKey) (w : Walker) → IsWalker plan w → HasDepth w
IsWalker-HasDepth plan w (export name e) = Ensures-elim (from_export-HasDepth plan name) e
IsWalker-HasDepth plan w (field {v} name r e) =
    let (k, l) = Ensures-elim (enter_field-linked v name) e in
    LinkedTo-HasDepth v w k (IsWalker-HasDepth plan v r) l
IsWalker-HasDepth plan w (element {v} pk r e) =
    ElementOf-HasDepth v w pk (IsWalker-HasDepth plan v r)
      (Ensures-elim (enter_set_raw-ElementOf v pk) e)
