-- ===== src/Storage/Planner/Linked.antt =====
-- rdb-analyzer/src/storage_plan/planner.rs: what is known of the keys and references of a node holds
-- by weaker properties and under more nodes.
use refine_db.Prelude.{
  Bool, true, false, ◌||◌, Option, none, some, List, ◌∷◌, bytes_eq, bytes_eq_iff, ◌≡◌, refl,
}
use refine_db.Storage.{
  StorageKey, StorageNode, storage_node, SetNode, no_set, set_of, Children, no_child, child,
}
use refine_db.Storage.Planner.{contains_storage_key}
use refine_db.Storage.Planner.Provenance.{
  IsIn, AllKeys, AllSetKeys, AllChildrenKeys, ReferenceIn, IsLinked, SetIsLinked, ChildrenAreLinked,
}

module _ (P Q : StorageKey → Type 0) (f : (k : StorageKey) → P k → Q k) where
  mutual
    pub AllKeys-map : (x : StorageNode StorageKey) → AllKeys P x → AllKeys Q x
    AllKeys-map (storage_node k g r s c) (hk, hs, hc) =
        (f k hk, AllSetKeys-map s hs, AllChildrenKeys-map c hc)

    pub AllSetKeys-map : (s : SetNode StorageKey) → AllSetKeys P s → AllSetKeys Q s
    AllSetKeys-map no_set h = tt
    AllSetKeys-map (set_of x) h = AllKeys-map x h

    AllChildrenKeys-map : (c : Children StorageKey) → AllChildrenKeys P c → AllChildrenKeys Q c
    AllChildrenKeys-map no_child h = tt
    AllChildrenKeys-map (child n x cs) (h, hs) = (AllKeys-map x h, AllChildrenKeys-map cs hs)

abbrev pub IsWithin : List StorageKey → List StorageKey → Type 0
IsWithin path path' = (k : StorageKey) → IsIn k path → IsIn k path'

or_mono : (b c d : Bool) → (c ≡ true → d ≡ true) → b || c ≡ true → b || d ≡ true
or_mono true c d h e = refl
or_mono false c d h e = h e

or_right : (b c : Bool) → c ≡ true → b || c ≡ true
or_right true c h = refl
or_right false c h = h

pub cons-IsWithin :
    (k : StorageKey) (path path' : List StorageKey)
    → IsWithin path path'
    → IsWithin (k ∷ path) (k ∷ path')
unfolding contains_storage_key
cons-IsWithin k path path' h j e = or_mono (bytes_eq k j) _ _ (h j) e

pub IsIn-tail : (k : StorageKey) (path : List StorageKey) → IsWithin path (k ∷ path)
unfolding contains_storage_key
IsIn-tail k path j e = or_right (bytes_eq k j) _ e

pub IsIn-head : (k : StorageKey) (path : List StorageKey) → IsIn k (k ∷ path)
unfolding contains_storage_key
IsIn-head k path = rw ((bytes_eq_iff k k).1 refl) refl

module _ (P Q : StorageKey → Type 0) (f : (k : StorageKey) → P k → Q k) where
  pub ReferenceIn-map :
      (path path' : List StorageKey)
      → IsWithin path path'
      → (r : Option StorageKey) → ReferenceIn P path r
      → ReferenceIn Q path' r
  ReferenceIn-map path path' w none h = tt
  ReferenceIn-map path path' w (some r) h = w r h

  -- A linked node is linked under more nodes, and by a weaker property.
  mutual
    pub IsLinked-map :
        (path path' : List StorageKey)
        → IsWithin path path'
        → (x : StorageNode StorageKey) → IsLinked P path x
        → IsLinked Q path' x
    IsLinked-map path path' w (storage_node k g r s c) (hk, hr, hs, hc) = (
      f k hk,
      ReferenceIn-map path path' w r hr,
      SetIsLinked-map (k ∷ path) (k ∷ path') (cons-IsWithin k path path' w) s hs,
      ChildrenAreLinked-map (k ∷ path) (k ∷ path') (cons-IsWithin k path path' w) c hc,
    )

    SetIsLinked-map :
        (path path' : List StorageKey)
        → IsWithin path path'
        → (s : SetNode StorageKey) → SetIsLinked P path s
        → SetIsLinked Q path' s
    SetIsLinked-map path path' w no_set h = tt
    SetIsLinked-map path path' w (set_of x) h = IsLinked-map path path' w x h

    pub ChildrenAreLinked-map :
        (path path' : List StorageKey)
        → IsWithin path path'
        → (c : Children StorageKey) → ChildrenAreLinked P path c
        → ChildrenAreLinked Q path' c
    ChildrenAreLinked-map path path' w no_child h = tt
    ChildrenAreLinked-map path path' w (child n x cs) (h, hs) =
        (IsLinked-map path path' w x h, ChildrenAreLinked-map path path' w cs hs)
