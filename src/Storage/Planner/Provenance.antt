-- ===== src/Storage/Planner/Provenance.antt =====
-- rdb-analyzer/src/storage_plan/planner.rs: where the keys of a plan come from, and which nodes its
-- references name.
use refine_db.Prelude.{
  Bool, true, false, Option, none, some, String, str_eq, str_lt, if◌then◌else◌, List, [], ◌∷◌,
  lookup, Option-cases, Bool-cases, inl, inr, ◌≡◌, subst,
}
use refine_db.Prelude.{◌∙◌, not}
use refine_db.Schema.{field_type_eq, FieldType, table, primitive, set, CompiledSchema}
use refine_db.Storage.{
  StorageKey, StorageNode, storage_node, SetNode, no_set, set_of, Children, no_child, child,
  get_child, insert_child,
}
use refine_db.Storage
use refine_db.Storage.Planner.{
  OldTreePoint, contains_storage_key, reduce_set, validate_type, find_child, resolve_subfield,
  table_of,
}
use refine_db.Storage.Planner.Generate.{and_then}

abbrev pub IsIn : StorageKey → List StorageKey → Type 0
IsIn k ks = contains_storage_key k ks ≡ true

same_child :
    (a n : String) (y x : StorageNode StorageKey)
    → ◌≡◌ {A = Option (String × StorageNode StorageKey)} (some (a, y)) (some (n, x))
    → some y ≡ some x
same_child a n y x h = cc

module _ (P : StorageKey → Type 0) where
  -- Every key of a node and of the nodes below it has the property.
  abbrev mutual
    pub AllKeys : StorageNode StorageKey → Type 0
    AllKeys (storage_node k f r s c) = P k × AllSetKeys s × AllChildrenKeys c

    pub AllSetKeys : SetNode StorageKey → Type 0
    AllSetKeys no_set = Unit
    AllSetKeys (set_of x) = AllKeys x

    pub AllChildrenKeys : Children StorageKey → Type 0
    AllChildrenKeys no_child = Unit
    AllChildrenKeys (child _ x cs) = AllKeys x × AllChildrenKeys cs

  abbrev pub ReferenceIn : List StorageKey → Option StorageKey → Type 0
  ReferenceIn path none = Unit
  ReferenceIn path (some r) = IsIn r path

  -- Moreover each reference names a node on the path from the export, whose keys are `path`.
  abbrev mutual
    pub IsLinked : List StorageKey → StorageNode StorageKey → Type 0
    IsLinked path (storage_node k f r s c) =
        P k × ReferenceIn path r × SetIsLinked (k ∷ path) s × ChildrenAreLinked (k ∷ path) c

    pub SetIsLinked : List StorageKey → SetNode StorageKey → Type 0
    SetIsLinked path no_set = Unit
    SetIsLinked path (set_of x) = IsLinked path x

    pub ChildrenAreLinked : List StorageKey → Children StorageKey → Type 0
    ChildrenAreLinked path no_child = Unit
    ChildrenAreLinked path (child _ x cs) = IsLinked path x × ChildrenAreLinked path cs

  ChildrenAreLinked-if :
      (b : Bool) (path : List StorageKey) (c d : Children StorageKey)
      → ChildrenAreLinked path c
      → ChildrenAreLinked path d
      → ChildrenAreLinked path (if b then c else d)
  ChildrenAreLinked-if true path c d h i = h
  ChildrenAreLinked-if false path c d h i = i

  pub insert_child-ChildrenAreLinked :
      (path : List StorageKey) (name : String) (x : StorageNode StorageKey)
      (c : Children StorageKey)
      → IsLinked path x
      → ChildrenAreLinked path c
      → ChildrenAreLinked path (insert_child name x c)
  unfolding insert_child
  insert_child-ChildrenAreLinked path name x no_child h hc = (h, tt)
  insert_child-ChildrenAreLinked path name x (child n y cs) h (hy, hc) =
      ChildrenAreLinked-if (str_eq n name) path (child name x cs) _ (h, hc)
        (ChildrenAreLinked-if (str_lt name n) path (child name x (child n y cs)) _ (h, (hy, hc))
          (hy, insert_child-ChildrenAreLinked path name x cs h hc))

  get_child-AllKeys :
      (name : String) (c : Children StorageKey) (x : StorageNode StorageKey)
      → AllChildrenKeys c
      → get_child name c ≡ some x
      → AllKeys x
  unfolding get_child
  get_child-AllKeys name no_child x h e = cc
  get_child-AllKeys name (child n y cs) x (h, hs) e = elim (Bool-cases (str_eq n name)) [
    | inl p ↦ subst AllKeys (cc (rw p at e)) h
    | inr p ↦ get_child-AllKeys name cs x hs (rw p at e)
  ]

  -- A point of the old tree below which every key has the property, if there is one.
  abbrev pub IsOld : Option OldTreePoint → Type 0
  IsOld none = Unit
  IsOld (some p) = AllKeys p.node

  pub and_then-IsOld :
      (p : Option OldTreePoint) (f : OldTreePoint → Option OldTreePoint)
      → IsOld p
      → ((q : OldTreePoint) → AllKeys q.node → IsOld (f q))
      → IsOld (and_then p f)
  and_then-IsOld none f h k = tt
  and_then-IsOld (some q) f h k = k q h

  IsOld-if : (b : Bool) (p : OldTreePoint) → AllKeys p.node → IsOld (if b then none else some p)
  IsOld-if true p h = tt
  IsOld-if false p h = h

  pub validate_type-IsOld :
      (ty : FieldType) (p : OldTreePoint) → AllKeys p.node → IsOld (validate_type ty p)
  unfolding validate_type
  validate_type-IsOld ty p h = IsOld-if (not (field_type_eq p.ty ty)) p h

  reduced :
      (name : String) (ty : FieldType) (x : StorageNode StorageKey)
      → AllKeys x
      → IsOld (reduce_set (record { name = name; ty = ty; node = x }))
  unfolding reduce_set
  reduced name (table n) x h = tt
  reduced name (primitive n) x h = tt
  reduced name (set ty) (storage_node k f r no_set c) h = tt
  reduced name (set ty) (storage_node k f r (set_of y) c) (hk, hs, hc) = hs

  pub reduce_set-IsOld : (p : OldTreePoint) → AllKeys p.node → IsOld (reduce_set p)
  reduce_set-IsOld p h = reduced p.name p.ty p.node h

  find_child-AllKeys :
      (altnames : List String) (c : Children StorageKey) (n : String) (x : StorageNode StorageKey)
      → AllChildrenKeys c
      → find_child altnames c ≡ some (n, x)
      → AllKeys x
  unfolding find_child
  find_child-AllKeys [] c n x h e = cc
  find_child-AllKeys (a ∷ altnames) c n x h e = elim (Option-cases (get_child a c)) [
    | inl p ↦ find_child-AllKeys altnames c n x h (rw (p, find_child) at e)
    | inr (y, p) ↦ get_child-AllKeys a c x h (p ∙ same_child a n y x (rw (p, find_child) at e))
  ]

  children-AllKeys : (x : StorageNode StorageKey) → AllKeys x → AllChildrenKeys (Storage.children x)
  children-AllKeys (storage_node k f r s c) (hk, hs, hc) = hc

  pub resolve_subfield-IsOld :
      (old_schema : CompiledSchema) (altnames : List String) (p : OldTreePoint)
      → AllKeys p.node
      → IsOld (resolve_subfield old_schema altnames p)
  unfolding resolve_subfield
  resolve_subfield-IsOld old_schema altnames p h =
      elim (Option-cases (find_child altnames (Storage.children p.node))) [
        | inl e ↦ rw (e, resolve_subfield) tt
        | inr ((name, x), e) ↦
            let hx =
              find_child-AllKeys altnames (Storage.children p.node) name x
                (children-AllKeys p.node h) e in
            elim (Option-cases (table_of old_schema p.ty)) [
              | inl q ↦ rw (e, q, resolve_subfield) tt
              | inr (ty, q) ↦ elim (Option-cases (lookup name ty.fields)) [
                | inl r ↦ rw (e, q, r, resolve_subfield) tt
                | inr (found, r) ↦ rw (e, q, r, resolve_subfield) hx
              ]
            ]
      ]
