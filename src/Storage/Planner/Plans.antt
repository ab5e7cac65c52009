-- ===== src/Storage/Planner/Plans.antt =====
-- rdb-analyzer/src/storage_plan/planner.rs: the plans that `generate_plan_for_schema` returns.
use refine_db.Storage.Planner.Special.{collect_exports, no_special_types}
use refine_db.Prelude.{
  ℕ, false, none, some, String, List, [], ◌∷◌, Dict, lookup, insert, All, All-insert, Option-cases,
  inl, inr, ◌⊎◌, ◌≡◌, refl, Ensures, returns, ◌⟫◌, Ensures-any,
}
use refine_db.Schema.{FieldType, CompiledSchema}
use refine_db.Storage.{
  StorageKey, StorageNode, storage_node, SetNode, no_set, set_of, Children, no_child, child,
  StoragePlan,
}
use refine_db.Storage.Planner.{PlanState, Sample, contains_storage_key}
use refine_db.Storage.Planner.Generate.{
  collect_storage_keys, collect_set_keys, collect_children_keys, collect_plan_keys, export_point,
  generate_exports, generate_plan_for_schema,
}
use refine_db.Storage.Planner.Generate.{initial_state}
use refine_db.Storage.Planner.Provenance.{
  IsIn, AllKeys, AllSetKeys, AllChildrenKeys, IsLinked, IsOld, validate_type-IsOld,
}
use refine_db.Storage.Planner.Linked.{
  IsIn-head, IsIn-tail, IsWithin, AllKeys-map, AllSetKeys-map, IsLinked-map,
}
use refine_db.Storage.Planner.Steps.{StackIsOn, StackIsOn-Steps, not_used}
use refine_db.Storage.Planner.Soundness.{Origin, generate_field-IsSound}

-- What is collected is kept, and every key of a node is collected.
mutual
  unfolding collect_storage_keys collect_set_keys collect_children_keys

  collect_storage_keys-IsWithin :
      (x : StorageNode StorageKey) (sink : List StorageKey)
      → IsWithin sink (collect_storage_keys x sink)
  collect_storage_keys-IsWithin (storage_node k f r s c) sink j h =
      collect_children_keys-IsWithin c _ j (collect_set_keys-IsWithin s _ j (IsIn-tail k sink j h))

  collect_set_keys-IsWithin :
      (s : SetNode StorageKey) (sink : List StorageKey) → IsWithin sink (collect_set_keys s sink)
  collect_set_keys-IsWithin no_set sink j h = h
  collect_set_keys-IsWithin (set_of x) sink j h = collect_storage_keys-IsWithin x sink j h

  collect_children_keys-IsWithin :
      (c : Children StorageKey) (sink : List StorageKey)
      → IsWithin sink (collect_children_keys c sink)
  collect_children_keys-IsWithin no_child sink j h = h
  collect_children_keys-IsWithin (child n x cs) sink j h =
      collect_children_keys-IsWithin cs _ j (collect_storage_keys-IsWithin x sink j h)

mutual
  unfolding collect_storage_keys collect_set_keys collect_children_keys

  collected :
      (x : StorageNode StorageKey) (sink : List StorageKey)
      → AllKeys (λ k. IsIn k (collect_storage_keys x sink)) x
  collected (storage_node k f r s c) sink = (
    collect_children_keys-IsWithin c _ k (collect_set_keys-IsWithin s _ k (IsIn-head k sink)),
    AllSetKeys-map _ _ (λ k' h. collect_children_keys-IsWithin c _ k' h) s
        (collected_set s (k ∷ sink)),
    collected_children c (collect_set_keys s (k ∷ sink)),
  )

  collected_set :
      (s : SetNode StorageKey) (sink : List StorageKey)
      → AllSetKeys (λ k. IsIn k (collect_set_keys s sink)) s
  collected_set no_set sink = tt
  collected_set (set_of x) sink = collected x sink

  collected_children :
      (c : Children StorageKey) (sink : List StorageKey)
      → AllChildrenKeys (λ k. IsIn k (collect_children_keys c sink)) c
  collected_children no_child sink = tt
  collected_children (child n x cs) sink = (
    AllKeys-map _ _ (λ k h. collect_children_keys-IsWithin cs _ k h) x (collected x sink),
    collected_children cs (collect_storage_keys x sink),
  )

-- The keys that the old plan has for an export.
pub export_keys : StoragePlan StorageKey → String → List StorageKey
export_keys old_plan name = elim (lookup name old_plan.nodes) [
  | none ↦ []
  | some x ↦ collect_storage_keys x []
]

-- A key that the old plan has for this export, or that it has nowhere.
abbrev pub IsKeptOrNew : StoragePlan StorageKey → String → StorageKey → Type 0
IsKeptOrNew old_plan name k =
    IsIn k (export_keys old_plan name)
    ⊎ (contains_storage_key k (collect_plan_keys old_plan.nodes []) ≡ false)

abbrev pub NodesAreLinked : StoragePlan StorageKey → Dict (StorageNode StorageKey) → Type 0
NodesAreLinked old_plan nodes = All (λ (name, x). IsLinked (IsKeptOrNew old_plan name) [] x) nodes

export_point-IsOld :
    (old_plan : StoragePlan StorageKey) (old_schema : CompiledSchema) (name : String)
    (ty : FieldType)
    → IsOld (λ k. IsIn k (export_keys old_plan name)) (export_point old_plan old_schema name ty)
unfolding export_point export_keys
export_point-IsOld old_plan old_schema name ty =
    elim (Option-cases (lookup name old_schema.exports)) [
      | inl e ↦ rw (e, export_point) tt
      | inr (t, e) ↦ elim (Option-cases (lookup name old_plan.nodes)) [
        | inl q ↦ rw (e, q, export_point) tt
        | inr (x, q) ↦
            rw (e, q, export_point, export_keys)
              (validate_type-IsOld _ ty (record { name = name; ty = t; node = x }) (collected x []))
      ]
    ]

kept_or_new :
    (old_plan : StoragePlan StorageKey) (name : String) (st st' : PlanState)
    → IsWithin (collect_plan_keys old_plan.nodes []) st.used_storage_keys
    → (k : StorageKey) → Origin (λ k. IsIn k (export_keys old_plan name)) st st' k
    → IsKeptOrNew old_plan name k
kept_or_new old_plan name st st' hu k (inl h) = inl h
kept_or_new old_plan name st st' hu k (inr (h, _)) = inr (not_used _ _ (hu k) h)

empty_stack :
    (path : List StorageKey) (st : PlanState) → st.fields_in_stack ≡ [] → StackIsOn path st
unfolding lookup
empty_stack path st h n k e = cc (rw h at e)

module _ (fuel : ℕ) (old_plan : StoragePlan StorageKey) (old_schema schema : CompiledSchema) where
  generate_exports-Ensures :
      (exports : Dict FieldType) (nodes : Dict (StorageNode StorageKey)) (st : PlanState)
      → NodesAreLinked old_plan nodes
      → IsWithin (collect_plan_keys old_plan.nodes []) st.used_storage_keys
      → StackIsOn [] st
      → Ensures
          (λ (nodes', _). NodesAreLinked old_plan nodes')
          (generate_exports fuel old_plan old_schema schema exports nodes st)
  unfolding generate_exports
  generate_exports-Ensures [] nodes st hn hu hs = returns {a = (nodes, st)} hn
  generate_exports-Ensures ((name, field) ∷ exports) nodes st hn hu hs =
      let Old : StorageKey → Type 0 = λ k. IsIn k (export_keys old_plan name) in
      generate_field-IsSound Old fuel old_schema schema field []
        (export_point old_plan old_schema name field) [] st
        (export_point-IsOld old_plan old_schema name field) hs
      ⟫ λ (x, st') (s, h).
          generate_exports-Ensures exports (insert name x nodes) st'
            (All-insert _ name x nodes
              (IsLinked-map (Origin Old st st') (IsKeptOrNew old_plan name)
                (kept_or_new old_plan name st st' hu) [] [] (λ k h. h) x h)
              hn)
            (λ k h. s.keeps_used k (hu k h)) (StackIsOn-Steps [] st st' s hs)

  -- In a plan that `generate_plan_for_schema` returns, a key at or below an export is one that the old
  -- plan has at or below the export of that name, or one that the old plan has nowhere; and a reference
  -- names the key of a node on the path from the export to it.
  pub generate_plan-NodesAreLinked :
      (samples : List Sample)
      → Ensures
          (λ plan. NodesAreLinked old_plan plan.nodes)
          (generate_plan_for_schema fuel samples old_plan old_schema schema)
  unfolding generate_plan_for_schema
  generate_plan-NodesAreLinked samples =
      Ensures-any (collect_exports fuel schema schema.exports no_special_types) ⟫ λ special _.
      let st : PlanState = initial_state samples old_plan special in
      generate_exports-Ensures schema.exports [] st tt (λ k h. h) (empty_stack [] st refl)
      ⟫ λ (nodes, _) h. returns {a = record { nodes = nodes }} h
