-- ===== src/Storage/Planner/Soundness.antt =====
-- rdb-analyzer/src/storage_plan/planner.rs: the keys that `generate_field` gives to a field are those
-- of the old tree or new ones, and its references name nodes on the path to the field.
use refine_db.Storage.Planner.{Fields}
use refine_db.Prelude.{
  ℕ, zero, suc, ◌^◌, ltb, Bool, true, false, not, ◌&&◌, ◌||◌, Option, none, some, String, List, [],
  ◌∷◌, lookup, Option-cases, inl, inr, ◌⊎◌, ◌≡◌, refl, ◌∙◌, guard, Ensures, returns, fails, ◌⟫◌,
  Ensures-any,
}
use refine_db.Prelude.{Ensures-if, ok_or-Ensures}
use refine_db.Schema.{FieldType, table, primitive, set, FieldAnnotation, is_primary, CompiledSchema}
use refine_db.Storage.{
  StorageKey, StorageNode, storage_node, no_set, set_of, Children, no_child, child, insert_child,
}
use refine_db.Storage
use refine_db.Storage.Planner.{
  PlanState, OldTreePoint, Sample, candidate, contains_storage_key, contains_name, draw,
  rand_storage_key, key_of_point, altnames_of, panicked, failed, missing_type,
  set_member_type_without_primary_key,
}
use refine_db.Storage.Planner.Generate.{
  Generator, push, pop, subfield_point, generate_subfields, generate_table, generate_leaf,
  generate_field,
}
use refine_db.Storage.Planner.Provenance.{
  IsIn, ReferenceIn, AllKeys, IsLinked, ChildrenAreLinked, insert_child-ChildrenAreLinked, IsOld,
  and_then-IsOld, validate_type-IsOld, reduce_set-IsOld, resolve_subfield-IsOld,
}
use refine_db.Storage.Planner.Linked.{IsIn-tail, IsIn-head, IsLinked-map, ChildrenAreLinked-map}
use refine_db.Storage.Planner.Steps.{
  IsNew, Steps, Steps-refl, Steps-trans, StackIsOn, StackIsOn-Steps, not_used, push-StackIsOn,
  pop-Steps,
}

module _ (Old : StorageKey → Type 0) where
  abbrev pub Origin : PlanState → PlanState → StorageKey → Type 0
  Origin st st' k = Old k ⊎ IsNew st st' k

  pub Origin-later :
      (a b c : PlanState) → Steps b c → (k : StorageKey) → Origin a b k → Origin a c k
  Origin-later a b c s k (inl h) = inl h
  Origin-later a b c s k (inr (h, i)) = inr (h, s.keeps_used k i)

  pub Origin-earlier :
      (a b c : PlanState) → Steps a b → (k : StorageKey) → Origin b c k → Origin a c k
  Origin-earlier a b c s k (inl h) = inl h
  Origin-earlier a b c s k (inr (h, i)) = inr (not_used _ _ (s.keeps_used k) h, i)

  pop-Origin :
      (b : Bool) (name : String) (k : StorageKey) (st st' : PlanState) (j : StorageKey)
      → Origin (push b name k st) st' j
      → Origin st (pop b name st') j
  pop-Origin true name k st st' j o = o
  pop-Origin false name k st st' j o = o

  abbrev pub Generates : List StorageKey → PlanState → StorageNode StorageKey × PlanState → Type 0
  Generates path st (x, st') = Steps st st' × IsLinked (Origin st st') path x

  abbrev pub IsSound : Generator → Type 0
  IsSound go =
      (field : FieldType) (anns : List FieldAnnotation) (p : Option OldTreePoint)
      (path : List StorageKey) (st : PlanState)
      → IsOld Old p
      → StackIsOn path st
      → Ensures (Generates path st) (go field anns p st)

  draw-Ensures :
      (samples : List Sample) (used : List StorageKey)
      → Ensures (λ (k, _). contains_storage_key k used ≡ false) (draw samples used)
  unfolding draw
  draw-Ensures [] used = fails
  draw-Ensures (s ∷ samples) used = Ensures-any (guard (ltb s.now (2 ^ 48)) panicked) ⟫ λ _ _.
      Ensures-if (contains_storage_key (candidate s) used) (λ _. draw-Ensures samples used)
        (λ h. returns {a = (candidate s, samples)} h)

  old_key : (x : StorageNode StorageKey) → AllKeys Old x → Old (Storage.key x)
  old_key (storage_node k f r s c) (hk, hs, hc) = hk

  key_of_point-Ensures :
      (p : Option OldTreePoint) (st : PlanState)
      → IsOld Old p
      → Ensures (λ (k, st'). Steps st st' × Origin st st' k) (key_of_point p st)
  unfolding key_of_point rand_storage_key
  key_of_point-Ensures (some p) st h =
      returns {a = (Storage.key p.node, st)} (Steps-refl st, inl (old_key p.node h))
  key_of_point-Ensures none st h = draw-Ensures st.samples st.used_storage_keys ⟫ λ (k, samples) n.
      let used : List StorageKey = st.used_storage_keys in
      let st' : PlanState = record st { used_storage_keys = k ∷ used; samples = samples } in
      returns {a = (k, st')} (
        record { keeps_stack = λ n. refl; keeps_used = IsIn-tail k used },
        inr (n, IsIn-head k used),
      )

  reference-ReferenceIn :
      (P : StorageKey → Type 0) (path : List StorageKey) (r : Option StorageKey)
      → ((k : StorageKey) → r ≡ some k → IsIn k path)
      → ReferenceIn P path r
  reference-ReferenceIn P path none h = tt
  reference-ReferenceIn P path (some k) h = h k refl

  generate_leaf-Ensures :
      (r : Option StorageKey) (p : Option OldTreePoint) (path : List StorageKey) (st : PlanState)
      → IsOld Old p
      → ((k : StorageKey) → r ≡ some k → IsIn k path)
      → Ensures (Generates path st) (generate_leaf r p st)
  unfolding generate_leaf
  generate_leaf-Ensures r p path st h hr = key_of_point-Ensures p st h ⟫ λ (k, st') (s, o).
      returns {a = (storage_node k false r no_set no_child, st')}
        (s, (o, reference-ReferenceIn (Origin st st') path r hr, tt, tt))

  module _ (go : Generator) (sound : IsSound go) (old_schema : CompiledSchema) where
    generate_subfields-Ensures :
        (p : Option OldTreePoint) (path : List StorageKey) (fields : Fields)
        (cs : Children StorageKey) (b : Bool) (st0 st : PlanState)
        → IsOld Old p
        → StackIsOn path st
        → Steps st0 st
        → ChildrenAreLinked (Origin st0 st) path cs
        → Ensures
            (λ ((cs', _), st'). Steps st0 st' × ChildrenAreLinked (Origin st0 st') path cs')
            (generate_subfields go old_schema p fields cs b st)
    unfolding generate_subfields subfield_point
    generate_subfields-Ensures p path [] cs b st0 st hp hs s hc =
        returns {a = ((cs, b), st)} (s, hc)
    generate_subfields-Ensures p path ((name, (ty, anns)) ∷ fields) cs b st0 st hp hs s hc =
        sound ty anns (subfield_point old_schema name ty anns p) path st
          (and_then-IsOld Old _ _
            (and_then-IsOld Old p _ hp
              (resolve_subfield-IsOld Old old_schema (altnames_of name anns)))
            (validate_type-IsOld Old ty))
          hs
        ⟫ λ (x, st') (s', hx).
            generate_subfields-Ensures p path fields (insert_child name x cs) (b || is_primary anns)
              st0 st' hp (StackIsOn-Steps path st st' s' hs) (Steps-trans st0 st st' s s')
              (insert_child-ChildrenAreLinked (Origin st0 st') path name x cs
                (IsLinked-map _ _ (Origin-earlier st0 st st' s) path path (λ k h. h) x hx)
                (ChildrenAreLinked-map _ _ (Origin-later st0 st st' s') path path (λ k h. h) cs hc))

    generate_table-Ensures :
        (schema : CompiledSchema) (name : String) (p : Option OldTreePoint) (path : List StorageKey)
        (st : PlanState)
        → IsOld Old p
        → StackIsOn path st
        → lookup name st.fields_in_stack ≡ none
        → Ensures (Generates path st) (generate_table go old_schema schema name p st)
    unfolding generate_table
    generate_table-Ensures schema name p path st hp hs hn =
        ok_or-Ensures (failed (missing_type name)) (lookup name schema.types) ⟫ λ ty _.
        key_of_point-Ensures p st hp ⟫ λ (k, st1) (s1, o1).
        let b : Bool = contains_name name st1.recursive_types in
        generate_subfields-Ensures p (k ∷ path) ty.fields no_child false (push b name k st1)
          (push b name k st1) hp
          (push-StackIsOn b name k path st1 (StackIsOn-Steps path st st1 s1 hs)) (Steps-refl _) tt
        ⟫ λ ((cs, primary), st2) (s2, hc).
            Ensures-any (
              guard (not (contains_name name (pop b name st2).set_member_types && not primary))
                (failed (set_member_type_without_primary_key ty.name)))
            ⟫ λ _ _.
                let s3 : Steps st1 (pop b name st2) =
                  pop-Steps b name k st1 st2 (s1.keeps_stack name ∙ hn) s2 in
                returns {a = (storage_node k true none no_set cs, pop b name st2)} (
                  Steps-trans st st1 _ s1 s3,
                  (
                    Origin-later st st1 _ s3 k o1,
                    tt,
                    tt,
                    ChildrenAreLinked-map _ _
                        (λ j o.
                          Origin-earlier st st1 (pop b name st2) s1 j
                            (pop-Origin b name k st1 st2 j o))
                        (k ∷ path) (k ∷ path) (λ k h. h) cs hc,
                  ),
                )

  pub generate_field-IsSound :
      (fuel : ℕ) (old_schema schema : CompiledSchema)
      → IsSound (generate_field fuel old_schema schema)
  unfolding generate_field
  generate_field-IsSound zero old_schema schema field anns p path st hp hs = fails
  generate_field-IsSound (suc fuel) old_schema schema (primitive x) anns p path st hp hs =
      generate_leaf-Ensures none p path st hp (λ k e. cc)
  generate_field-IsSound (suc fuel) old_schema schema (set x) anns p path st hp hs =
      generate_field-IsSound fuel old_schema schema x [] _ path st
        (and_then-IsOld Old _ _ (and_then-IsOld Old p _ hp (reduce_set-IsOld Old))
          (validate_type-IsOld Old x))
        hs
      ⟫ λ (inner, st') (s, h). key_of_point-Ensures p st' hp ⟫ λ (k, st'') (s', o).
          returns {a = (storage_node k false none (set_of inner) no_child, st'')} (
            Steps-trans st st' st'' s s',
            (
              Origin-earlier st st' st'' s k o,
              tt,
              IsLinked-map _ _ (Origin-later st st' st'' s') path (k ∷ path) (IsIn-tail k path)
                  inner h,
              tt,
            ),
          )
  generate_field-IsSound (suc fuel) old_schema schema (table name) anns p path st hp hs =
      elim (Option-cases (lookup name st.fields_in_stack)) [
        | inr (k, e) ↦
            rw (e, generate_field)
              (generate_leaf-Ensures (some k) p path st hp (λ j q. hs name j (e ∙ q)))
        | inl e ↦
            rw (e, generate_field)
              (generate_table-Ensures (generate_field fuel old_schema schema)
                (generate_field-IsSound fuel old_schema schema) old_schema schema name p path st hp
                hs e)
      ]
