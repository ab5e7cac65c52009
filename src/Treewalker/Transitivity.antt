-- ===== src/Treewalker/Transitivity.antt =====
-- rdb-analyzer/src/data/treewalker/vm_value.rs: `is_covariant_from` composes.
use refine_db.Prelude.{
  String, Bool, true, false, if◌then◌else◌, some, ◌≡◌, refl, sym, subst, inl, inr,
}
use refine_db.Treewalker.Types.{
  VmType, MapFields, primitive, table, set, bool, list, map, unknown, schema, no_field, field,
  map_get, vm_type_eq, map_fields_eq, is_covariant_from, fields_are_covariant,
}
use refine_db.Treewalker.Covariance.{vm_type_eq-true, maps_cases, field_step, deep_read}

map_is_no_other :
    (x : MapFields) (u : VmType)
    → is_covariant_from (map x) u ≡ true
    → (y : MapFields) × (u ≡ map y)
unfolding is_covariant_from vm_type_eq
map_is_no_other x (map y) h = (y, refl)
map_is_no_other x _ h = cc

deep :
    (x y : MapFields) → fields_are_covariant x y ≡ true → is_covariant_from (map x) (map y) ≡ true
unfolding is_covariant_from
deep x y h = either (map_fields_eq x y) _ h
  where
    either : (b d : Bool) → d ≡ true → (if b then true else d) ≡ true
    either true d h = refl
    either false d h = h

next_field :
    (k : String) (t u : VmType) (x y : MapFields)
    → map_get k y ≡ some u
    → is_covariant_from t u ≡ true
    → fields_are_covariant x y ≡ true
    → fields_are_covariant (field k t x) y ≡ true
unfolding fields_are_covariant
next_field k t u x y e c r = rw (e, fields_are_covariant) (rw c r)

abbrev Composes : VmType → Type 0
Composes t =
    (u v : VmType)
    → is_covariant_from t u ≡ true
    → is_covariant_from u v ≡ true
    → is_covariant_from t v ≡ true

-- For a type that is no map, covariance is equality.
equal :
    (t u v : VmType)
    → vm_type_eq t u ≡ true
    → is_covariant_from u v ≡ true
    → is_covariant_from t v ≡ true
equal t u v h k = subst (λ s. is_covariant_from s v ≡ true) (sym (vm_type_eq-true t u h)) k

abbrev FieldsCompose : MapFields → Type 0
FieldsCompose x =
    (y z : MapFields)
    → fields_are_covariant x y ≡ true
    → fields_are_covariant y z ≡ true
    → fields_are_covariant x z ≡ true

three_maps :
    (x y z : MapFields)
    → FieldsCompose x
    → is_covariant_from (map x) (map y) ≡ true
    → is_covariant_from (map y) (map z) ≡ true
    → is_covariant_from (map x) (map z) ≡ true
three_maps x y z f h k = elim (maps_cases x y h) [
  | inl p ↦ subst (λ m. is_covariant_from (map m) (map z) ≡ true) (sym p) k
  | inr d ↦ elim (maps_cases y z k) [
    | inl q ↦ subst (λ m. is_covariant_from (map x) (map m) ≡ true) q h
    | inr e ↦ deep x z (f y z d e)
  ]
]

maps_compose : (x : MapFields) → FieldsCompose x → Composes (map x)
maps_compose x f u v h k =
    let (y, p) = map_is_no_other x u h in
    let (z, q) = map_is_no_other y v (subst (λ s. is_covariant_from s v ≡ true) p k) in
    subst (λ s. is_covariant_from (map x) s ≡ true) (sym q)
      (three_maps x y z f (subst (λ s. is_covariant_from (map x) s ≡ true) p h) (
        subst (λ s. is_covariant_from s (map z) ≡ true) p
          (subst (λ s. is_covariant_from u s ≡ true) q k)))

mutual
  unfolding is_covariant_from fields_are_covariant

  all_compose : (t : VmType) → Composes t
  all_compose (map x) u v h k = maps_compose x (fields_compose x) u v h k
  all_compose (primitive p) u v h k = equal (primitive p) u v h k
  all_compose (table n) u v h k = equal (table n) u v h k
  all_compose (set t) u v h k = equal (set t) u v h k
  all_compose bool u v h k = equal bool u v h k
  all_compose (list t) u v h k = equal (list t) u v h k
  all_compose unknown u v h k = equal unknown u v h k
  all_compose schema u v h k = equal schema u v h k

  fields_compose : (x : MapFields) → FieldsCompose x
  fields_compose no_field y z h k = refl
  fields_compose (field n t x) y z h k =
      let (u, g, c, r) = field_step n t x y h in
      let (v, g', c') = deep_read y z n u k g in
      next_field n t v x z g' (all_compose t u v c c') (fields_compose x y z r k)

-- What is covariant from a type that is covariant from a third is so from the third.
pub is_covariant_from_trans :
    (t u v : VmType)
    → is_covariant_from t u ≡ true
    → is_covariant_from u v ≡ true
    → is_covariant_from t v ≡ true
is_covariant_from_trans t u v h k = all_compose t u v h k
