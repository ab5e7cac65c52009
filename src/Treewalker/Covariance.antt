-- ===== src/Treewalker/Covariance.antt =====
-- rdb-analyzer/src/data/treewalker/vm_value.rs: covariance is an order on types, under which a map may
-- have more fields than are asked for.
use refine_db.Prelude.{
  String, str_eq, str_eq_iff, if◌then◌else◌, Bool, true, false, ◌&&◌, some, ◌≡◌, refl, subst, inl,
  inr, Bool-cases, Option-cases, ap,
}
use refine_db.Prelude.{◌⊎◌}
use refine_db.Value.{PrimitiveType}
use refine_db.Schema.{primitive_type_eq}
use refine_db.Treewalker.Types.{
  VmType, MapFields, primitive, table, set, bool, list, map, unknown, schema, no_field, field,
  map_get, vm_type_eq, map_fields_eq, is_covariant_from, fields_are_covariant,
}

primitive_type_eq-true : (p q : PrimitiveType) → primitive_type_eq p q ≡ true → p ≡ q
unfolding primitive_type_eq
primitive_type_eq-true PrimitiveType.int64 PrimitiveType.int64 h = refl
primitive_type_eq-true PrimitiveType.double PrimitiveType.double h = refl
primitive_type_eq-true PrimitiveType.string PrimitiveType.string h = refl
primitive_type_eq-true PrimitiveType.bytes PrimitiveType.bytes h = refl
primitive_type_eq-true _ _ h = cc

primitive_type_eq_refl : (p : PrimitiveType) → primitive_type_eq p p ≡ true
unfolding primitive_type_eq
primitive_type_eq_refl PrimitiveType.int64 = refl
primitive_type_eq_refl PrimitiveType.double = refl
primitive_type_eq_refl PrimitiveType.string = refl
primitive_type_eq_refl PrimitiveType.bytes = refl

both : (a b : Bool) → a && b ≡ true → (a ≡ true) × (b ≡ true)
both true b h = (refl, h)
both false b h = cc

both_if : (a b : Bool) → (if a then b else false) ≡ true → (a ≡ true) × (b ≡ true)
both_if true b h = (refl, h)
both_if false b h = cc

same_field :
    {j k : String} {t u : VmType} {m n : MapFields}
    → j ≡ k
    → t ≡ u
    → m ≡ n
    → field j t m ≡ field k u n
same_field p q r = cc

-- `==` is equality.
mutual
  unfolding vm_type_eq map_fields_eq

  pub vm_type_eq-true : (t u : VmType) → vm_type_eq t u ≡ true → t ≡ u
  vm_type_eq-true (primitive p) (primitive q) h = ap primitive (primitive_type_eq-true p q h)
  vm_type_eq-true (table x) (table y) h = ap table ((str_eq_iff x y).0 h)
  vm_type_eq-true (set t) (set u) h = ap set (vm_type_eq-true t u h)
  vm_type_eq-true bool bool h = refl
  vm_type_eq-true (list t) (list u) h = ap list (vm_type_eq-true t u h)
  vm_type_eq-true (map m) (map n) h = ap map (map_fields_eq-true m n h)
  vm_type_eq-true unknown unknown h = refl
  vm_type_eq-true schema schema h = refl
  vm_type_eq-true _ _ h = cc

  map_fields_eq-true : (m n : MapFields) → map_fields_eq m n ≡ true → m ≡ n
  map_fields_eq-true no_field no_field h = refl
  map_fields_eq-true (field j t m) (field k u n) h =
      let (h1, h2) = both _ _ h in
      let (h3, h4) = both _ _ h1 in
      same_field ((str_eq_iff j k).0 h3) (vm_type_eq-true t u h4) (map_fields_eq-true m n h2)
  map_fields_eq-true _ _ h = cc

mutual
  unfolding vm_type_eq map_fields_eq

  vm_type_eq_refl : (t : VmType) → vm_type_eq t t ≡ true
  vm_type_eq_refl (primitive p) = primitive_type_eq_refl p
  vm_type_eq_refl (table x) = (str_eq_iff x x).1 refl
  vm_type_eq_refl (set t) = vm_type_eq_refl t
  vm_type_eq_refl bool = refl
  vm_type_eq_refl (list t) = vm_type_eq_refl t
  vm_type_eq_refl (map m) = map_fields_eq_refl m
  vm_type_eq_refl unknown = refl
  vm_type_eq_refl schema = refl

  map_fields_eq_refl : (m : MapFields) → map_fields_eq m m ≡ true
  map_fields_eq_refl no_field = refl
  map_fields_eq_refl (field j t m) =
      rw ((str_eq_iff j j).1 refl, vm_type_eq_refl t) (map_fields_eq_refl m)

-- Equal types are covariant.
pub is_covariant_from_refl : (t : VmType) → is_covariant_from t t ≡ true
unfolding is_covariant_from vm_type_eq
is_covariant_from_refl (map m) = rw (map_fields_eq_refl m) refl
is_covariant_from_refl (primitive p) = vm_type_eq_refl (primitive p)
is_covariant_from_refl (table x) = vm_type_eq_refl (table x)
is_covariant_from_refl (set t) = vm_type_eq_refl (set t)
is_covariant_from_refl bool = refl
is_covariant_from_refl (list t) = vm_type_eq_refl (list t)
is_covariant_from_refl unknown = refl
is_covariant_from_refl schema = refl

equal_or_deep : (b d : Bool) → (if b then true else d) ≡ true → (b ≡ true) ⊎ (d ≡ true)
equal_or_deep true d h = inl refl
equal_or_deep false d h = inr h

-- Two map types that are covariant are equal, or are so field by field.
pub maps_cases :
    (x y : MapFields)
    → is_covariant_from (map x) (map y) ≡ true
    → (x ≡ y) ⊎ (fields_are_covariant x y ≡ true)
unfolding is_covariant_from
maps_cases x y h = elim (equal_or_deep (map_fields_eq x y) (fields_are_covariant x y) h) [
  | inl e ↦ inl (map_fields_eq-true x y e)
  | inr e ↦ inr e
]

-- One round of the loop over fields.
pub field_step :
    (k : String) (t : VmType) (x y : MapFields)
    → fields_are_covariant (field k t x) y ≡ true
    → (u : VmType) × (map_get k y ≡ some u)
      × (is_covariant_from t u ≡ true)
      × (fields_are_covariant x y ≡ true)
unfolding fields_are_covariant
field_step k t x y h = elim (Option-cases (map_get k y)) [
  | inl e ↦ cc (rw (e, fields_are_covariant) at h)
  | inr (u, e) ↦
      let (c, r) = both_if (is_covariant_from t u) _ (rw (e, fields_are_covariant) at h) in
      (u, e, c, r)
]

some_value : {v w : VmType} → some v ≡ some w → v ≡ w
some_value h = cc

pub deep_read :
    (x y : MapFields) (k : String) (t : VmType)
    → fields_are_covariant x y ≡ true
    → map_get k x ≡ some t
    → (u : VmType) × (map_get k y ≡ some u) × (is_covariant_from t u ≡ true)
unfolding map_get
deep_read no_field y k t h e = cc
deep_read (field j s x) y k t h e =
    let (u, g, c, r) = field_step j s x y h in
    elim (Bool-cases (str_eq j k)) [
      | inl p ↦ (
        u,
        subst (λ n. map_get n y ≡ some u) ((str_eq_iff j k).0 p) g,
        subst (λ v. is_covariant_from v u ≡ true) (some_value (rw p at e)) c,
      )
      | inr p ↦ deep_read x y k t r (rw p at e)
    ]

-- Where a map type is covariant from another, every field that it has the other has too, with a type
-- from which the field's type is covariant.
pub is_covariant_from-map_get :
    (x y : MapFields) (k : String) (t : VmType)
    → is_covariant_from (map x) (map y) ≡ true
    → map_get k x ≡ some t
    → (u : VmType) × (map_get k y ≡ some u) × (is_covariant_from t u ≡ true)
is_covariant_from-map_get x y k t h e = elim (maps_cases x y h) [
  | inl p ↦ (t, subst (λ m. map_get k m ≡ some t) p e, is_covariant_from_refl t)
  | inr d ↦ deep_read x y k t d e
]
