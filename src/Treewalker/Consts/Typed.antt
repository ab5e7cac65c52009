-- ===== src/Treewalker/Consts/Typed.antt =====
-- rdb-analyzer/src/data/treewalker/vm_value.rs: the types of the values that constants are converted
-- to.
use refine_db.Prelude.{
  String, str_eq, str_lt, Bytes, bytes_eq, bytes_lt, Bool, true, false, List, some, lookup, ok,
  guard, if◌then◌else◌, ◌≡◌, refl, Ensures, returns, fails, ◌⟫◌, ok_or-Ensures, Ensures-elim,
  weaken, ap, ◌∙◌,
}
use refine_db.Value.{PrimitiveValue, serialize_for_key_component}
use refine_db.Schema.{CompiledSchema, SpecializedType, FieldType, FieldAnnotation}
use refine_db.Treewalker.Types.{VmType, is_covariant_from, from_field_type, set_primary_key}
use refine_db.Treewalker.Types
use refine_db.Treewalker.Values.{
  VmValue, primitive, table, set, null, bool, VmTableValueKind, resident, fresh, fresh_set,
  VmValues, no_value, value, VmMembers, no_member, member, type_of,
}
use refine_db.Treewalker.Access.{
  value_get, value_insert, member_insert, unwrap_table, unwrap_primitive,
}
use refine_db.Treewalker.Consts.{
  VmConst, ConstFields, no_const_field, const_field, ConstMembers, no_const_member, const_member,
  require_type, check_covariant, failed, panicked, primary_key_of, from_const, convert_fields,
  convert_members, Converted,
}
use refine_db.Treewalker.Consts

-- The member is a fresh table, and the key is its encoded primary key.
pub record HasKey (primary_key : String) (key : Bytes) (v : VmValue) : Type 0 where
  pub ty : String
  pub fields : VmValues
  pub x : PrimitiveValue
  pub is_table : v ≡ table ty (fresh fields)
  pub has_field : value_get primary_key fields ≡ some (primitive x)
  pub is_key : key ≡ serialize_for_key_component x

module _ (schema : CompiledSchema) where
  unfoldable mutual
    -- A value whose fresh tables have fields of the schema, with values from whose types those of the
    -- fields are covariant, and whose fresh sets have members of their type under their primary keys.
    pub IsTyped : VmValue → Type 0
    IsTyped (primitive x) = Unit
    IsTyped (bool b) = Unit
    IsTyped (null t) = Unit
    IsTyped (table ty (fresh vs)) =
        (key : String) × (st : SpecializedType) × (lookup key schema.types ≡ some st)
        × (ty ≡ st.name)
        × FieldsAreTyped st vs
    IsTyped (set t (fresh_set ms)) =
        (pk : String × FieldType) × (set_primary_key schema (Types.set t) ≡ some pk)
        × MembersAreTyped t pk.0 ms
    IsTyped _ = ⊥

    pub FieldsAreTyped : SpecializedType → VmValues → Type 0
    FieldsAreTyped st no_value = Unit
    FieldsAreTyped st (value k v vs) =
        ((field : FieldType × List FieldAnnotation) × (lookup k st.fields ≡ some field)
          × (is_covariant_from (from_field_type field.0) (type_of v) ≡ true))
        × IsTyped v
        × FieldsAreTyped st vs

    pub MembersAreTyped : VmType → String → VmMembers → Type 0
    MembersAreTyped t primary_key no_member = Unit
    MembersAreTyped t primary_key (member k v ms) =
        (is_covariant_from t (type_of v) ≡ true)
        × HasKey primary_key k v
        × IsTyped v
        × MembersAreTyped t primary_key ms

  guard-true :
      (e : Consts.ConstFailure) (b : Bool) → Ensures (λ (_ : Unit {0}). b ≡ true) (guard b e)
  guard-true e true = returns refl
  guard-true e false = fails

  abbrev IsTypedField : SpecializedType → String → VmValue → Type 0
  IsTypedField st k v =
      ((field : FieldType × List FieldAnnotation) × (lookup k st.fields ≡ some field)
        × (is_covariant_from (from_field_type field.0) (type_of v) ≡ true))
      × IsTyped v

  FieldsAreTyped-if :
      (st : SpecializedType) (b : Bool) (vs ws : VmValues)
      → FieldsAreTyped st vs
      → FieldsAreTyped st ws
      → FieldsAreTyped st (if b then vs else ws)
  FieldsAreTyped-if st true vs ws h k = h
  FieldsAreTyped-if st false vs ws h k = k

  FieldsAreTyped-insert :
      (st : SpecializedType) (k : String) (v : VmValue) (vs : VmValues)
      → IsTypedField st k v
      → FieldsAreTyped st vs
      → FieldsAreTyped st (value_insert k v vs)
  unfolding value_insert FieldsAreTyped
  FieldsAreTyped-insert st k v no_value h rest = (h.0, h.1, tt)
  FieldsAreTyped-insert st k v (value j u vs) h rest =
      FieldsAreTyped-if st (str_eq j k) (value k v vs) _ (h.0, h.1, rest.2)
        (FieldsAreTyped-if st (str_lt k j) (value k v (value j u vs)) _ (h.0, h.1, rest)
          (rest.0, rest.1, FieldsAreTyped-insert st k v vs h rest.2))

  MembersAreTyped-if :
      (t : VmType) (primary_key : String) (b : Bool) (vs ws : VmMembers)
      → MembersAreTyped t primary_key vs
      → MembersAreTyped t primary_key ws
      → MembersAreTyped t primary_key (if b then vs else ws)
  MembersAreTyped-if t primary_key true vs ws h k = h
  MembersAreTyped-if t primary_key false vs ws h k = k

  MembersAreTyped-insert :
      (t : VmType) (primary_key : String) (k : Bytes) (v : VmValue) (ms : VmMembers)
      → is_covariant_from t (type_of v) ≡ true
      → HasKey primary_key k v
      → IsTyped v
      → MembersAreTyped t primary_key ms
      → MembersAreTyped t primary_key (member_insert k v ms)
  unfolding member_insert MembersAreTyped
  MembersAreTyped-insert t primary_key k v no_member a b c rest = (a, b, c, tt)
  MembersAreTyped-insert t primary_key k v (member j u ms) a b c rest =
      MembersAreTyped-if t primary_key (bytes_eq j k) (member k v ms) _ (a, b, c, rest.3)
        (MembersAreTyped-if t primary_key (bytes_lt k j) (member k v (member j u ms)) _
          (a, b, c, rest)
          (rest.0, rest.1, rest.2, MembersAreTyped-insert t primary_key k v ms a b c rest.3))

  table_of :
      {ty : String} {kind : VmTableValueKind} (v : VmValue)
      → unwrap_table v ≡ some (ty, kind)
      → v ≡ table ty kind
  unfolding unwrap_table
  table_of (table ty kind) h = cc
  table_of _ h = cc

  primitive_of : {x : PrimitiveValue} (v : VmValue) → unwrap_primitive v ≡ some x → v ≡ primitive x
  unfolding unwrap_primitive
  primitive_of (primitive x) h = cc
  primitive_of _ h = cc

  primary_key_of-HasKey :
      (primary_key ty : String) (kind : VmTableValueKind) (v : VmValue)
      → unwrap_table v ≡ some (ty, kind)
      → Ensures
          (λ x. HasKey primary_key (serialize_for_key_component x) v)
          (primary_key_of primary_key kind)
  unfolding primary_key_of unwrap_table unwrap_primitive
  primary_key_of-HasKey primary_key ty (resident w) v h = fails
  primary_key_of-HasKey primary_key ty (fresh fields) v h =
      ok_or-Ensures panicked (value_get primary_key fields) ⟫ λ u found.
      weaken
        (λ x is_primitive. record {
          ty = ty;
          fields = fields;
          x = x;
          is_table = table_of v h;
          has_field = found ∙ ap some (primitive_of u is_primitive);
          is_key = refl;
        })
        (ok_or-Ensures panicked (unwrap_primitive u))

  mutual
    unfolding from_const IsTyped

    converted : (c : VmConst) → Ensures IsTyped (from_const schema c)
    converted (Consts.primitive x) = returns tt
    converted (Consts.bool b) = returns tt
    converted (Consts.null t) = returns tt
    converted (Consts.table ty fields) =
        ok_or-Ensures (failed (Consts.type_not_found ty)) (lookup ty schema.types) ⟫ λ st found.
        converted_fields ty st fields no_value tt ⟫ λ vs typed.
        returns {a = table st.name (fresh vs)} (ty, st, found, refl, typed)
    converted (Consts.set member_ty members) =
        ok_or-Ensures (failed (Consts.type_not_found member_ty)) (lookup member_ty schema.types)
        ⟫ λ st _.
            ok_or-Ensures (failed Consts.missing_primary_key)
              (set_primary_key schema (Types.set (Types.table st.name)))
            ⟫ λ pk has.
                converted_members (Types.table st.name) pk.0 members no_member tt ⟫ λ ms typed.
                returns {a = set (Types.table st.name) (fresh_set ms)} (pk, has, typed)

    converted_fields :
        (ty : String) (st : SpecializedType) (fields : ConstFields) (vs : VmValues)
        → FieldsAreTyped st vs
        → Ensures (FieldsAreTyped st) (convert_fields schema ty st fields vs)
    converted_fields ty st no_const_field vs h = returns h
    converted_fields ty st (const_field k c fields) vs h =
        ok_or-Ensures (failed (Consts.field_not_found k ty)) (lookup k st.fields) ⟫ λ field found.
        converted c ⟫ λ v typed.
        guard-true _ (is_covariant_from (from_field_type field.0) (type_of v)) ⟫ λ _ covariant.
        converted_fields ty st fields (value_insert k v vs)
          (FieldsAreTyped-insert st k v vs ((field, found, covariant), typed) h)

    converted_members :
        (t : VmType) (primary_key : String) (members : ConstMembers) (ms : VmMembers)
        → MembersAreTyped t primary_key ms
        → Ensures (MembersAreTyped t primary_key) (convert_members schema t primary_key members ms)
    converted_members t primary_key no_const_member ms h = returns h
    converted_members t primary_key (const_member c members) ms h = converted c ⟫ λ v typed.
        guard-true _ (is_covariant_from t (type_of v)) ⟫ λ _ covariant.
        ok_or-Ensures panicked (unwrap_table v) ⟫ λ (ty, kind) is_table.
        primary_key_of-HasKey primary_key ty kind v is_table ⟫ λ x keyed.
        converted_members t primary_key members (member_insert (serialize_for_key_component x) v ms)
          (MembersAreTyped-insert t primary_key (serialize_for_key_component x) v ms covariant keyed
            typed h)

-- What a constant is converted to is typed: a table holds fields of the type that the schema has for
-- it, each with a value from whose type that of the field is covariant; a set holds fresh tables from
-- whose type that of its members is covariant, each under its encoded primary key; and so for what
-- stands in them.
pub from_const-IsTyped :
    (schema : CompiledSchema) (c : VmConst) (v : VmValue)
    → from_const schema c ≡ ok v
    → IsTyped schema v
from_const-IsTyped schema c v done = Ensures-elim (converted schema c) done
