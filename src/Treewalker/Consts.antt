-- ===== src/Treewalker/Consts.antt =====
-- rdb-analyzer/src/data/treewalker/vm_value.rs and vm.rs: constants of a script, their conversion to
-- values, and TwVm::new. An error holds the types of which the program holds the texts.
pub mod Typed
use refine_db.Prelude.{
  ℕ, zero, suc, ◌+◌, String, Bool, Option, none, some, List, [], ◌∷◌, Dict, lookup, insert, Result,
  ok, err, ok_or, ◌>>=◌, ◌>>◌, guard, if◌then◌else◌,
}
use refine_db.Value.{PrimitiveValue, serialize_for_key_component}
use refine_db.Schema.{CompiledSchema, SpecializedType}
use refine_db.Treewalker.Bytecode.{TwGraph}
use refine_db.Treewalker.Types.{VmType, is_covariant_from, from_field_type, set_primary_key}
use refine_db.Treewalker.Types
use refine_db.Treewalker.Values.{
  VmValue, VmTableValueKind, resident, fresh, fresh_set, VmValues, no_value, VmMembers, no_member,
  type_of,
}
use refine_db.Treewalker.Values
use refine_db.Treewalker.Access.{
  value_get, value_insert, member_insert, unwrap_table, unwrap_primitive,
}
use refine_db.Treewalker.Typeck.{TwVm}

mutual
  pub data VmConst : Type 0 where
    primitive : PrimitiveValue → VmConst
    table : String → ConstFields → VmConst
    set : String → ConstMembers → VmConst
    bool : Bool → VmConst
    null : VmType → VmConst

  pub data ConstFields : Type 0 where
    no_const_field : ConstFields
    const_field : String → VmConst → ConstFields → ConstFields

  pub data ConstMembers : Type 0 where
    no_const_member : ConstMembers
    const_member : VmConst → ConstMembers → ConstMembers

pub data VmValueError : Type 0 where
  type_not_found : String → VmValueError
  field_not_found : String → String → VmValueError
  incompatible_field_and_value_type : VmType → VmType → VmValueError
  missing_field : String → String → VmValueError
  missing_primary_key : VmValueError

pub data ConstFailure : Type 0 where
  failed : VmValueError → ConstFailure
  panicked : ConstFailure

abbrev pub Converted : Type 0 → Type 0
Converted = Result ConstFailure

abbrev pub require_type : CompiledSchema → String → Converted SpecializedType
require_type schema ty = ok_or (failed (type_not_found ty)) (lookup ty schema.types)

abbrev pub check_covariant : VmType → VmType → Converted Unit
check_covariant expected actual =
    guard (is_covariant_from expected actual)
      (failed (incompatible_field_and_value_type expected actual))

-- The encoded primary key of a member, which is a fresh table.
unfoldable pub primary_key_of : String → VmTableValueKind → Converted PrimitiveValue
unfolding value_get unwrap_primitive
primary_key_of primary_key (fresh x) =
    ok_or panicked (value_get primary_key x) >>= λ v. ok_or panicked (unwrap_primitive v)
primary_key_of primary_key (resident _) = err panicked

unfoldable mutual
  unfolding primary_key_of is_covariant_from from_field_type set_primary_key type_of value_insert
      member_insert unwrap_table serialize_for_key_component

  pub from_const : CompiledSchema → VmConst → Converted VmValue
  from_const schema (primitive x) = ok (Values.primitive x)
  from_const schema (table ty fields) = require_type schema ty >>= λ st.
      convert_fields schema ty st fields no_value >>= λ vs. ok (Values.table st.name (fresh vs))
  from_const schema (set member_ty members) = require_type schema member_ty >>= λ st.
      ok_or (failed missing_primary_key) (set_primary_key schema (Types.set (Types.table st.name)))
      >>= λ pk. convert_members schema (Types.table st.name) pk.0 members no_member >>= λ ms.
          ok (Values.set (Types.table st.name) (fresh_set ms))
  from_const schema (null t) = ok (Values.null t)
  from_const schema (bool b) = ok (Values.bool b)

  -- The loop over the fields of a constant table of the type `ty`.
  pub convert_fields :
      CompiledSchema → String → SpecializedType → ConstFields → VmValues → Converted VmValues
  convert_fields schema ty st no_const_field vs = ok vs
  convert_fields schema ty st (const_field k c fields) vs =
      ok_or (failed (field_not_found k ty)) (lookup k st.fields) >>= λ expected.
      from_const schema c >>= λ v.
      check_covariant (from_field_type expected.0) (type_of v)
      >> convert_fields schema ty st fields (value_insert k v vs)

  -- The loop over the members of a constant set.
  pub convert_members :
      CompiledSchema → VmType → String → ConstMembers → VmMembers → Converted VmMembers
  convert_members schema member_ty primary_key no_const_member ms = ok ms
  convert_members schema member_ty primary_key (const_member c members) ms =
      from_const schema c >>= λ v.
      check_covariant member_ty (type_of v)
      >> (ok_or panicked (unwrap_table v) >>= λ t. primary_key_of primary_key t.1 >>= λ x.
          convert_members schema member_ty primary_key members
            (member_insert (serialize_for_key_component x) v ms))
