-- ===== src/Treewalker/Defaults.antt =====
-- rdb-analyzer/src/data/treewalker/vm_value.rs: default values have the types that they are for.
use refine_db.Prelude.{String, Bool, true, false, ◌&&◌, Option, some, ◌≡◌, refl, ap}
use refine_db.Value.{PrimitiveType, get_type, default_value_for_type}
use refine_db.Treewalker.Types.{VmType, MapFields, no_field}
use refine_db.Treewalker.Types
use refine_db.Treewalker.Values.{
  VmValue, VmValues, no_value, value, map, insert_value, some_map, type_of, types_of, default_value,
  default_values,
}

get_type-default : (p : PrimitiveType) → get_type (default_value_for_type p) ≡ p
unfolding get_type default_value_for_type
get_type-default PrimitiveType.int64 = refl
get_type-default PrimitiveType.double = refl
get_type-default PrimitiveType.string = refl
get_type-default PrimitiveType.bytes = refl

-- The types that have a default value: no list, schema or unknown type stands in them, but for the
-- member of a set.
unfoldable mutual
  pub has_default : VmType → Bool
  has_default (Types.list _) = false
  has_default Types.schema = false
  has_default Types.unknown = false
  has_default (Types.map x) = have_default x
  has_default _ = true

  pub have_default : MapFields → Bool
  have_default no_field = true
  have_default (Types.field k t m) = has_default t && have_default m

both : (a b : Bool) → a && b ≡ true → (a ≡ true) × (b ≡ true)
both true b h = (refl, h)
both false b h = cc

inserted :
    (k : String) (a : Option VmValue) (b : Option VmValues) (v : VmValue) (vs : VmValues)
    → a ≡ some v
    → b ≡ some vs
    → insert_value k a b ≡ some (value k v vs)
inserted k a b v vs p q = rw (p, q) refl

mapped : (b : Option VmValues) (vs : VmValues) → b ≡ some vs → some_map b ≡ some (map vs)
mapped b vs p = rw p refl

same_fields :
    {k : String} {t u : VmType} {m n : MapFields}
    → t ≡ u
    → m ≡ n
    → Types.field k t m ≡ Types.field k u n
same_fields p q = cc

mutual
  unfolding type_of types_of default_value default_values has_default have_default

  default_of_type :
      (t : VmType)
      → has_default t ≡ true
      → (v : VmValue) × (default_value t ≡ some v) × (type_of v ≡ t)
  default_of_type (Types.primitive p) h = (_, refl, ap Types.primitive (get_type-default p))
  default_of_type (Types.table x) h = (_, refl, refl)
  default_of_type (Types.set t) h = (_, refl, refl)
  default_of_type Types.bool h = (_, refl, refl)
  default_of_type (Types.map x) h =
      let (vs, e, p) = defaults_of_types x h in (map vs, mapped _ vs e, ap Types.map p)
  default_of_type (Types.list t) h = cc
  default_of_type Types.unknown h = cc
  default_of_type Types.schema h = cc

  defaults_of_types :
      (m : MapFields)
      → have_default m ≡ true
      → (vs : VmValues) × (default_values m ≡ some vs) × (types_of vs ≡ m)
  defaults_of_types no_field h = (no_value, refl, refl)
  defaults_of_types (Types.field k t m) h =
      let (h1, h2) = both _ _ h in
      let (v, e, p) = default_of_type t h1 in
      let (vs, f, q) = defaults_of_types m h2 in
      (value k v vs, inserted k _ _ v vs e f, same_fields p q)

-- A type in which no list, schema or unknown type stands, but for the member of a set, has a default
-- value, and the type of that value is the type itself.
pub type_of-default_value :
    (t : VmType)
    → has_default t ≡ true
    → (v : VmValue) × (default_value t ≡ some v) × (type_of v ≡ t)
type_of-default_value t h = default_of_type t h
