-- ===== src/Treewalker/Values.antt =====
-- rdb-analyzer/src/data/treewalker/vm_value.rs: VmValue, the type of a value, and default values. A
-- shared value is the value; maps, lists and sets of values are types of the same block.
use refine_db.Prelude.{String, Bytes, Bool, true, false, Option, none, some}
use refine_db.Value.{PrimitiveValue, get_type, default_value_for_type}
use refine_db.PathWalker.{Walker}
use refine_db.Treewalker.Types.{VmType, MapFields, no_field}
use refine_db.Treewalker.Types

mutual
  pub data VmValue : Type 0 where
    primitive : PrimitiveValue → VmValue
    table : String → VmTableValueKind → VmValue
    set : VmType → VmSetValueKind → VmValue
    bool : Bool → VmValue
    map : VmValues → VmValue
    null : VmType → VmValue
    list : VmType → VmItems → VmValue

  pub data VmTableValueKind : Type 0 where
    resident : Walker → VmTableValueKind
    fresh : VmValues → VmTableValueKind

  pub data VmSetValueKind : Type 0 where
    resident_set : Walker → VmSetValueKind
    fresh_set : VmMembers → VmSetValueKind

  pub data VmValues : Type 0 where
    no_value : VmValues
    value : String → VmValue → VmValues → VmValues

  pub data VmMembers : Type 0 where
    no_member : VmMembers
    member : Bytes → VmValue → VmMembers → VmMembers

  pub data VmItems : Type 0 where
    no_item : VmItems
    item : VmValue → VmItems → VmItems

unfoldable pub is_null : VmValue → Bool
is_null (null _) = true
is_null _ = false

-- `VmType::from(&VmValue)`; the type of a list is the type of its members.
unfoldable mutual
  unfolding get_type

  pub type_of : VmValue → VmType
  type_of (primitive x) = Types.primitive (get_type x)
  type_of (table ty _) = Types.table ty
  type_of (set member_ty _) = Types.set member_ty
  type_of (bool _) = Types.bool
  type_of (map x) = Types.map (types_of x)
  type_of (null t) = t
  type_of (list member_ty _) = member_ty

  pub types_of : VmValues → MapFields
  types_of no_value = no_field
  types_of (value k v vs) = Types.field k (type_of v) (types_of vs)

abbrev pub insert_value : String → Option VmValue → Option VmValues → Option VmValues
insert_value k (some v) (some vs) = some (value k v vs)
insert_value k none vs = none
insert_value k (some v) none = none

abbrev pub some_map : Option VmValues → Option VmValue
some_map none = none
some_map (some vs) = some (map vs)

unfoldable mutual
  unfolding default_value_for_type

  pub default_value : VmType → Option VmValue
  default_value Types.bool = some (bool false)
  default_value (Types.list _) = none
  default_value (Types.map x) = some_map (default_values x)
  default_value (Types.primitive x) = some (primitive (default_value_for_type x))
  default_value Types.schema = none
  default_value (Types.set ty) = some (set ty (fresh_set no_member))
  default_value (Types.table x) = some (table x (fresh no_value))
  default_value Types.unknown = none

  pub default_values : MapFields → Option VmValues
  default_values no_field = some no_value
  default_values (Types.field k t m) = insert_value k (default_value t) (default_values m)
