-- ===== src/Treewalker/Serialize.antt =====
-- rdb-analyzer/src/data/treewalker/serialize.rs: the form in which values cross the interface of the
-- server. A float is given by its bits. The texts of numbers, base64 and the conversions of floats are
-- the record `Texts`.
pub mod RoundTrip
use refine_db.Prelude.{
  ℕ, String, str_eq, Bytes, Bool, Option, none, some, List, [], ◌∷◌, Result, ok, err, ok_or, ◌>>=◌,
  ◌>>◌, guard, if◌then◌else◌, ◌≡◌,
}
use refine_db.Prelude.Int.{ℤ}
use refine_db.Value.{PrimitiveType, PrimitiveValue, IsInt64}
use refine_db.Value
use refine_db.Treewalker.Types.{VmType, MapFields, no_field, field}
use refine_db.Treewalker.Types
use refine_db.Treewalker.Values.{
  VmValue, VmValues, no_value, value, VmItems, no_item, item, primitive, map, list, table, set,
}
use refine_db.Treewalker.Values
use refine_db.Treewalker.Access.{value_insert}

pub data SerializeError : Type 0 where
  unserializable type_mismatch unwrap_type_mismatch unexpected_null_value : SerializeError
  missing_required_field : String → SerializeError

-- An error of the module, or a text that does not parse.
pub data Failure : Type 0 where
  failed : SerializeError → Failure
  unparsed : Bytes → Failure

abbrev pub Serialized : Type 0 → Type 0
Serialized = Result Failure

mutual
  pub data SerializedVmValue : Type 0 where
    string : Bytes → SerializedVmValue
    bool : Bool → SerializedVmValue
    bytes : Bytes → SerializedVmValue
    int64 : ℤ → SerializedVmValue
    double : ℕ → SerializedVmValue
    null : SerializedVmValue
    tagged_m : SerializedFields → SerializedVmValue
    tagged_l : SerializedItems → SerializedVmValue

  pub data SerializedFields : Type 0 where
    no_entry : SerializedFields
    entry : String → SerializedVmValue → SerializedFields → SerializedFields

  pub data SerializedItems : Type 0 where
    no_element : SerializedItems
    element : SerializedVmValue → SerializedItems → SerializedItems

pub record VmValueEncodeConfig : Type 0 where
  pub enable_bytes : Bool
  pub enable_int64 : Bool
  pub enable_double : Bool

-- `format!`, `parse` and `base64`, with what they promise, and `as` between floats and integers.
pub record Texts : Type 0 where
  pub int_text : ℤ → Bytes
  pub parse_i64 : Bytes → Option ℤ
  pub parse_i64-int_text : (x : ℤ) → IsInt64 x → parse_i64 (int_text x) ≡ some x
  pub double_text : ℕ → Bytes
  pub parse_u64 : Bytes → Option ℕ
  pub base64_encode : Bytes → Bytes
  pub base64_decode : Bytes → Option Bytes
  pub base64_decode-encode : (x : Bytes) → base64_decode (base64_encode x) ≡ some x
  pub from_utf8_lossy : Bytes → Bytes
  pub double_as_i64 : ℕ → ℤ
  pub i64_as_double : ℤ → ℕ

unfoldable pub try_unwrap_bool : SerializedVmValue → Serialized Bool
try_unwrap_bool (bool x) = ok x
try_unwrap_bool _ = err (failed unwrap_type_mismatch)

unfoldable pub try_unwrap_list : SerializedVmValue → Serialized SerializedItems
try_unwrap_list (tagged_l x) = ok x
try_unwrap_list _ = err (failed unwrap_type_mismatch)

unfoldable pub check_nonnull : SerializedVmValue → Serialized Unit
check_nonnull null = err (failed unexpected_null_value)
check_nonnull _ = ok tt

-- `x.get(k)`
unfoldable pub entry_get : String → SerializedFields → Option SerializedVmValue
entry_get k no_entry = none
entry_get k (entry j s x) = if str_eq j k then some s else entry_get k x

unfoldable pub require_fields : List String → SerializedFields → Serialized Unit
unfolding entry_get
require_fields [] x = ok tt
require_fields (f ∷ required_fields) x =
    ok_or (failed (missing_required_field f)) (entry_get f x) >> require_fields required_fields x

unfoldable pub try_unwrap_map : List String → SerializedVmValue → Serialized SerializedFields
unfolding require_fields
try_unwrap_map required_fields (tagged_m x) = require_fields required_fields x >> ok x
try_unwrap_map required_fields _ = err (failed unwrap_type_mismatch)

unfoldable pub try_unwrap_string : SerializedVmValue → Serialized Bytes
try_unwrap_string (string x) = ok x
try_unwrap_string _ = err (failed unwrap_type_mismatch)

unfoldable pub try_unwrap_bytes : SerializedVmValue → Serialized Bytes
try_unwrap_bytes (bytes x) = ok x
try_unwrap_bytes _ = err (failed unwrap_type_mismatch)

unfoldable pub try_unwrap_int64 : SerializedVmValue → Serialized ℤ
try_unwrap_int64 (int64 x) = ok x
try_unwrap_int64 _ = err (failed unwrap_type_mismatch)

-- The loop over the members of a list, each of which `f` decodes.
unfoldable pub decode_items :
    (SerializedVmValue → Serialized VmValue) → SerializedItems → Serialized VmItems
decode_items f no_element = ok no_item
decode_items f (element s x) = f s >>= λ v. decode_items f x >>= λ vs. ok (item v vs)

module _ (texts : Texts) where
  unfoldable pub encode_primitive : VmValueEncodeConfig → PrimitiveValue → SerializedVmValue
  encode_primitive config (Value.bytes x) =
      if config.enable_bytes then bytes x else string (texts.base64_encode x)
  encode_primitive config (Value.double x) =
      if config.enable_double then double x else string (texts.double_text x)
  encode_primitive config (Value.int64 x) =
      if config.enable_int64 then int64 x else string (texts.int_text x)
  encode_primitive config (Value.string x) = string x

  unfoldable mutual
    unfolding encode_primitive

    pub encode : VmValueEncodeConfig → VmValue → Serialized SerializedVmValue
    encode config (map x) = encode_fields config x >>= λ y. ok (tagged_m y)
    encode config (Values.null _) = ok null
    encode config (Values.bool x) = ok (bool x)
    encode config (primitive x) = ok (encode_primitive config x)
    encode config (list _ x) = encode_items config x >>= λ y. ok (tagged_l y)
    encode config (table _ _) = err (failed unserializable)
    encode config (set _ _) = err (failed unserializable)

    pub encode_fields : VmValueEncodeConfig → VmValues → Serialized SerializedFields
    encode_fields config no_value = ok no_entry
    encode_fields config (value k v vs) =
        encode config v >>= λ s. encode_fields config vs >>= λ y. ok (entry k s y)

    pub encode_items : VmValueEncodeConfig → VmItems → Serialized SerializedItems
    encode_items config no_item = ok no_element
    encode_items config (item v vs) =
        encode config v >>= λ s. encode_items config vs >>= λ y. ok (element s y)

  -- `decode` against a primitive type.
  unfoldable pub decode_primitive : SerializedVmValue → PrimitiveType → Serialized PrimitiveValue
  decode_primitive (string x) PrimitiveType.string = ok (Value.string x)
  decode_primitive (bytes x) PrimitiveType.string = ok (Value.string (texts.from_utf8_lossy x))
  decode_primitive (string x) PrimitiveType.int64 =
      ok_or (unparsed x) (texts.parse_i64 x) >>= λ n. ok (Value.int64 n)
  decode_primitive (int64 x) PrimitiveType.int64 = ok (Value.int64 x)
  decode_primitive (double x) PrimitiveType.int64 = ok (Value.int64 (texts.double_as_i64 x))
  decode_primitive (string x) PrimitiveType.double =
      ok_or (unparsed x) (texts.parse_u64 x) >>= λ n. ok (Value.double n)
  decode_primitive (int64 x) PrimitiveType.double = ok (Value.double (texts.i64_as_double x))
  decode_primitive (double x) PrimitiveType.double = ok (Value.double x)
  decode_primitive (string x) PrimitiveType.bytes =
      ok_or (unparsed x) (texts.base64_decode x) >>= λ y. ok (Value.bytes y)
  decode_primitive (bytes x) PrimitiveType.bytes = ok (Value.bytes x)
  decode_primitive _ _ = err (failed type_mismatch)

  -- The map is built from its last field on, which gives the same map, since its names differ.
  unfoldable mutual
    unfolding decode_primitive decode_items entry_get value_insert

    pub decode : SerializedVmValue → VmType → Serialized VmValue
    decode (tagged_m x) (Types.map map_ty) = decode_fields x map_ty >>= λ vs. ok (map vs)
    decode (tagged_l x) (Types.list ty) =
        decode_items (λ s. decode s ty) x >>= λ vs. ok (list ty vs)
    decode null ty = ok (Values.null ty)
    decode (bool x) Types.bool = ok (Values.bool x)
    decode s (Types.primitive p) = decode_primitive s p >>= λ x. ok (primitive x)
    decode _ _ = err (failed type_mismatch)

    pub decode_fields : SerializedFields → MapFields → Serialized VmValues
    decode_fields x no_field = ok no_value
    decode_fields x (field k field_ty map_ty) =
        (elim (entry_get k x) [ none ↦ ok (Values.null field_ty) | some s ↦ decode s field_ty ])
        >>= λ v. decode_fields x map_ty >>= λ vs. ok (value_insert k v vs)
