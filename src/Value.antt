-- ===== src/Value.antt =====
-- rdb-analyzer/src/data/value.rs: primitive values and their encoding as components of keys.
-- `String` holds its UTF-8 bytes, `Double` the bits of its float, and `Int64` the integer itself.
pub mod BigEndian
mod Escape
pub mod Order
pub mod Delimit
mod Examples
use BigEndian.{be_bytes}
use Escape.{escape}
use refine_db.Prelude.{
  ℕ, ◌+◌, ◌-◌, ◌*◌, ◌^◌, ◌<◌, ◌≤◌, bit_and, bit_xor, Bytes, AreBytes, [], ◌∷◌, ◌++◌, Bool, ◌==◌,
  if◌then◌else◌, not, Option, none, some,
}
use refine_db.Prelude.Int.{ℤ, pos, negsuc}

-- schema/compile.rs: `PrimitiveType`
pub data PrimitiveType : Type 0 where
  int64 double string bytes : PrimitiveType

pub data PrimitiveValue : Type 0 where
  string : Bytes → PrimitiveValue
  bytes : Bytes → PrimitiveValue
  int64 : ℤ → PrimitiveValue
  double : ℕ → PrimitiveValue

unfoldable pub get_type : PrimitiveValue → PrimitiveType
get_type (bytes _) = PrimitiveType.bytes
get_type (string _) = PrimitiveType.string
get_type (int64 _) = PrimitiveType.int64
get_type (double _) = PrimitiveType.double

-- `none` is the panic on a value that is no string.
unfoldable pub unwrap_string : PrimitiveValue → Option Bytes
unwrap_string (string x) = some x
unwrap_string _ = none

unfoldable pub default_value_for_type : PrimitiveType → PrimitiveValue
default_value_for_type PrimitiveType.bytes = bytes []
default_value_for_type PrimitiveType.string = string []
default_value_for_type PrimitiveType.int64 = int64 (pos 0)
default_value_for_type PrimitiveType.double = double 0

-- The values of `i64` and `u64`.
abbrev pub IsInt64 : ℤ → Type 0
IsInt64 (pos n) = n < 2 ^ 63
IsInt64 (negsuc n) = n < 2 ^ 63

-- What the Rust type guarantees of a value: bytes are bytes, and words fit 64 bits.
abbrev pub IsRepresentable : PrimitiveValue → Type 0
IsRepresentable (string s) = AreBytes s
IsRepresentable (bytes s) = AreBytes s
IsRepresentable (int64 x) = IsInt64 x
IsRepresentable (double x) = x < 2 ^ 64

abbrev pub top_bit : ℕ
top_bit = 2 ^ 63

-- `x as u64`: two's complement.
abbrev pub as_u64 : ℤ → ℕ
as_u64 (pos n) = n
as_u64 (negsuc n) = 2 ^ 64 - (n + 1)

-- `x ^ TOP_BIT`
int64_word : ℤ → ℕ
int64_word x = bit_xor (as_u64 x) top_bit

-- `if x & TOP_BIT != 0 { !x } else { x ^ TOP_BIT }`
double_word : ℕ → ℕ
double_word x = if not (bit_and x top_bit == 0) then 2 ^ 64 - 1 - x else bit_xor x top_bit

unfoldable pub serialize_for_key_component : PrimitiveValue → Bytes
unfolding escape be_bytes int64_word double_word
serialize_for_key_component (bytes x) = 0x01 ∷ (escape x ++ 0x00 ∷ [])
serialize_for_key_component (string x) = 0x02 ∷ x
serialize_for_key_component (int64 x) = 0x03 ∷ be_bytes 8 (int64_word x)
serialize_for_key_component (double x) = 0x04 ∷ be_bytes 8 (double_word x)
