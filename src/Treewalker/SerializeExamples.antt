-- ===== src/Treewalker/SerializeExamples.antt =====
-- A map with a text, an integer as text, a list of Booleans and a null, encoded and decoded.
use refine_db.Prelude.{
  zero, suc, Option, Bytes, true, false, none, some, [], ◌∷◌, ok, ◌≡◌, refl, arith,
}
use refine_db.Prelude.Int.{ℤ, pos, negsuc}
use refine_db.Value.{PrimitiveType, get_type}
use refine_db.Value
use refine_db.Treewalker.Types.{VmType, MapFields, no_field, field}
use refine_db.Treewalker.Types
use refine_db.Treewalker.Values.{
  VmValue, no_value, value, no_item, item, primitive, map, list, null, bool,
}
use refine_db.Treewalker.Serialize.{SerializedVmValue, VmValueEncodeConfig, Texts, encode, decode}
use refine_db.Treewalker.Serialize.RoundTrip.{Fits, decode-encode}

abbrev int_text : ℤ → Bytes
int_text (pos n) = 0 ∷ n ∷ []
int_text (negsuc n) = 1 ∷ n ∷ []

abbrev parse : Bytes → Option ℤ
parse (zero ∷ (n ∷ [])) = some (pos n)
parse (suc zero ∷ (n ∷ [])) = some (negsuc n)
parse _ = none

parse-int_text : (x : ℤ) → parse (int_text x) ≡ some x
parse-int_text (pos n) = refl
parse-int_text (negsuc n) = refl

-- A text is the number itself, and base64 leaves bytes alone.
abbrev texts : Texts
texts = record {
  int_text = int_text;
  parse_i64 = parse;
  parse_i64-int_text = λ x _. parse-int_text x;
  double_text = λ n. n ∷ [];
  parse_u64 = λ s. none;
  base64_encode = λ s. s;
  base64_decode = some;
  base64_decode-encode = λ s. refl;
  from_utf8_lossy = λ s. s;
  double_as_i64 = pos;
  i64_as_double = λ x. 0;
}

abbrev config : VmValueEncodeConfig
config = record { enable_bytes = false; enable_int64 = false; enable_double = true }

abbrev ty : VmType
ty = Types.map (
    field "count" (Types.primitive PrimitiveType.int64) (
      field "flags" (Types.list Types.bool)
        (field "text" (Types.primitive PrimitiveType.bytes) no_field)))

abbrev sample : VmValue
sample = map (
    value "count" (primitive (Value.int64 (negsuc 4))) (
      value "flags" (list Types.bool (item (bool true) no_item))
        (value "text" (null (Types.primitive PrimitiveType.bytes)) no_value)))

decode-encode_example :
    (s : SerializedVmValue) × (encode texts config sample ≡ ok s) × (decode texts s ty ≡ ok sample)
unfolding Fits get_type
decode-encode_example = decode-encode texts config ty sample (
  refl,
  (refl, omega arith),
  (refl, refl, (refl, refl, tt)),
  (refl, (refl, (tt, tt)), (refl, refl, tt), (refl, refl, tt, tt)),
)
