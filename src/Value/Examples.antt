-- ===== src/Value/Examples.antt =====
-- The encoding of primitive values at concrete values, some of them from the comments and tests.
use Prim.Native.Nat.Ordering.{lt}
use refine_db.Prelude.{bytes_cmp, then_cmp, [], ◌∷◌, ◌++◌, ◌≡◌, refl, arith}
use refine_db.Prelude.Int.{pos, negsuc}
use refine_db.Value.{PrimitiveValue, bytes, int64, double, get_type, serialize_for_key_component}
use refine_db.Value.Order.{
  value_cmp, bytes_cmp-serialize_for_key_component, serialize_for_key_component_injective,
}
use refine_db.Value.Delimit.{delimited}

-- -5 is below 7, and -1.5 below 1.5.
minus_five :
    serialize_for_key_component (int64 (negsuc 4))
    ≡ 3 ∷ 127 ∷ 255 ∷ 255 ∷ 255 ∷ 255 ∷ 255 ∷ 255 ∷ 251 ∷ []
unfolding serialize_for_key_component
minus_five = refl

escaped : serialize_for_key_component (bytes (7 ∷ 0 ∷ [])) ≡ 1 ∷ 7 ∷ 0 ∷ 255 ∷ 0 ∷ []
unfolding serialize_for_key_component
escaped = refl

bytes_cmp-serialize_for_key_component_example :
    bytes_cmp
      (serialize_for_key_component (int64 (negsuc 4)))
      (serialize_for_key_component (int64 (pos 7)))
    ≡ lt
bytes_cmp-serialize_for_key_component_example =
    bytes_cmp-serialize_for_key_component (int64 (negsuc 4)) (int64 (pos 7)) (omega arith)
      (omega arith)

floats_in_order :
    bytes_cmp
      (serialize_for_key_component (double 0xbff8000000000000))
      (serialize_for_key_component (double 0x3ff8000000000000))
    ≡ lt
floats_in_order =
    bytes_cmp-serialize_for_key_component (double 0xbff8000000000000) (double 0x3ff8000000000000)
      (omega arith) (omega arith)

same_integer : PrimitiveValue.int64 (negsuc 4) ≡ int64 (negsuc 4)
same_integer =
    serialize_for_key_component_injective (int64 (negsuc 4)) (int64 (negsuc 4)) (omega arith)
      (omega arith) refl

abbrev short : PrimitiveValue
short = bytes (7 ∷ [])

abbrev long : PrimitiveValue
long = bytes (7 ∷ 0 ∷ [])

delimited_example :
    bytes_cmp
      (serialize_for_key_component short ++ 0 ∷ 9 ∷ [])
      (serialize_for_key_component long ++ 1 ∷ [])
    ≡ then_cmp (value_cmp short long) (bytes_cmp (0 ∷ 9 ∷ []) (1 ∷ []))
unfolding get_type
delimited_example =
    delimited short long (9 ∷ []) 1 (omega arith) (omega arith) tt tt refl (omega arith)
