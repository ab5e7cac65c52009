-- ===== src/Value/Order.antt =====
-- rdb-analyzer/src/data/value.rs: keys are ordered as the values that they encode.
use Prim.Native.Nat.Ordering.{lt, eq, gt}
use refine_db.Prelude.{
  ℕ, ◌+◌, ◌-◌, ◌^◌, ◌<◌, Ordering, compare, bytes_cmp, eq_of_bytes_cmp, bytes_cmp_refl, then_cmp,
  [], ◌≡◌, refl, sym, ◌∙◌, ap, arith, ltb, if◌then◌else◌,
}
use refine_db.Prelude.Int.{ℤ, pos, negsuc, cmp_ℤ, eq_of_cmp_ℤ}
use refine_db.Prelude.Bits.{bit_xor_top, bit_and_top}
use refine_db.Value.BigEndian.{bytes_cmp-be_bytes}
use refine_db.Value.Escape.{bytes_cmp-escape}
use refine_db.Value.{
  PrimitiveValue, string, bytes, int64, double, IsRepresentable, IsInt64, int64_word, double_word,
  serialize_for_key_component,
}

-- A float's bits, sign and magnitude, as an integer: negative floats in reverse, -0 below +0.
abbrev pub double_rank : ℕ → ℤ
double_rank x = if ltb x (2 ^ 63) then pos x else negsuc (x - 2 ^ 63)

-- The order of values: byte strings, then texts, then integers, then floats.
abbrev pub value_cmp : PrimitiveValue → PrimitiveValue → Ordering
value_cmp (bytes a) (bytes b) = bytes_cmp a b
value_cmp (string a) (string b) = bytes_cmp a b
value_cmp (int64 a) (int64 b) = cmp_ℤ a b
value_cmp (double a) (double b) = cmp_ℤ (double_rank a) (double_rank b)
value_cmp (bytes _) _ = lt
value_cmp (string _) (bytes _) = gt
value_cmp (string _) _ = lt
value_cmp (int64 _) (double _) = lt
value_cmp (int64 _) _ = gt
value_cmp (double _) _ = gt

-- The word of an integer is the integer moved up by 2 ^ 63.
int64_word-pos : (n : ℕ) → n < 2 ^ 63 → int64_word (pos n) ≡ n + 2 ^ 63
unfolding int64_word
int64_word-pos n h = ground (arith, bit_xor_top 63 n (omega arith))

int64_word-negsuc : (n : ℕ) → n < 2 ^ 63 → int64_word (negsuc n) ≡ 2 ^ 63 - (n + 1)
unfolding int64_word
int64_word-negsuc n h = ground (arith, bit_xor_top 63 (2 ^ 64 - (n + 1)) (omega arith))

int64_word-lt : (x : ℤ) → IsInt64 x → int64_word x < 2 ^ 64
int64_word-lt (pos n) h = omega (arith, int64_word-pos n h)
int64_word-lt (negsuc n) h = omega (arith, int64_word-negsuc n h)

compare-int64_word :
    (x y : ℤ) → IsInt64 x → IsInt64 y → compare (int64_word x) (int64_word y) ≡ cmp_ℤ x y
compare-int64_word (pos m) (pos n) h k = ground (arith, int64_word-pos m h, int64_word-pos n k)
compare-int64_word (pos m) (negsuc n) h k =
    ground (arith, int64_word-pos m h, int64_word-negsuc n k)
compare-int64_word (negsuc m) (pos n) h k =
    ground (arith, int64_word-negsuc m h, int64_word-pos n k)
compare-int64_word (negsuc m) (negsuc n) h k =
    ground (arith, int64_word-negsuc m h, int64_word-negsuc n k)

double_word-lt : (x : ℕ) → x < 2 ^ 64 → double_word x < 2 ^ 64
unfolding double_word
double_word-lt x h = ground (arith, bit_xor_top 63 x h, bit_and_top 63 x h)

compare-double_word :
    (x y : ℕ)
    → x < 2 ^ 64
    → y < 2 ^ 64
    → compare (double_word x) (double_word y) ≡ cmp_ℤ (double_rank x) (double_rank y)
unfolding double_word
compare-double_word x y h k =
    ground (arith, bit_xor_top 63 x h, bit_and_top 63 x h, bit_xor_top 63 y k, bit_and_top 63 y k)

then_cmp-eq : (o : Ordering) → then_cmp o eq ≡ o
then_cmp-eq lt = refl
then_cmp-eq eq = refl
then_cmp-eq gt = refl

-- Encoded keys compare, byte by byte, as the values do.
pub bytes_cmp-serialize_for_key_component :
    (v w : PrimitiveValue)
    → IsRepresentable v
    → IsRepresentable w
    → bytes_cmp (serialize_for_key_component v) (serialize_for_key_component w) ≡ value_cmp v w
unfolding serialize_for_key_component bytes_cmp
bytes_cmp-serialize_for_key_component (string a) (string b) h k = refl
bytes_cmp-serialize_for_key_component (bytes a) (bytes b) h k =
    bytes_cmp-escape a b [] [] tt tt ∙ then_cmp-eq (bytes_cmp a b)
bytes_cmp-serialize_for_key_component (int64 x) (int64 y) h k =
    bytes_cmp-be_bytes 8 (int64_word x) (int64_word y) (int64_word-lt x h) (int64_word-lt y k)
    ∙ compare-int64_word x y h k
bytes_cmp-serialize_for_key_component (double x) (double y) h k =
    bytes_cmp-be_bytes 8 (double_word x) (double_word y) (double_word-lt x h) (double_word-lt y k)
    ∙ compare-double_word x y h k
bytes_cmp-serialize_for_key_component _ _ h k = refl

eq_of_double_rank : (x y : ℕ) → double_rank x ≡ double_rank y → x ≡ y
eq_of_double_rank x y h = ground arith

pub eq_of_value_cmp : (v w : PrimitiveValue) → value_cmp v w ≡ eq → v ≡ w
eq_of_value_cmp (string a) (string b) h = ap string (eq_of_bytes_cmp a b h)
eq_of_value_cmp (bytes a) (bytes b) h = ap bytes (eq_of_bytes_cmp a b h)
eq_of_value_cmp (int64 x) (int64 y) h = ap int64 (eq_of_cmp_ℤ x y h)
eq_of_value_cmp (double x) (double y) h =
    ap double (eq_of_double_rank x y (eq_of_cmp_ℤ (double_rank x) (double_rank y) h))
eq_of_value_cmp _ _ h = cc

-- Distinct values have distinct keys.
pub serialize_for_key_component_injective :
    (v w : PrimitiveValue)
    → IsRepresentable v
    → IsRepresentable w
    → serialize_for_key_component v ≡ serialize_for_key_component w
    → v ≡ w
serialize_for_key_component_injective v w h k e =
    eq_of_value_cmp v w
      (sym (bytes_cmp-serialize_for_key_component v w h k) ∙ rw e (bytes_cmp_refl _))
