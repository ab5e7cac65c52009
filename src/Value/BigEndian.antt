-- ===== src/Value/BigEndian.antt =====
-- `BigEndian::write_u64`: the digits of a word to the base 256, the highest first.
use refine_db.Prelude.{
  ℕ, zero, suc, ◌/◌, ◌%◌, ◌<◌, ◌^◌, Bytes, bytes_cmp, bytes_cmp_refl, bytes_cmp-append, then_cmp,
  compare, [], ◌∷◌, ◌++◌, length, length-append, ◌≡◌, refl, sym, ◌∙◌, arith,
}
use native.Mathlib.Nat.{pow-suc}

unfoldable pub be_bytes : ℕ → ℕ → Bytes
be_bytes zero x = []
be_bytes (suc n) x = be_bytes n (x / 256) ++ (x % 256) ∷ []

pub length-be_bytes : (n x : ℕ) → length (be_bytes n x) ≡ n
unfolding be_bytes
length-be_bytes zero x = refl
length-be_bytes (suc n) x =
    omega
      (arith, length-append (be_bytes n (x / 256)) ((x % 256) ∷ []), length-be_bytes n (x / 256))

compare_digits :
    (x y : ℕ) → then_cmp (compare (x / 256) (y / 256)) (compare (x % 256) (y % 256)) ≡ compare x y
compare_digits x y = ground arith

last_digit : (a b : ℕ) → bytes_cmp (a ∷ []) (b ∷ []) ≡ compare a b
unfolding bytes_cmp
last_digit a b = ground arith

-- Words that fit their width are ordered as their digits are.
pub bytes_cmp-be_bytes :
    (n x y : ℕ) → x < 256 ^ n → y < 256 ^ n → bytes_cmp (be_bytes n x) (be_bytes n y) ≡ compare x y
unfolding be_bytes
bytes_cmp-be_bytes zero x y h k = ground (arith, bytes_cmp_refl [])
bytes_cmp-be_bytes (suc n) x y h k =
    bytes_cmp-append (be_bytes n (x / 256)) (be_bytes n (y / 256)) ((x % 256) ∷ []) ((y % 256) ∷ [])
      (length-be_bytes n (x / 256) ∙ sym (length-be_bytes n (y / 256)))
    ∙ rw
        (
          bytes_cmp-be_bytes n (x / 256) (y / 256) (omega (arith, pow-suc 256 n))
              (omega (arith, pow-suc 256 n)),
          last_digit (x % 256) (y % 256),
        )
        (compare_digits x y)
