-- ===== src/Value/Escape.antt =====
-- The escape of zero bytes in a byte string: `00` becomes `00 ff`.
use refine_db.Prelude.{
  ℕ, zero, suc, ◌<◌, Bytes, bytes_cmp, then_cmp, ◌==◌, if◌then◌else◌, [], ◌∷◌, ◌++◌, ◌≡◌, refl,
  arith,
}

escape_byte : ℕ → Bytes
escape_byte x = if x == 0 then 0x00 ∷ 0xff ∷ [] else x ∷ []

unfoldable pub escape : Bytes → Bytes
unfolding escape_byte
escape [] = []
escape (x ∷ xs) = escape_byte x ++ escape xs

-- What follows a terminator is below the second byte of an escape.
abbrev pub StartsLow : Bytes → Type 0
StartsLow [] = Unit
StartsLow (r ∷ rs) = r < 0xff

-- Two escaped and terminated strings, whatever follows, are ordered as the strings are.
pub bytes_cmp-escape :
    (a b r s : Bytes)
    → StartsLow r
    → StartsLow s
    → bytes_cmp (escape a ++ 0 ∷ r) (escape b ++ 0 ∷ s) ≡ then_cmp (bytes_cmp a b) (bytes_cmp r s)
unfolding escape bytes_cmp
bytes_cmp-escape [] [] r s h k = refl
bytes_cmp-escape [] (zero ∷ b) [] s h k = refl
bytes_cmp-escape [] (zero ∷ b) (x ∷ r) s h k = ground arith
bytes_cmp-escape [] (suc y ∷ b) r s h k = ground arith
bytes_cmp-escape (zero ∷ a) [] r [] h k = refl
bytes_cmp-escape (zero ∷ a) [] r (x ∷ s) h k = ground arith
bytes_cmp-escape (suc x ∷ a) [] r s h k = ground arith
bytes_cmp-escape (zero ∷ a) (zero ∷ b) r s h k = bytes_cmp-escape a b r s h k
bytes_cmp-escape (zero ∷ a) (suc y ∷ b) r s h k = ground arith
bytes_cmp-escape (suc x ∷ a) (zero ∷ b) r s h k = ground arith
bytes_cmp-escape (suc x ∷ a) (suc y ∷ b) r s h k = ground (arith, bytes_cmp-escape a b r s h k)
