-- ===== src/Prelude/Bits.antt =====
-- The top bit of a word: `& TOP_BIT` and `^ TOP_BIT` as arithmetic.
use Prim.Native.Nat.{
  ℕ, zero, suc, ◌+◌, ◌-◌, ◌*◌, ◌/◌, ◌%◌, ◌≤◌, ◌<◌, ◌^◌, min, bit_and, bit_xor, digits,
  bit_and-bitwise, bit_xor-bitwise, differ,
}
use mathlib.Core.Path.{◌≡◌, refl, ◌∙◌}
use native.Mathlib.Nat.{pow-suc}
use refine_db.Prelude.Tests.{ltb, if◌then◌else◌}
use native.Mathlib.Omega.{arith}

kept : ℕ → ℕ → ℕ
kept top a = if ltb a top then 0 else top

flipped : ℕ → ℕ → ℕ
flipped top a = if ltb a top then a + top else a - top

differ-zero : (d : ℕ) → differ d 0 ≡ d
differ-zero zero = refl
differ-zero (suc d) = refl

-- Both operations recurse on the digits of the first word, with any fuel that is enough.
digits-zero : (z : ℕ → ℕ) (f : ℕ → ℕ → ℕ) (fuel b : ℕ) → digits z f fuel 0 b ≡ z b
digits-zero z f zero b = refl
digits-zero z f (suc fuel) b = refl

kept-digits :
    (k fuel a : ℕ) → a ≤ fuel → a < 2 * 2 ^ k → digits (λ b. 0) min fuel a (2 ^ k) ≡ kept (2 ^ k) a
unfolding kept
kept-digits k fuel zero h w = ground (arith, digits-zero (λ (b : ℕ). 0) min fuel (2 ^ k))
kept-digits k zero (suc a) h w = absurd (omega arith)
kept-digits zero (suc fuel) (suc zero) h w = ground (arith, digits-zero (λ (b : ℕ). 0) min fuel 0)
kept-digits zero (suc fuel) (suc (suc a)) h w = absurd (omega arith)
kept-digits (suc k) (suc fuel) (suc a) h w =
    ground (arith, pow-suc 2 k, kept-digits k fuel (suc a / 2))

copied-digits : (fuel a : ℕ) → a ≤ fuel → digits (λ b. b) differ fuel a 0 ≡ a
copied-digits fuel zero h = digits-zero (λ b. b) differ fuel 0
copied-digits zero (suc a) h = absurd (omega arith)
copied-digits (suc fuel) (suc a) h =
    omega (arith, copied-digits fuel (suc a / 2), differ-zero (suc a % 2))

flipped-digits :
    (k fuel a : ℕ)
    → a ≤ fuel
    → a < 2 * 2 ^ k
    → digits (λ b. b) differ fuel a (2 ^ k) ≡ flipped (2 ^ k) a
unfolding flipped
flipped-digits k fuel zero h w = ground (arith, digits-zero (λ (b : ℕ). b) differ fuel (2 ^ k))
flipped-digits k zero (suc a) h w = absurd (omega arith)
flipped-digits zero (suc fuel) (suc zero) h w =
    ground (arith, digits-zero (λ (b : ℕ). b) differ fuel 0)
flipped-digits zero (suc fuel) (suc (suc a)) h w = absurd (omega arith)
flipped-digits (suc k) (suc fuel) (suc a) h w =
    ground (arith, pow-suc 2 k, flipped-digits k fuel (suc a / 2), differ-zero (suc a % 2))

-- In a word of `suc k` bits, `^ (1 << k)` flips the top bit.
pub bit_xor_top :
    (k a : ℕ) → a < 2 * 2 ^ k → bit_xor a (2 ^ k) ≡ (if ltb a (2 ^ k) then a + 2 ^ k else a - 2 ^ k)
unfolding flipped
bit_xor_top k a h = bit_xor-bitwise a (2 ^ k) ∙ flipped-digits k a a (omega arith) h

-- In a word of `suc k` bits, `& (1 << k)` keeps the top bit.
pub bit_and_top :
    (k a : ℕ) → a < 2 * 2 ^ k → bit_and a (2 ^ k) ≡ (if ltb a (2 ^ k) then 0 else 2 ^ k)
unfolding kept
bit_and_top k a h = bit_and-bitwise a (2 ^ k) ∙ kept-digits k a a (omega arith) h
