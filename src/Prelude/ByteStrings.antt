-- ===== src/Prelude/ByteStrings.antt =====
-- Byte strings as lists of numbers: equality, and the lexicographic order of the stores' keys.
use Prim.Native.Nat.{ℕ, compare, Ordering, ◌<◌}
use Prim.Native.Nat.Ordering.{lt, eq, gt}
use mathlib.Core.Path.{◌≡◌, refl}
use mathlib.Core.Logic.{◌↔◌, ◌⊎◌, inl, inr}
use mathlib.Core.Bool.{Bool, true, false}
use mathlib.Core.List.{List, [], ◌∷◌, ◌++◌}
use native.Mathlib.Omega.{arith}
use refine_db.Prelude.Lists.{All, length}

abbrev pub Bytes : Type 0
Bytes = List ℕ

abbrev pub AreBytes : Bytes → Type 0
AreBytes = All (λ b. b < 256)

abbrev pub then_cmp : Ordering → Ordering → Ordering
then_cmp eq second = second
then_cmp first _ = first

unfoldable pub bytes_cmp : Bytes → Bytes → Ordering
bytes_cmp [] [] = eq
bytes_cmp [] (y ∷ ys) = lt
bytes_cmp (x ∷ xs) [] = gt
bytes_cmp (x ∷ xs) (y ∷ ys) = then_cmp (compare x y) (bytes_cmp xs ys)

abbrev pub bytes_eq : Bytes → Bytes → Bool
bytes_eq a b = elim (bytes_cmp a b) [ eq ↦ true | _ ↦ false ]

abbrev pub bytes_lt : Bytes → Bytes → Bool
bytes_lt a b = elim (bytes_cmp a b) [ lt ↦ true | _ ↦ false ]

pub bytes_cmp_refl : (a : Bytes) → bytes_cmp a a ≡ eq
unfolding bytes_cmp
bytes_cmp_refl [] = refl
bytes_cmp_refl (x ∷ a) = ground (arith, bytes_cmp_refl a)

pub eq_of_bytes_cmp : (a b : Bytes) → bytes_cmp a b ≡ eq → a ≡ b
unfolding bytes_cmp
eq_of_bytes_cmp [] [] h = refl
eq_of_bytes_cmp [] (y ∷ b) h = cc
eq_of_bytes_cmp (x ∷ a) [] h = cc
eq_of_bytes_cmp (x ∷ a) (y ∷ b) h = ground (arith, eq_of_bytes_cmp a b)

pub bytes_eq_iff : (a b : Bytes) → (bytes_eq a b ≡ true) ↔ (a ≡ b)
bytes_eq_iff a b = (λ h. ground (arith, eq_of_bytes_cmp a b), λ h. ground (arith, bytes_cmp_refl b))

pub bytes_cmp_trans : (a b c : Bytes) → bytes_cmp a b ≡ lt → bytes_cmp b c ≡ lt → bytes_cmp a c ≡ lt
unfolding bytes_cmp
bytes_cmp_trans [] [] c h k = cc
bytes_cmp_trans [] (y ∷ b) [] h k = cc
bytes_cmp_trans [] (y ∷ b) (z ∷ c) h k = refl
bytes_cmp_trans (x ∷ a) [] c h k = cc
bytes_cmp_trans (x ∷ a) (y ∷ b) [] h k = cc
bytes_cmp_trans (x ∷ a) (y ∷ b) (z ∷ c) h k = ground (arith, bytes_cmp_trans a b c)

-- A common prefix does not change the order.
pub bytes_cmp_prefix : (p a b : Bytes) → bytes_cmp (p ++ a) (p ++ b) ≡ bytes_cmp a b
unfolding bytes_cmp
bytes_cmp_prefix [] a b = refl
bytes_cmp_prefix (x ∷ p) a b = ground (arith, bytes_cmp_prefix p a b)

-- Of two strings of one length, what follows decides only where they agree.
pub bytes_cmp-append :
    (a b r s : Bytes)
    → length a ≡ length b
    → bytes_cmp (a ++ r) (b ++ s) ≡ then_cmp (bytes_cmp a b) (bytes_cmp r s)
unfolding bytes_cmp
bytes_cmp-append [] [] r s h = refl
bytes_cmp-append [] (y ∷ b) r s h = absurd (omega arith)
bytes_cmp-append (x ∷ a) [] r s h = absurd (omega arith)
bytes_cmp-append (x ∷ a) (y ∷ b) r s h = ground (arith, bytes_cmp-append a b r s (omega arith))

pub lt_of_bytes_gt : (a b : Bytes) → bytes_cmp a b ≡ gt → bytes_cmp b a ≡ lt
unfolding bytes_cmp
lt_of_bytes_gt [] [] h = cc
lt_of_bytes_gt [] (y ∷ b) h = cc
lt_of_bytes_gt (x ∷ a) [] h = refl
lt_of_bytes_gt (x ∷ a) (y ∷ b) h = ground (arith, lt_of_bytes_gt a b)

pub gt_of_bytes_lt : (a b : Bytes) → bytes_cmp a b ≡ lt → bytes_cmp b a ≡ gt
unfolding bytes_cmp
gt_of_bytes_lt [] [] h = cc
gt_of_bytes_lt [] (y ∷ b) h = refl
gt_of_bytes_lt (x ∷ a) [] h = cc
gt_of_bytes_lt (x ∷ a) (y ∷ b) h = ground (arith, gt_of_bytes_lt a b)

pub Ordering-cases : (o : Ordering) → (o ≡ lt) ⊎ (o ≡ eq) ⊎ (o ≡ gt)
Ordering-cases lt = inl refl
Ordering-cases eq = inr (inl refl)
Ordering-cases gt = inr (inr refl)

-- A string is below those that continue it.
pub bytes_cmp_extend : (a : Bytes) (x : ℕ) (r : Bytes) → bytes_cmp a (a ++ x ∷ r) ≡ lt
unfolding bytes_cmp
bytes_cmp_extend [] x r = refl
bytes_cmp_extend (y ∷ a) x r = ground (arith, bytes_cmp_extend a x r)
