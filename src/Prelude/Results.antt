-- ===== src/Prelude/Results.antt =====
-- `Result<T, E>`: fallible code, and the rule to open a successful chain.
use mathlib.Core.Path.{◌≡◌, refl}
use mathlib.Core.Option.{Option, none, some}
use refine_db.Prelude.Tests.{if◌then◌else◌}
use mathlib.Core.Bool.{Bool, true, false}

pub data Result {ℓ} (E : Type ℓ) (A : Type ℓ) : Type ℓ where
  ok : A → Result E A
  err : E → Result E A

-- `?` passes an error on, and `Option::ok_or_else` names one.
module _ {ℓ} {E A : Type ℓ} where
  infixl 5 ◌>>=◌ ◌>>◌
  abbrev pub ok_or : E → Option A → Result E A
  ok_or e (some a) = ok a
  ok_or e none = err e

  abbrev pub ◌>>=◌ : {B : Type ℓ} → Result E A → (A → Result E B) → Result E B
  err e >>= k = err e
  ok a >>= k = k a

  abbrev pub ◌>>◌ : {B : Type ℓ} → Result E A → Result E B → Result E B
  r >> s = r >>= (λ a. s)

  pub >>=-eq-ok :
      {B : Type ℓ} {b : B} (r : Result E A) (k : A → Result E B)
      → (r >>= k) ≡ ok b
      → (a : A) × (r ≡ ok a) × (k a ≡ ok b)
  >>=-eq-ok (err e) k p = cc
  >>=-eq-ok (ok a) k p = (a, refl, p)

abbrev pub guard {ℓ} : {E : Type ℓ} → Bool → E → Result E (Unit {ℓ})
guard false e = err e
guard true e = ok tt

-- `P` holds of the value, if there is one.
pub data Ensures {ℓ κ} {E A : Type ℓ} (P : A → Type κ) : Result E A → Type (ℓ ⊔ κ) where
  returns : {a : A} → P a → Ensures P (ok a)
  fails : {e : E} → Ensures P (err e)

module _ {ℓ κ} {E A : Type ℓ} {P : A → Type κ} where
  infixl 1 ◌⟫◌
  pub ◌⟫◌ :
      {B : Type ℓ} {Q : B → Type κ} {r : Result E A} {f : A → Result E B}
      → Ensures P r
      → ((a : A) → P a → Ensures Q (f a))
      → Ensures Q (r >>= f)
  returns {a} h ⟫ k = k a h
  fails ⟫ k = fails

  pub Ensures-ok : {a : A} → Ensures {E = E} P (ok a) → P a
  Ensures-ok (returns h) = h

  -- The postcondition of a run that is known to return.
  pub Ensures-elim : {r : Result E A} {a : A} → Ensures P r → r ≡ ok a → P a
  Ensures-elim h e = Ensures-ok (rw e at h)

pub Ensures-any {ℓ} : {E A : Type ℓ} (r : Result E A) → Ensures (λ _. Unit {0}) r
Ensures-any (ok a) = returns tt
Ensures-any (err e) = fails

pub weaken {ℓ κ} :
    {E A : Type ℓ} {P Q : A → Type κ} {r : Result E A}
    → ((a : A) → P a → Q a)
    → Ensures P r
    → Ensures Q r
weaken g (returns h) = returns (g _ h)
weaken g fails = fails

pub Ensures-if {ℓ κ} :
    {E A : Type ℓ} {P : A → Type κ} (b : Bool) {r s : Result E A}
    → (b ≡ true → Ensures P r)
    → (b ≡ false → Ensures P s)
    → Ensures P (if b then r else s)
Ensures-if true h k = h refl
Ensures-if false h k = k refl

pub ok_or-Ensures {ℓ} :
    {E A : Type ℓ} (e : E) (o : Option A) → Ensures (λ a. o ≡ some a) (ok_or e o)
ok_or-Ensures e none = fails
ok_or-Ensures e (some a) = returns refl
