-- ===== src/Prelude/Updates.antt =====
-- Lists that are changed in place, and what stands in them then.
use Prim.Native.Nat.{ℕ, zero, suc, ◌<◌}
use mathlib.Core.Path.{◌≡◌, refl, sym, ap, ◌∙◌}
use mathlib.Core.Logic.{◌≢◌, ◌⊎◌, inl, inr}
use mathlib.Core.Option.{Option, none, some}
use mathlib.Core.List.{List, [], ◌∷◌}
use native.Mathlib.Omega.{arith}
use refine_db.Prelude.Tests.{◌==◌, if◌then◌else◌, Bool-cases, ==_iff}
use refine_db.Prelude.Lists.{length, get_elem?}

-- `v[i] = x`, where `none` is an index out of bounds.
abbrev pub some_cons {ℓ} : {A : Type ℓ} → A → Option (List A) → Option (List A)
some_cons x none = none
some_cons x (some xs) = some (x ∷ xs)

unfoldable pub store_at {ℓ} : {A : Type ℓ} → ℕ → A → List A → Option (List A)
store_at i y [] = none
store_at zero y (x ∷ xs) = some (y ∷ xs)
store_at (suc i) y (x ∷ xs) = some_cons x (store_at i y xs)

module _ {ℓ} {A : Type ℓ} where
  abbrev pub set : List A → ℕ → A → List A
  set [] i v = []
  set (x ∷ xs) zero v = v ∷ xs
  set (x ∷ xs) (suc i) v = x ∷ set xs i v

  pub length-set : (xs : List A) (i : ℕ) (v : A) → length (set xs i v) ≡ length xs
  length-set [] i v = refl
  length-set (x ∷ xs) zero v = refl
  length-set (x ∷ xs) (suc i) v = omega (arith, length-set xs i v)

  pub get_elem?-set :
      (xs : List A) (i j : ℕ) (v : A)
      → i < length xs
      → get_elem? (set xs i v) j ≡ (if i == j then some v else get_elem? xs j)
  get_elem?-set [] i j v h = absurd (omega arith)
  get_elem?-set (x ∷ xs) zero zero v h = refl
  get_elem?-set (x ∷ xs) zero (suc j) v h = ground arith
  get_elem?-set (x ∷ xs) (suc i) zero v h = ground arith
  get_elem?-set (x ∷ xs) (suc i) (suc j) v h = ground (arith, get_elem?-set xs i j v (omega arith))

  pub get_elem?-lt : (xs : List A) (i : ℕ) {v : A} → get_elem? xs i ≡ some v → i < length xs
  get_elem?-lt [] i h = cc
  get_elem?-lt (x ∷ xs) zero h = omega arith
  get_elem?-lt (x ∷ xs) (suc i) h = omega (arith, get_elem?-lt xs i h)

  pub get_elem?-some : (xs : List A) (i : ℕ) → i < length xs → (v : A) × (get_elem? xs i ≡ some v)
  get_elem?-some [] i h = absurd (omega arith)
  get_elem?-some (x ∷ xs) zero h = (x, refl)
  get_elem?-some (x ∷ xs) (suc i) h = get_elem?-some xs i (omega arith)

  pub some_cons-some :
      (x : A) (o : Option (List A)) {ys : List A}
      → some_cons x o ≡ some ys
      → (zs : List A) × (o ≡ some zs) × (ys ≡ x ∷ zs)
  some_cons-some x none h = cc
  some_cons-some x (some zs) h = (zs, refl, cc)

  -- A store that is within bounds is `set`.
  pub store_at-set :
      (i : ℕ) (v : A) (xs : List A) {ys : List A}
      → store_at i v xs ≡ some ys
      → (ys ≡ set xs i v) × (i < length xs)
  unfolding store_at
  store_at-set i v [] h = cc
  store_at-set zero v (x ∷ xs) h = (cc, omega arith)
  store_at-set (suc i) v (x ∷ xs) h =
      let (zs, stored, same) = some_cons-some x (store_at i v xs) h in
      let (eq, lt) = store_at-set i v xs stored in (rw same (ap (◌∷◌ x) eq), omega (arith, lt))

some_eq {ℓ} : {A : Type ℓ} {x y : A} → some x ≡ some y → x ≡ y
some_eq h = cc

-- What a lookup gives after a store: the new element at its place, and the old ones elsewhere.
pub stored_cases {ℓ} :
    {A : Type ℓ} (xs : List A) (i j : ℕ) (y z : A)
    → i < length xs
    → get_elem? (set xs i y) j ≡ some z
    → ((i ≡ j) × (z ≡ y)) ⊎ ((i ≢ j) × (get_elem? xs j ≡ some z))
stored_cases xs i j y z h e = elim (Bool-cases (i == j)) [
  | inl same ↦ inl ((==_iff i j).0 same, some_eq (sym e ∙ get_elem?-set xs i j y h ∙ rw same))
  | inr other ↦ inr (λ same. ground arith, sym (get_elem?-set xs i j y h ∙ rw other) ∙ e)
]
