-- ===== src/Schema/Outcome.antt =====
-- rdb-analyzer/src/schema/compile.rs: what is known of a run of the resolution. It returns a value
-- with a property, fails with an error of the program, or has no fuel; it does not panic.
use refine_db.Prelude.{
  Bool, true, false, Option, none, some, ◌≡◌, refl, ok, err, ◌>>=◌, ok_or, guard, if◌then◌else◌,
}
use refine_db.Schema.Resolve.{Compiled, SchemaCompileError, failed, out_of_fuel}

pub data Outcome {A : Type 0} (P : A → Type 0) : Compiled A → Type 0 where
  returns : {a : A} → P a → Outcome P (ok a)
  fails : {e : SchemaCompileError} → Outcome P (err (failed e))
  starves : Outcome P (err out_of_fuel)

module _ {A : Type 0} {P : A → Type 0} where
  infixl 1 ◌⟫◌
  pub ◌⟫◌ :
      {B : Type 0} {Q : B → Type 0} {r : Compiled A} {f : A → Compiled B}
      → Outcome P r
      → ((a : A) → P a → Outcome Q (f a))
      → Outcome Q (r >>= f)
  returns {a} h ⟫ k = k a h
  fails ⟫ k = fails
  starves ⟫ k = starves

  pub Outcome-ok : {a : A} → Outcome P (ok a) → P a
  Outcome-ok (returns h) = h

  pub Outcome-elim : {r : Compiled A} {a : A} → Outcome P r → r ≡ ok a → P a
  Outcome-elim h e = Outcome-ok (rw e at h)

  pub Outcome-if :
      (b : Bool) {r s : Compiled A}
      → (b ≡ true → Outcome P r)
      → (b ≡ false → Outcome P s)
      → Outcome P (if b then r else s)
  Outcome-if true h k = h refl
  Outcome-if false h k = k refl

pub guard-Outcome :
    (b : Bool) (e : SchemaCompileError) → Outcome (λ _. b ≡ true) (guard b (failed e))
guard-Outcome true e = returns refl
guard-Outcome false e = fails

pub ok_or-Outcome :
    {A : Type 0} (o : Option A) (e : SchemaCompileError)
    → Outcome (λ a. o ≡ some a) (ok_or (failed e) o)
ok_or-Outcome (some a) e = returns refl
ok_or-Outcome none e = fails
