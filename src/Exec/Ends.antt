-- ===== src/Exec/Ends.antt =====
-- rdb-analyzer/src/data/treewalker/exec.rs: runs that do not reach the end of the fuel of a loop.
pub mod Nodes
pub mod Effects
pub mod Runs
pub mod Loop
use refine_db.Prelude.{
  Bool, true, false, Option, none, some, ok, err, ◌>>=◌, if◌then◌else◌, ◌≡◌, ◌≢◌, Ensures, returns,
  fails, ok_or, Bytes,
}
use refine_db.PathWalker.{Walked}
use refine_db.Exec.Outcome.{
  Executed, Halt, failed, undecodable, panicked, out_of_fuel, ExecError, unwrap, unwrap_walked,
  throw,
}

pub data Ends {A : Type 0} : Executed A → Type 0 where
  returned : (a : A) → Ends (ok a)
  stopped : (e : Halt) → e ≢ out_of_fuel → Ends (err e)

pub Ends-bind :
    {A B : Type 0} {r : Executed A} {k : A → Executed B}
    → Ends r
    → ((a : A) → Ends (k a))
    → Ends (r >>= k)
Ends-bind (returned a) h = h a
Ends-bind (stopped e d) h = stopped e d

-- A bind whose continuation is known to end only for what the first run ensures.
pub Ends-bind_of :
    {A B : Type 0} {P : A → Type 0} {r : Executed A} {k : A → Executed B}
    → Ends r
    → Ensures P r
    → ((a : A) → P a → Ends (k a))
    → Ends (r >>= k)
Ends-bind_of (returned a) (returns p) h = h a p
Ends-bind_of (stopped e d) f h = stopped e d

panicked_differs : panicked ≢ out_of_fuel
panicked_differs e = cc

failed_differs : (e : ExecError) → failed e ≢ out_of_fuel
failed_differs e h = cc

pub Ends-panic : {A : Type 0} → Ends {A = A} (err panicked)
Ends-panic = stopped panicked panicked_differs

pub Ends-throw : {A : Type 0} (e : ExecError) → Ends {A = A} (throw e)
Ends-throw e = stopped (failed e) (failed_differs e)

pub Ends-unwrap : {A : Type 0} (o : Option A) → Ends (unwrap o)
Ends-unwrap (some a) = returned a
Ends-unwrap none = Ends-panic

pub Ends-decoded : {A : Type 0} (raw : Bytes) (o : Option A) → Ends (ok_or (undecodable raw) o)
Ends-decoded raw (some a) = returned a
Ends-decoded raw none = stopped (undecodable raw) (λ h. cc)

pub Ends-unwrap_walked : {A : Type 0} (r : Walked A) → Ends (unwrap_walked r)
Ends-unwrap_walked (ok a) = returned a
Ends-unwrap_walked (err e) = Ends-panic

pub Ends-if :
    {A : Type 0} (b : Bool) {r s : Executed A} → Ends r → Ends s → Ends (if b then r else s)
Ends-if true h k = h
Ends-if false h k = k

pub Ends-Option :
    {A B : Type 0} (o : Option A) {r : Executed B} {f : A → Executed B}
    → Ends r
    → ((a : A) → Ends (f a))
    → Ends {A = B} (elim o [ none ↦ r | some a ↦ f a ])
Ends-Option none h k = h
Ends-Option (some a) h k = k a

pub ruleset ends =
    (returned, Ends-bind, Ends-panic, Ends-throw, Ends-unwrap, Ends-unwrap_walked, Ends-if)

pub Ends-err : {A : Type 0} {r : Executed A} → Ends r → r ≢ err out_of_fuel
Ends-err (returned a) h = cc
Ends-err {A} (stopped e d) h = d (same h)
  where
    same : ◌≡◌ {A = Executed A} (err e) (err out_of_fuel) → e ≡ out_of_fuel
    same h = cc
