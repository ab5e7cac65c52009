-- ===== src/Exec/Writes.antt =====
-- rdb-analyzer/src/data/treewalker/exec.rs: what a run does to its transaction is a sequence of puts,
-- deletes and range deletes.
pub mod Nodes
pub mod Runs
use mathlib.Core.List.{append_assoc}
use refine_db.Prelude.{
  Bytes, List, [], ◌∷◌, ◌++◌, Option, none, some, ok, err, ◌>>=◌, ◌≡◌, refl, sym, ◌∙◌, Ensures,
  returns, fails, ◌⟫◌, Ensures-any, weaken,
}
use refine_db.Treewalker.Values.{VmValue}
use refine_db.Kv.OrderedMap.{OrderedMap}
use refine_db.Kv.MockKv.{
  Entry, Transaction, Write, put_key, delete_key, delete_keys_in, run_writes, put, delete,
  delete_range,
}
use refine_db.Exec.Outcome.{Executed}
use refine_db.Exec.Reduce.{Machine}
use refine_db.Exec.RunNode.{gives, writes}

module _ {m : OrderedMap Entry} where
  abbrev pub IsWritten : Transaction m → Transaction m → Type 0
  IsWritten t u = (ws : List (Write m)) × (run_writes m ws t ≡ u)

  pub IsWritten-refl : (t : Transaction m) → IsWritten t t
  IsWritten-refl t = ([], refl)

  run_writes-append :
      (ws vs : List (Write m)) (t : Transaction m)
      → run_writes m (ws ++ vs) t ≡ run_writes m vs (run_writes m ws t)
  run_writes-append [] vs t = refl
  run_writes-append (w ∷ ws) vs t = run_writes-append ws vs _

  pub IsWritten-trans : (t u v : Transaction m) → IsWritten t u → IsWritten u v → IsWritten t v
  IsWritten-trans t u v (ws, h) (vs, k) = (ws ++ vs, run_writes-append ws vs t ∙ rw h k)

  pub put-IsWritten : (k v : Bytes) (t : Transaction m) → IsWritten t (put m k v t)
  put-IsWritten k v t = (put_key k v ∷ [], refl)

  pub delete-IsWritten : (k : Bytes) (t : Transaction m) → IsWritten t (delete m k t)
  delete-IsWritten k t = (delete_key k ∷ [], refl)

  pub delete_range-IsWritten :
      (start end : Bytes) (t : Transaction m) → IsWritten t (delete_range m start end t)
  delete_range-IsWritten start end t = (delete_keys_in start end ∷ [], refl)

  -- One run after another.
  pub IsWritten-bind :
      (t : Transaction m) {r : Executed (Transaction m)}
      {k : Transaction m → Executed (Transaction m)}
      → Ensures (IsWritten t) r
      → ((u : Transaction m) → Ensures (IsWritten u) (k u))
      → Ensures (IsWritten t) (r >>= k)
  IsWritten-bind t h next = h ⟫ λ u w. weaken (λ v w'. IsWritten-trans t u v w w') (next u)

  -- The state after a part of a run.
  abbrev pub Leaves : {A : Type 0} → Machine m → Executed (A × Machine m) → Type 0
  Leaves s r = Ensures (λ (_, s'). IsWritten s.txn s'.txn) r

  pub Leaves-ok : {A : Type 0} (a : A) (s : Machine m) → Leaves s (ok (a, s))
  Leaves-ok a s = returns {a = (a, s)} (IsWritten-refl s.txn)

  pub Leaves-any :
      {A B : Type 0} (s : Machine m) (r : Executed A) {k : A → Executed (B × Machine m)}
      → ((a : A) → Leaves s (k a))
      → Leaves s (r >>= k)
  Leaves-any s r h = Ensures-any r ⟫ λ a _. h a

  pub Leaves-bind :
      {A B : Type 0} (s : Machine m) {r : Executed (A × Machine m)}
      (k : A × Machine m → Executed (B × Machine m))
      → Leaves s r
      → ((a : A) (s' : Machine m) → Leaves s' (k (a, s')))
      → Leaves s (r >>= k)
  Leaves-bind s k h next =
      h ⟫ λ (a, s') w. weaken (λ (b, s'') w'. IsWritten-trans s.txn s'.txn s''.txn w w') (next a s')

  pub gives-Leaves : (r : Executed VmValue) (s : Machine m) → Leaves s (gives r s)
  gives-Leaves r s = Leaves-any s r (λ v. Leaves-ok (some v) s)

  pub writes-Leaves :
      (r : Executed (Transaction m)) (s : Machine m)
      → Ensures (IsWritten s.txn) r
      → Leaves s (writes r s)
  writes-Leaves r s h = h ⟫ λ t w. returns {a = (none, record s { txn = t })} w
