-- ===== src/Exec.antt =====
-- rdb-analyzer/src/data/treewalker/exec.rs: the operations of the executor on stored sets. The
-- transaction is that of the in-memory store; an error of the walker is the panic of an `unwrap`.
pub mod Outcome
pub mod Insert
pub mod Compute
pub mod Effects
pub mod Reduce
pub mod RunNode
pub mod FireRules
pub mod Progress
pub mod Loop
pub mod Ends
pub mod Attempts
pub mod Writes
pub mod Once
pub mod RootMap
pub mod SetKeys
pub mod DeleteEntry
pub mod DeleteSet
mod Examples
mod RunExamples
mod CheckedExamples
mod Samples
mod StoreExamples
mod SelectExamples
use refine_db.Prelude.{ℕ, ◌+◌, Bytes, [], ◌∷◌, ◌++◌, ok, ◌>>=◌}
use refine_db.Value.{PrimitiveValue, serialize_for_key_component}
use refine_db.PathWalker.{Walker, Walked, set_fast_scan_prefix, set_data_prefix}
use refine_db.Kv.OrderedMap.{OrderedMap}
use refine_db.Kv.MockKv.{Entry, Transaction, put, delete, delete_range}

-- `*key.last_mut().unwrap() += 1` and `= b`, on a key that is not empty.
abbrev pub move_up : Bytes → Bytes
move_up [] = []
move_up (b ∷ []) = (b + 1) ∷ []
move_up (b ∷ (c ∷ k)) = b ∷ move_up (c ∷ k)

abbrev pub set_last : ℕ → Bytes → Bytes
set_last x [] = []
set_last x (b ∷ []) = x ∷ []
set_last x (b ∷ (c ∷ k)) = b ∷ set_last x (c ∷ k)

-- The entry of a member in the part of a set that holds keys only.
pub fast_scan_key : Walker → PrimitiveValue → Walked Bytes
fast_scan_key w primary_key = do
  prefix ← set_fast_scan_prefix w
  ok (prefix ++ serialize_for_key_component primary_key)

module _ (m : OrderedMap Entry) where
  pub delete_set : Walker → Transaction m → Walked (Transaction m)
  delete_set w t = do
    fast_scan_start ← set_fast_scan_prefix w
    data_start ← set_data_prefix w
    let t' = delete_range m fast_scan_start (move_up fast_scan_start) t
    ok (delete_range m data_start (move_up data_start) t')

  pub delete_entry_from_set : Walker → PrimitiveValue → Transaction m → Walked (Transaction m)
  delete_entry_from_set w primary_key t = do
    key ← fast_scan_key w primary_key
    data_prefix ← set_data_prefix w
    let data_start = data_prefix ++ (serialize_for_key_component primary_key ++ 0x00 ∷ [])
    ok (delete_range m data_start (set_last 0x01 data_start) (delete m key t))
