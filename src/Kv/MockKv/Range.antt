-- ===== src/Kv/MockKv/Range.antt =====
-- rdb-analyzer/src/data/mock_kv.rs: the effect of writes and of `delete_range` on the buffer.
use refine_db.Prelude.{
  ◌+◌, Bytes, bytes_eq, eq_of_bytes_cmp, if◌then◌else◌, Option, none, some, List, [], ◌∷◌, ◌≡◌,
  refl, arith,
}
use refine_db.Kv.OrderedMap.{OrderedMap, find, within, in_range}
use refine_db.Kv.MockKv.{
  Entry, Transaction, value_of, version_of, put, delete, delete_keys, delete_range, write,
}

find-within :
    (start end k : Bytes) (l : List (Bytes × Entry))
    → find k (within start end l) ≡ (if in_range start end k then find k l else none)
find-within start end k [] = ground arith
find-within start end k ((j, x) ∷ l) =
    ground (arith, eq_of_bytes_cmp j k, find-within start end k l)

module _ (m : OrderedMap Entry) where
  -- The value that a transaction would commit for a key.
  abbrev pub buffered : Transaction m → Bytes → Option Bytes
  buffered t k = value_of m (m.get k t.buffer)

  buffered-write :
      (k j : Bytes) (x : Option Bytes) (t : Transaction m)
      → buffered (write m k x t) j ≡ (if bytes_eq k j then x else buffered t j)
  buffered-write k j x t =
      ground (arith, m.get-insert k j (x, version_of m (m.get k t.buffer) + 1) t.buffer)

  pub buffered-put :
      (k j v : Bytes) (t : Transaction m)
      → buffered (put m k v t) j ≡ (if bytes_eq k j then some v else buffered t j)
  unfolding put
  buffered-put k j v t = buffered-write k j (some v) t

  pub buffered-delete :
      (k j : Bytes) (t : Transaction m)
      → buffered (delete m k t) j ≡ (if bytes_eq k j then none else buffered t j)
  unfolding delete
  buffered-delete k j t = buffered-write k j none t

  buffered-delete_keys :
      (l : List (Bytes × Entry)) (j : Bytes) (t : Transaction m)
      → buffered (delete_keys m l t) j ≡ elim (find j l) [ none ↦ buffered t j | some _ ↦ none ]
  unfolding delete_keys
  buffered-delete_keys [] j t = refl
  buffered-delete_keys ((k, x) ∷ l) j t =
      ground
        (arith, buffered-delete_keys l j (delete m k t), buffered-delete k j t, eq_of_bytes_cmp k j)

  -- `delete_range` takes away every key of the range, and no other.
  pub buffered-delete_range :
      (start end k : Bytes) (t : Transaction m)
      → buffered (delete_range m start end t) k
        ≡ (if in_range start end k then none else buffered t k)
  unfolding delete_range
  buffered-delete_range start end k t = ground (
    arith,
    buffered-delete_keys (m.range start end t.buffer) k t,
    m.range_lem start end t.buffer,
    find-within start end k (m.entries t.buffer),
    m.get_lem k t.buffer,
  )
