-- ===== src/Kv/MockKv/Validity.antt =====
-- rdb-analyzer/src/data/mock_kv.rs: what every transaction knows of the keys that it wrote.
use refine_db.Prelude.{
  ℕ, ◌+◌, ◌<◌, Bytes, eq_of_bytes_cmp, Option, none, some, List, [], ◌∷◌, ◌≡◌, refl, ◌∙◌, arith,
  Option-cases, inl, inr,
}
use refine_db.Kv.OrderedMap.{OrderedMap, find}
use refine_db.Kv.MockKv.{
  Entry, Transaction, Store, version_of, value_of, read, note_modified, write, put, delete,
  delete_keys, delete_range, begin_transaction, Write, put_key, delete_key, delete_keys_in,
  run_write, run_writes,
}

-- No key is listed twice.
abbrev pub HasUniqueKeys : List (Bytes × ℕ) → Type 0
HasUniqueKeys [] = Unit
HasUniqueKeys ((k, v) ∷ l) = (find k l ≡ none) × HasUniqueKeys l

-- A written key holds an entry newer than the snapshot's, whose version is noted; every other key
-- is as in the snapshot.
pub record IsValid (m : OrderedMap Entry) (t : Transaction m) : Type 0 where
  pub noted :
      (k : Bytes) (v : ℕ)
      → find k t.modified ≡ some v
      → (version_of m (m.get k t.read_buffer) ≡ v) × (v < version_of m (m.get k t.buffer))
  pub unnoted : (k : Bytes) → find k t.modified ≡ none → m.get k t.buffer ≡ m.get k t.read_buffer
  pub unique : HasUniqueKeys t.modified

module _ (m : OrderedMap Entry) where
  note_modified-HasUniqueKeys :
      (k : Bytes) (v : ℕ) (l : List (Bytes × ℕ))
      → HasUniqueKeys l
      → HasUniqueKeys (note_modified m k v l)
  note_modified-HasUniqueKeys k v l h = elim (Option-cases (find k l)) [
    | inl new ↦ rw (new, note_modified, HasUniqueKeys) (new, h)
    | inr (u, old) ↦ rw (old, note_modified, HasUniqueKeys) h
  ]

  write-IsValid :
      (k : Bytes) (x : Option Bytes) (t : Transaction m) → IsValid m t → IsValid m (write m k x t)
  write-IsValid k x t h = elim (Option-cases (find k t.modified)) [
    | inl new ↦ record {
      noted = λ j v e. ground (
        arith,
        m.get-insert k j (x, version_of m (m.get k t.buffer) + 1) t.buffer,
        eq_of_bytes_cmp k j,
        h.noted j v,
        h.unnoted j,
        new,
      );
      unnoted = λ j e. ground (
        arith,
        m.get-insert k j (x, version_of m (m.get k t.buffer) + 1) t.buffer,
        eq_of_bytes_cmp k j,
        h.unnoted j,
        new,
      );
      unique = note_modified-HasUniqueKeys k _ t.modified h.unique;
    }
    | inr (u, old) ↦ record {
      noted = λ j v e. ground (
        arith,
        m.get-insert k j (x, version_of m (m.get k t.buffer) + 1) t.buffer,
        eq_of_bytes_cmp k j,
        h.noted j v,
        old,
      );
      unnoted = λ j e. ground (
        arith,
        m.get-insert k j (x, version_of m (m.get k t.buffer) + 1) t.buffer,
        eq_of_bytes_cmp k j,
        h.unnoted j,
        old,
      );
      unique = note_modified-HasUniqueKeys k _ t.modified h.unique;
    }
  ]

  delete_keys-IsValid :
      (l : List (Bytes × Entry)) (t : Transaction m) → IsValid m t → IsValid m (delete_keys m l t)
  unfolding delete_keys
  delete_keys-IsValid [] t h = h
  delete_keys-IsValid ((k, e) ∷ l) t h =
      delete_keys-IsValid l (delete m k t) (unfold delete in write-IsValid k none t h)

  run_write-IsValid : (w : Write m) (t : Transaction m) → IsValid m t → IsValid m (run_write m w t)
  unfolding put delete delete_range
  run_write-IsValid (put_key k v) t h = write-IsValid k (some v) t h
  run_write-IsValid (delete_key k) t h = write-IsValid k none t h
  run_write-IsValid (delete_keys_in start end) t h =
      delete_keys-IsValid (m.range start end t.buffer) t h

  begin_transaction-IsValid : (s : Store m) → IsValid m (begin_transaction m s).0
  unfolding begin_transaction
  begin_transaction-IsValid s = record { noted = λ k v e. cc; unnoted = λ k e. refl; unique = tt }

  run_writes-IsValid :
      (ws : List (Write m)) (t : Transaction m) → IsValid m t → IsValid m (run_writes m ws t)
  run_writes-IsValid [] t h = h
  run_writes-IsValid (w ∷ ws) t h =
      run_writes-IsValid ws (run_write m w t) (run_write-IsValid w t h)

  -- A transaction knows exactly which keys it has changed, and by how much, whatever it writes.
  pub transaction-IsValid :
      (s : Store m) (ws : List (Write m)) → IsValid m (run_writes m ws (begin_transaction m s).0)
  transaction-IsValid s ws =
      run_writes-IsValid ws (begin_transaction m s).0 (begin_transaction-IsValid s)

  read_buffer-delete_keys :
      (l : List (Bytes × Entry)) (t : Transaction m)
      → (delete_keys m l t).read_buffer ≡ t.read_buffer
  unfolding delete_keys delete
  read_buffer-delete_keys [] t = refl
  read_buffer-delete_keys ((k, e) ∷ l) t = read_buffer-delete_keys l (write m k none t)

  read_buffer-run_write :
      (w : Write m) (t : Transaction m) → (run_write m w t).read_buffer ≡ t.read_buffer
  unfolding put delete delete_range
  read_buffer-run_write (put_key k v) t = refl
  read_buffer-run_write (delete_key k) t = refl
  read_buffer-run_write (delete_keys_in start end) t =
      read_buffer-delete_keys (m.range start end t.buffer) t

  pub read_buffer-run_writes :
      (ws : List (Write m)) (t : Transaction m) → (run_writes m ws t).read_buffer ≡ t.read_buffer
  read_buffer-run_writes [] t = refl
  read_buffer-run_writes (w ∷ ws) t =
      read_buffer-run_writes ws (run_write m w t) ∙ read_buffer-run_write w t

  -- Reads see the store as it was when the transaction began: not the transaction's own writes.
  pub read-run_writes :
      (s : Store m) (ws : List (Write m)) (k : Bytes)
      → read m k (run_writes m ws (begin_transaction m s).0) ≡ value_of m (m.get k s.contents)
  unfolding read begin_transaction
  read-run_writes s ws k = rw (read_buffer-run_writes ws _)
